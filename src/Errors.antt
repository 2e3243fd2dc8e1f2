-- ===== src/Errors.antt =====
-- errors/errors.go: the errors of the library, and Go's comparison of two errors.
use text.Mathlib.Text.{◌==◌ as str_eq}
use text.Mathlib.TextEquality.{eq_iff}
use goresilience.Prelude.{
  ℕ, String, ◌≡◌, ap, ◌↔◌, Bool, true, false, Option, none, some, arith, ◌==◌,
}

-- A Go `error` that is not nil: a value of `errors.Error`, which is a string, or a value of some
-- other type, told apart by its identity.
pub data Error : Type 0 where
  resilience : String → Error
  external : ℕ → Error

abbrev pub err_timeout : Error
err_timeout = resilience "timeout while executing"

abbrev pub err_context_canceled : Error
err_context_canceled = resilience "context canceled, logic not executed"

abbrev pub err_timeout_waiting_for_execution : Error
err_timeout_waiting_for_execution = resilience "timeout while waiting for execution"

abbrev pub err_circuit_open : Error
err_circuit_open = resilience "request rejected due to the circuit breaker being open"

abbrev pub err_failure_injected : Error
err_failure_injected = resilience "failure injected on purpose"

abbrev pub err_rejected_execution : Error
err_rejected_execution = resilience "execution has been rejected"

-- `err == errors.ErrX` on interface values: the same dynamic type and the same value.
unfoldable pub same_error : Error → Error → Bool
same_error (resilience s) (resilience t) = str_eq s t
same_error (external m) (external n) = m == n
same_error (resilience s) (external n) = false
same_error (external m) (resilience t) = false

-- `err == nil`
abbrev pub is_nil : Option Error → Bool
is_nil none = true
is_nil (some e) = false

-- Go's comparison of errors decides their equality.
pub same_error_iff : (a b : Error) → (same_error a b ≡ true) ↔ (a ≡ b)
unfolding same_error
same_error_iff (resilience s) (resilience t) =
    (λ h. ap resilience ((eq_iff s t).0 h), λ e. (eq_iff s t).1 (ground arith))
same_error_iff (external m) (external n) = ground arith
same_error_iff (resilience s) (external n) = (λ h. cc, λ e. cc)
same_error_iff (external m) (resilience t) = (λ h. cc, λ e. cc)
