-- ===== src/ConcurrencyLimit/Policy.antt =====
-- concurrencylimit/policy.go: how an error counts for the limiter.
use goresilience.Prelude.{
  ◌↔◌, ◌≡◌, refl, ap, inl, inr, false, Option, none, some, if◌then◌else◌, Bool-cases,
}
use goresilience.Errors.{Error, err_rejected_execution, same_error, same_error_iff}
use goresilience.ConcurrencyLimit.Limit.{Result, success, failure, ignore}

unfoldable pub failure_on_external_error_policy : Option Error → Result
failure_on_external_error_policy none = success
failure_on_external_error_policy (some e) =
    if same_error e err_rejected_execution then ignore else failure

unfoldable pub no_failure_policy : Option Error → Result
no_failure_policy none = success
no_failure_policy (some e) = ignore

unfoldable pub failure_on_rejected_policy : Option Error → Result
failure_on_rejected_policy none = success
failure_on_rejected_policy (some e) =
    if same_error e err_rejected_execution then failure else ignore

abbrev pub opposite : Result → Result
opposite success = success
opposite failure = ignore
opposite ignore = failure

-- On every outcome one failure policy counts what the other ignores, a success counts as one for
-- both, and the policy for rejections counts a failure exactly for a rejected execution.
pub policies_opposite :
    (err : Option Error)
    → (failure_on_external_error_policy err ≡ opposite (failure_on_rejected_policy err))
      × ((failure_on_rejected_policy err ≡ failure) ↔ (err ≡ some err_rejected_execution))
unfolding failure_on_external_error_policy failure_on_rejected_policy
policies_opposite none = (refl, (λ e. cc, λ e. cc))
policies_opposite (some e) = elim (Bool-cases (same_error e err_rejected_execution)) [
  | inl h ↦ rw h (refl, (λ _. ap some ((same_error_iff _ _).0 h), λ _. refl))
  | inr h ↦ rw h (refl, (λ x. cc, λ x. absurd (differs h x)))
]
  where
    differs : same_error e err_rejected_execution ≡ false → some e ≡ some err_rejected_execution → ⊥
    differs h x =
        let same : e ≡ err_rejected_execution = cc in
        let told = (same_error_iff e err_rejected_execution).1 same in cc
