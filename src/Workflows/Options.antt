-- ===== src/Workflows/Options.antt =====
-- internal/workflows/options.go: how Temporal runs the activities.
use self_imp_bin_eval.Base.{
  ℕ, ◌*◌, ◌≡◌, refl, ◌↔◌, inl, inr, String, Bool, true, false, not, ◌==◌, ==_refl, ==_of_ne, sym,
  ap, ◌∙◌, String-discrete, List, [], ◌∷◌,
}
use self_imp_bin_eval.Base.Int.{ℤ}
use self_imp_bin_eval.Base.Keys.{contains}
use self_imp_bin_eval.Errors.{GoError, Message, Details, application}
use self_imp_bin_eval.Failure.{
  class_model_output_invalid, class_infra_retryable, class_infra_non_retryable,
}
use self_imp_bin_eval.Failure.Laws.{IsClass}
use self_imp_bin_eval.Activities.{to_temporal_error}
use self_imp_bin_eval.Activities.Reports.{failure_details-IsReport}

-- Durations are in seconds.
pub record RetryPolicy : Type 0 where
  pub initial_interval : ℕ
  pub backoff_coefficient : ℕ
  pub maximum_interval : ℕ
  pub maximum_attempts : ℕ
  pub non_retryable_error_types : List String

pub record ActivityOptions : Type 0 where
  pub start_to_close_timeout : ℕ
  pub retry_policy : RetryPolicy

abbrev pub activity_options : ActivityOptions
activity_options = record {
  start_to_close_timeout = 5 * 60;
  retry_policy = record {
    initial_interval = 1;
    backoff_coefficient = 2;
    maximum_interval = 10;
    maximum_attempts = 3;
    non_retryable_error_types = class_model_output_invalid ∷ class_infra_non_retryable ∷ [];
  };
}

-- Temporal does not retry an error of one of the types that the options list.
abbrev pub is_listed : String → Bool
is_listed type = contains activity_options.retry_policy.non_retryable_error_types type

listed : (class : String) → IsClass class → is_listed class ≡ not (class == class_infra_retryable)
unfolding contains String-discrete
listed class (inl e) = rw e refl
listed class (inr (inl e)) = rw e refl
listed class (inr (inr e)) = rw e refl

flag :
    (retryable : Bool) (class : String)
    → ((retryable ≡ true) ↔ (class ≡ class_infra_retryable))
    → (class == class_infra_retryable) ≡ retryable
flag true class h = rw (h.0 refl) (==_refl class_infra_retryable)
flag false class h = ==_of_ne class class_infra_retryable (λ e. cc (h.1 e))

-- The two ways to tell Temporal not to retry agree: an error that an activity returns is marked as not
-- retryable exactly if its type is one that the options list.
pub to_temporal_error-is_listed :
    (attempt : ℤ) (references : List String) (e : GoError)
    → (message : Message) × (type : String) × (d : Details) × (to_temporal_error attempt references
          e
        ≡ application message type (is_listed type) d)
to_temporal_error-is_listed attempt references e =
    let (d, r, same) = (failure_details-IsReport e attempt references).1 in
    let l = listed d.error_class r.class in
    let f = flag d.retryable d.error_class r.retryable in
    (
      d.message,
      d.error_class,
      d,
      same ∙ ap (λ b. application d.message d.error_class b d) (ap not (sym f) ∙ sym l),
    )
