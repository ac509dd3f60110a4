-- ===== src/Activities/Reports.antt =====
-- What an error becomes on its way into a stored failure.
use self_imp_bin_eval.Base.{
  ◌≡◌, ◌≢◌, if◌then◌else◌, refl, ◌↔◌, inl, inr, String, Bool, true, false, not, List, [], ◌∷◌,
  arith, Option, none, some,
}
use self_imp_bin_eval.Base.Int.{ℤ, pos, ◌<ℤ◌, leb_ℤ}
use self_imp_bin_eval.Base.Text.{is_blank}
use self_imp_bin_eval.Errors.{
  GoError, Message, Details, ErrorCode, code_text, error_chain, application, wrapped, SemanticError,
  LimitDiagnostic, invalid_question_generation, invalid_dimension_analysis, invalid_weights,
  invalid_splits, invalid_final_checklist, invalid_judgments,
}
use self_imp_bin_eval.Failure.{class_infra_retryable}
use self_imp_bin_eval.Failure.Laws.{IsClass}
use self_imp_bin_eval.Activities.{
  report, as_model_output, as_semantic, as_infra, as_response_size, as_application, classify,
  failure_details, to_temporal_error, with_references,
}

-- What a report says of an error, whichever it is.
pub record IsReport (d : Details) : Type 0 where
  pub class : IsClass d.error_class
  pub retryable : (d.retryable ≡ true) ↔ (d.error_class ≡ class_infra_retryable)
  pub error_code : is_blank d.error_code ≡ false
  pub attempts : pos 0 <ℤ d.attempt_count

code-filled : (c : ErrorCode) → is_blank (code_text c) ≡ false
unfolding is_blank
code-filled invalid_question_generation = refl
code-filled invalid_dimension_analysis = refl
code-filled invalid_weights = refl
code-filled invalid_splits = refl
code-filled invalid_final_checklist = refl
code-filled invalid_judgments = refl

final-IsReport :
    (class code : String) (message : Message) (n : ℤ) (ds : List LimitDiagnostic)
    → IsClass class
    → class ≢ class_infra_retryable
    → is_blank code ≡ false
    → pos 0 <ℤ n
    → IsReport (report class code message false n ds)
final-IsReport class code message n ds c differ b h = record {
  class = c;
  retryable = (λ e. absurd cc, λ e. absurd (differ e));
  error_code = b;
  attempts = h;
}

retryable-IsReport :
    (code : String) (message : Message) (n : ℤ) (ds : List LimitDiagnostic)
    → is_blank code ≡ false
    → pos 0 <ℤ n
    → IsReport (report class_infra_retryable code message true n ds)
retryable-IsReport code message n ds b h = record {
  class = inr (inl refl);
  retryable = (λ e. refl, λ e. refl);
  error_code = b;
  attempts = h;
}

pub classify-IsReport :
    (m : Option Message) (s : Option SemanticError) (i : Option (Message × Bool))
    (r : Option (ℤ × ℤ)) (n : ℤ)
    → pos 0 <ℤ n
    → IsReport (classify m s i r n)
unfolding is_blank
classify-IsReport (some message) s i r n h =
    final-IsReport _ _ message n [] (inl refl) (λ e. cc) refl h
classify-IsReport none (some e) i r n h =
    final-IsReport _ _ e.message n e.diagnostics (inl refl) (λ e. cc) (code-filled e.code) h
classify-IsReport none none (some (message, true)) r n h = retryable-IsReport _ message n [] refl h
classify-IsReport none none (some (message, false)) r n h =
    final-IsReport _ _ message n [] (inr (inr refl)) (λ e. cc) refl h
classify-IsReport none none none (some (l, o)) n h =
    final-IsReport _ _ _ n _ (inr (inr refl)) (λ e. cc) refl h
classify-IsReport none none none none n h = retryable-IsReport _ _ n [] refl h

-- Whatever the error, the details that FailureDetails gives have one of the three classes, a code, a
-- positive number of attempts, and are retryable exactly if their class says so. ToTemporalError
-- keeps this, and tells Temporal not to retry exactly the errors that are not.
pub failure_details-IsReport :
    (e : GoError) (n : ℤ) (references : List String)
    → IsReport (failure_details e n)
      × ((d : Details) × IsReport d
          × (to_temporal_error n references e
              ≡ application d.message d.error_class (not d.retryable) d))
unfolding failure_details to_temporal_error
failure_details-IsReport e n references =
    let chain = error_chain e in
    let r =
      classify-IsReport (as_model_output chain) (as_semantic chain) (as_infra chain)
        (as_response_size chain) (if leb_ℤ n (pos 0) then pos 1 else n) (ground arith) in
    (
      r,
      (
        with_references references (failure_details e n),
        record {
          class = r.class;
          retryable = r.retryable;
          error_code = r.error_code;
          attempts = r.attempts;
        },
        refl,
      ),
    )

-- An error wrapped once for each message.
abbrev pub wrap_all : List Message → GoError → GoError
wrap_all [] e = e
wrap_all (m ∷ ms) e = wrapped m (wrap_all ms e)

pub as_application-wrap_all :
    (ms : List Message) (m : Message) (class : String) (b : Bool) (d : Details)
    → as_application (error_chain (wrap_all ms (application m class b d))) ≡ some d
unfolding error_chain as_application
as_application-wrap_all [] m class b d = refl
as_application-wrap_all (x ∷ ms) m class b d = as_application-wrap_all ms m class b d
