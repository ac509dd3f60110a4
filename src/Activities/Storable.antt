-- ===== src/Activities/Storable.antt =====
-- That the failure of a workflow can always be stored.
use self_imp_bin_eval.Base.{
  ◌≡◌, refl, String, Bool, true, false, List, [], ◌∷◌, All, arith, Option, none, some,
  if◌then◌else◌,
}
use self_imp_bin_eval.Base.Int.{ℤ, pos, leb_ℤ}
use self_imp_bin_eval.Base.Text.{is_blank}
use self_imp_bin_eval.Errors.{
  GoError, Message, Details, error_chain, is_blank_message, semantic, model_output, infra,
  application, SemanticError,
}
use self_imp_bin_eval.Failure.Laws.{IsClass, IsReference}
use self_imp_bin_eval.Activities.{
  as_model_output, as_semantic, as_infra, as_response_size, classify, failure_details,
  to_temporal_error,
}
use self_imp_bin_eval.Activities.Reports.{classify-IsReport}

-- Details that can be stored once the workflow has added its part.
pub record IsStorable (d : Details) : Type 0 where
  pub class : IsClass d.error_class
  pub error_code : is_blank d.error_code ≡ false
  pub message : is_blank_message d.message ≡ false
  pub references : All IsReference d.artifact_references

-- The error says something.
abbrev pub HasText : GoError → Type 0
HasText (model_output message c) = is_blank_message message ≡ false
HasText (semantic e) = is_blank_message e.message ≡ false
HasText (infra message retryable c) = is_blank_message message ≡ false
HasText (application message class b d) = IsStorable d
HasText _ = Unit

abbrev SomeOf : {A : Type 0} → (A → Type 0) → Option A → Type 0
SomeOf P none = Unit
SomeOf P (some a) = P a

as_model_output-HasText :
    (es : List GoError)
    → All HasText es
    → SomeOf (λ m. is_blank_message m ≡ false) (as_model_output es)
unfolding as_model_output
as_model_output-HasText [] h = tt
as_model_output-HasText (model_output message c ∷ es) h = h.0
as_model_output-HasText (_ ∷ es) h = as_model_output-HasText es h.1

as_semantic-HasText :
    (es : List GoError)
    → All HasText es
    → SomeOf (λ (e : SemanticError). is_blank_message e.message ≡ false) (as_semantic es)
unfolding as_semantic
as_semantic-HasText [] h = tt
as_semantic-HasText (semantic e ∷ es) h = h.0
as_semantic-HasText (_ ∷ es) h = as_semantic-HasText es h.1

as_infra-HasText :
    (es : List GoError)
    → All HasText es
    → SomeOf (λ (i : Message × Bool). is_blank_message i.0 ≡ false) (as_infra es)
unfolding as_infra
as_infra-HasText [] h = tt
as_infra-HasText (infra message retryable c ∷ es) h = h.0
as_infra-HasText (_ ∷ es) h = as_infra-HasText es h.1

classify-message :
    (m : Option Message) (s : Option SemanticError) (i : Option (Message × Bool))
    (r : Option (ℤ × ℤ)) (n : ℤ)
    → SomeOf (λ m. is_blank_message m ≡ false) m
    → SomeOf (λ (e : SemanticError). is_blank_message e.message ≡ false) s
    → SomeOf (λ (i : Message × Bool). is_blank_message i.0 ≡ false) i
    → is_blank_message (classify m s i r n).message ≡ false
unfolding is_blank
classify-message (some message) s i r n hm hs hi = hm
classify-message none (some e) i r n hm hs hi = hs
classify-message none none (some (message, true)) r n hm hs hi = hi
classify-message none none (some (message, false)) r n hm hs hi = hi
classify-message none none none (some (l, o)) n hm hs hi = refl
classify-message none none none none n hm hs hi = refl

classify-references :
    (m : Option Message) (s : Option SemanticError) (i : Option (Message × Bool))
    (r : Option (ℤ × ℤ)) (n : ℤ)
    → (classify m s i r n).artifact_references ≡ []
classify-references (some message) s i r n = refl
classify-references none (some e) i r n = refl
classify-references none none (some (message, true)) r n = refl
classify-references none none (some (message, false)) r n = refl
classify-references none none none (some (l, o)) n = refl
classify-references none none none none n = refl

failure_details-IsStorable :
    (e : GoError) (n : ℤ) → All HasText (error_chain e) → IsStorable (failure_details e n)
unfolding failure_details
failure_details-IsStorable e n h =
    let chain = error_chain e in
    let m = as_model_output chain in
    let s = as_semantic chain in
    let i = as_infra chain in
    let r = as_response_size chain in
    let attempts = if leb_ℤ n (pos 0) then pos 1 else n in
    let report = classify-IsReport m s i r attempts (ground arith) in
    record {
      class = report.class;
      error_code = report.error_code;
      message =
          classify-message m s i r attempts (as_model_output-HasText chain h)
            (as_semantic-HasText chain h) (as_infra-HasText chain h);
      references = rw (classify-references m s i r attempts) tt;
    }

-- An activity's report of an error that says something says something too, with artifact references
-- that are valid.
pub to_temporal_error-HasText :
    (e : GoError) (n : ℤ) (references : List String)
    → All HasText (error_chain e)
    → All IsReference references
    → All HasText (error_chain (to_temporal_error n references e))
unfolding to_temporal_error error_chain
to_temporal_error-HasText e n references h k =
    let d = failure_details-IsStorable e n h in
    (record { class = d.class; error_code = d.error_code; message = d.message; references = k }, tt)
