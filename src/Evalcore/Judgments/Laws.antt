-- ===== src/Evalcore/Judgments/Laws.antt =====
-- What the validators of judgments accept.
use self_imp_bin_eval.Base.{
  ◌<◌, ◌≡◌, refl, ◌↔◌, ◌⊎◌, String, true, false, List, [], ◌∷◌, length, arith, All, length-map,
}
use self_imp_bin_eval.Base.Keys.{contains, Distinct, AllNew, Distinct-of_AllNew, AllNew-of_Distinct}
use self_imp_bin_eval.Base.Text.{is_blank}
use self_imp_bin_eval.Errors.{ok}
use self_imp_bin_eval.Evalcore.Types.{FinalQuestion, Judgment, answer_yes, answer_no}
use self_imp_bin_eval.Evalcore.FinalQuestions.{question_ids}
use self_imp_bin_eval.Evalcore.Judgments.{
  judgment_ids, check_judgment_shape, validate_judgment_shape, check_judged_questions,
  check_known_judgments, check_all_judged, validate_judgments,
}

pub record IsShaped (j : Judgment) : Type 0 where
  pub id : is_blank j.question_id ≡ false
  pub evidence : is_blank j.evidence ≡ false
  pub answer : (j.answer ≡ answer_yes) ⊎ (j.answer ≡ answer_no)

pub record AreShaped (js : List Judgment) : Type 0 where
  pub some_given : 0 < length js
  pub each : All IsShaped js
  pub distinct : Distinct (judgment_ids js)

-- The judgments name each question once, and nothing else.
pub record AreJudgments (qs : List FinalQuestion) (js : List Judgment) : Type 0 where
  pub shaped : AreShaped js
  pub named : All (λ q. is_blank q.id ≡ false) qs
  pub some_asked : 0 < length qs
  pub distinct : Distinct (question_ids qs)
  pub known : All (λ j. contains (question_ids qs) j.question_id ≡ true) js
  pub covered : All (λ q. contains (judgment_ids js) q.id ≡ true) qs

check_judgment_shape-ok :
    (seen : List String) (js : List Judgment)
    → check_judgment_shape seen js ≡ ok tt
    → All IsShaped js × AllNew seen (judgment_ids js)
unfolding check_judgment_shape
check_judgment_shape-ok seen [] h = (tt, tt)
check_judgment_shape-ok seen (j ∷ js) h =
    let ih = check_judgment_shape-ok (j.question_id ∷ seen) js (ground arith) in
    ((ground arith, ih.0), (ground arith, ih.1))

ok-check_judgment_shape :
    (seen : List String) (js : List Judgment)
    → All IsShaped js
    → AllNew seen (judgment_ids js)
    → check_judgment_shape seen js ≡ ok tt
unfolding check_judgment_shape
ok-check_judgment_shape seen [] h k = refl
ok-check_judgment_shape seen (j ∷ js) h k =
    ground (arith, ok-check_judgment_shape (j.question_id ∷ seen) js h.1 k.1)

-- ValidateJudgmentShape accepts exactly the lists of judgments that are not empty, have evidence
-- and an answer of yes or no, and name each question once.
pub validate_judgment_shape_iff :
    (js : List Judgment) → (validate_judgment_shape js ≡ ok tt) ↔ AreShaped js
unfolding validate_judgment_shape
validate_judgment_shape_iff js = (
  λ h.
      let (each, new) = check_judgment_shape-ok [] js (ground arith) in
      record {
        some_given = ground arith;
        each = each;
        distinct = Distinct-of_AllNew [] (judgment_ids js) new;
      },
  λ h.
      let new = AllNew-of_Distinct (judgment_ids js) h.distinct in
      let some_given = h.some_given in ground (arith, ok-check_judgment_shape [] js h.each new),
)

check_judged_questions-ok :
    (seen : List String) (qs : List FinalQuestion)
    → check_judged_questions seen qs ≡ ok tt
    → All (λ q. is_blank q.id ≡ false) qs × AllNew seen (question_ids qs)
unfolding check_judged_questions
check_judged_questions-ok seen [] h = (tt, tt)
check_judged_questions-ok seen (q ∷ qs) h =
    let ih = check_judged_questions-ok (q.id ∷ seen) qs (ground arith) in
    ((ground arith, ih.0), (ground arith, ih.1))

ok-check_judged_questions :
    (seen : List String) (qs : List FinalQuestion)
    → All (λ q. is_blank q.id ≡ false) qs
    → AllNew seen (question_ids qs)
    → check_judged_questions seen qs ≡ ok tt
unfolding check_judged_questions
ok-check_judged_questions seen [] h k = refl
ok-check_judged_questions seen (q ∷ qs) h k =
    ground (arith, ok-check_judged_questions (q.id ∷ seen) qs h.1 k.1)

check_known_judgments-ok :
    (known : List String) (js : List Judgment)
    → check_known_judgments known js ≡ ok tt
    → All (λ j. contains known j.question_id ≡ true) js
unfolding check_known_judgments
check_known_judgments-ok known [] h = tt
check_known_judgments-ok known (j ∷ js) h =
    (ground arith, check_known_judgments-ok known js (ground arith))

ok-check_known_judgments :
    (known : List String) (js : List Judgment)
    → All (λ j. contains known j.question_id ≡ true) js
    → check_known_judgments known js ≡ ok tt
unfolding check_known_judgments
ok-check_known_judgments known [] h = refl
ok-check_known_judgments known (j ∷ js) h = ground (arith, ok-check_known_judgments known js h.1)

check_all_judged-ok :
    (judged : List String) (qs : List FinalQuestion)
    → check_all_judged judged qs ≡ ok tt
    → All (λ q. contains judged q.id ≡ true) qs
unfolding check_all_judged
check_all_judged-ok judged [] h = tt
check_all_judged-ok judged (q ∷ qs) h = (ground arith, check_all_judged-ok judged qs (ground arith))

ok-check_all_judged :
    (judged : List String) (qs : List FinalQuestion)
    → All (λ q. contains judged q.id ≡ true) qs
    → check_all_judged judged qs ≡ ok tt
unfolding check_all_judged
ok-check_all_judged judged [] h = refl
ok-check_all_judged judged (q ∷ qs) h = ground (arith, ok-check_all_judged judged qs h.1)

-- ValidateJudgments accepts exactly the shaped judgments that name each of the questions, which
-- have distinct identifiers that are not blank, once and nothing else.
pub validate_judgments_iff :
    (qs : List FinalQuestion) (js : List Judgment)
    → (validate_judgments qs js ≡ ok tt) ↔ AreJudgments qs js
unfolding validate_judgments
validate_judgments_iff qs js = (
  λ h.
      let (named, new) = check_judged_questions-ok [] qs (ground arith) in
      record {
        shaped = (validate_judgment_shape_iff js).0 (ground arith);
        named = named;
        some_asked = ground (arith, length-map (λ (q : FinalQuestion). q.id) qs);
        distinct = Distinct-of_AllNew [] (question_ids qs) new;
        known = check_known_judgments-ok (question_ids qs) js (ground arith);
        covered = check_all_judged-ok (judgment_ids js) qs (ground arith);
      },
  λ h.
      let new = AllNew-of_Distinct (question_ids qs) h.distinct in
      let some_asked = h.some_asked in
      ground (
        arith,
        (validate_judgment_shape_iff js).1 h.shaped,
        ok-check_judged_questions [] qs h.named new,
        length-map (λ (q : FinalQuestion). q.id) qs,
        ok-check_known_judgments (question_ids qs) js h.known,
        ok-check_all_judged (judgment_ids js) qs h.covered,
      ),
)
