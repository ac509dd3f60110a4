-- ===== src/Evalcore/Score/Laws.antt =====
-- What ScoreChecklist returns.
use self_imp_bin_eval.Base.{
  ℕ, suc, ◌+◌, ◌<◌, ◌≤◌, ◌≡◌, refl, sym, ap, subst, ◌↔◌, ◌∙◌, String, Bool, not, List, [], ◌∷◌,
  ◌++◌, length, if◌then◌else◌, ◌==◌, arith, Bool-cases, inl, inr, append_assoc, append-nil,
  eq_of_==, ◌&&◌,
}
use self_imp_bin_eval.Base.Keys.{contains, Distinct, find, found_or, get_or-index}
use self_imp_bin_eval.Errors.{ok, >>=-eq-ok}
use self_imp_bin_eval.Evalcore.Types.{FinalQuestion, Judgment, ScoreResult, answer_yes}
use self_imp_bin_eval.Evalcore.FinalQuestions.{question_ids}
use self_imp_bin_eval.Evalcore.Judgments.{judgment_ids, validate_judgments}
use self_imp_bin_eval.Evalcore.Judgments.Laws.{AreJudgments, validate_judgments_iff}
use self_imp_bin_eval.Evalcore.Score.{judgment_by_id, no_judgment, tally_questions, score_checklist}

-- The judgment of a question is a yes.
abbrev pub is_satisfied : List Judgment → String → Bool
is_satisfied js id =
    (found_or (λ (j : Judgment). j.question_id) no_judgment
      (find (λ j. j.question_id) id js)).answer
    == answer_yes

-- How many of the questions have a yes, and the identifiers of those that do not.
abbrev pub satisfied : List Judgment → List FinalQuestion → ℕ
satisfied js [] = 0
satisfied js (q ∷ qs) = (if is_satisfied js q.id then 1 else 0) + satisfied js qs

abbrev pub failed : List Judgment → List FinalQuestion → List String
failed js [] = []
failed js (q ∷ qs) = if is_satisfied js q.id then failed js qs else q.id ∷ failed js qs

abbrev pub score_of : List FinalQuestion → List Judgment → ScoreResult
score_of qs js = record {
  satisfied_points = satisfied js qs;
  total_possible_points = length qs;
  checklist_pass_rate = record { numerator = satisfied js qs; denominator = length qs };
  failed_question_ids = failed js qs;
}

tally_questions-eq :
    (js : List Judgment) (n : ℕ) (ids : List String) (qs : List FinalQuestion)
    → Distinct (judgment_ids js)
    → tally_questions
        (judgment_by_id js)
        (record { satisfied_points = n; failed_question_ids = ids })
        qs
      ≡ record { satisfied_points = n + satisfied js qs; failed_question_ids = ids ++ failed js qs }
unfolding tally_questions
tally_questions-eq js n ids [] d = let e : n + 0 ≡ n = omega arith in rw (append-nil ids, e) refl
tally_questions-eq js n ids (q ∷ qs) d =
    let found = get_or-index (λ (j : Judgment). j.question_id) no_judgment q.id js d in
    elim (Bool-cases (is_satisfied js q.id)) [
      | inl met ↦
          let one_more : n + (1 + satisfied js qs) ≡ suc n + satisfied js qs = omega arith in
          rw (found, met, one_more) (tally_questions-eq js (suc n) ids qs d)
      | inr unmet ↦
          let none_more : 0 + satisfied js qs ≡ satisfied js qs = omega arith in
          rw (found, unmet, none_more)
            (tally_questions-eq js n (ids ++ q.id ∷ []) qs d
              ∙ ap
                  (λ is. record {
                    satisfied_points = n + satisfied js qs;
                    failed_question_ids = is;
                  })
                  (append_assoc ids (q.id ∷ []) (failed js qs)))
    ]

-- ScoreChecklist succeeds exactly on judgments that ValidateJudgments accepts. It counts the
-- questions whose judgment is a yes, and lists the identifiers of the others in their order.
pub score_checklist_iff :
    (qs : List FinalQuestion) (js : List Judgment) (r : ScoreResult)
    → (score_checklist qs js ≡ ok r) ↔ (AreJudgments qs js × (r ≡ score_of qs js))
unfolding score_checklist
score_checklist_iff qs js r =
    let zero_left : 0 + satisfied js qs ≡ satisfied js qs = omega arith in
    let tally = tally_questions-eq js 0 [] qs in
    let valid = validate_judgments_iff qs js in
    (
      λ h.
          let (_, e, same) = >>=-eq-ok (validate_judgments qs js) _ h in
          let v = valid.0 e in (v, cc (rw (tally v.shaped.distinct) at same, zero_left)),
      λ h. rw (valid.1 h.0, tally h.0.shaped.distinct, zero_left) (ap ok (sym h.1)),
    )

satisfied-failed :
    (js : List Judgment) (qs : List FinalQuestion)
    → satisfied js qs + length (failed js qs) ≡ length qs
satisfied-failed js [] = refl
satisfied-failed js (q ∷ qs) = ground (arith, satisfied-failed js qs)

contains-failed :
    (js : List Judgment) (qs : List FinalQuestion) (id : String)
    → contains (failed js qs) id ≡ (contains (question_ids qs) id && not (is_satisfied js id))
unfolding contains
contains-failed js [] id = refl
contains-failed js (q ∷ qs) id = ground (arith, contains-failed js qs id, eq_of_== q.id id)

failed-Distinct :
    (js : List Judgment) (qs : List FinalQuestion)
    → Distinct (question_ids qs)
    → Distinct (failed js qs)
failed-Distinct js [] d = tt
failed-Distinct js (q ∷ qs) d =
    ground (arith, failed-Distinct js qs d.1, contains-failed js qs q.id)

-- The score of valid judgments has at most as many points as there are questions, of which there
-- are some, so the rate is between 0 and 1 and does not divide by 0. The identifiers of failed
-- questions are different, are those of the questions without a yes, and make up the other points.
pub score_checklist-bounds :
    (qs : List FinalQuestion) (js : List Judgment) (r : ScoreResult)
    → score_checklist qs js ≡ ok r
    → (r.satisfied_points + length r.failed_question_ids ≡ r.total_possible_points)
      × (r.total_possible_points ≡ length qs)
      × (r.checklist_pass_rate.numerator ≤ r.checklist_pass_rate.denominator)
      × (0 < r.checklist_pass_rate.denominator)
      × Distinct r.failed_question_ids
      × ((id : String)
          → contains r.failed_question_ids id
            ≡ (contains (question_ids qs) id && not (is_satisfied js id)))
score_checklist-bounds qs js r h =
    let (valid, same) = (score_checklist_iff qs js r).0 h in
    let sum = satisfied-failed js qs in
    subst
      (λ (s : ScoreResult).
        (s.satisfied_points + length s.failed_question_ids ≡ s.total_possible_points)
        × (s.total_possible_points ≡ length qs)
        × (s.checklist_pass_rate.numerator ≤ s.checklist_pass_rate.denominator)
        × (0 < s.checklist_pass_rate.denominator)
        × Distinct s.failed_question_ids
        × ((id : String)
            → contains s.failed_question_ids id
              ≡ (contains (question_ids qs) id && not (is_satisfied js id))))
      (sym same)
      (
        sum,
        refl,
        omega (arith, sum),
        valid.some_asked,
        failed-Distinct js qs valid.distinct,
        contains-failed js qs,
      )
