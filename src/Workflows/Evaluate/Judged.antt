-- ===== src/Workflows/Evaluate/Judged.antt =====
-- That the judgments of the runs, once they have come back valid, can be aggregated.
use self_imp_bin_eval.Base.{
  ℕ, zero, suc, ◌+◌, ◌*◌, ◌≤◌, ◌<◌, ◌≡◌, inl, inr, refl, sym, ap, subst, ◌∙◌, String, List, [], ◌∷◌,
  ◌++◌, append-nil, map, All, All-imp, All-append, arith,
}
use self_imp_bin_eval.Base.Int.{ℤ, pos}
use self_imp_bin_eval.Errors.{Result, ok, >>=-eq-ok, ok_injective}
use self_imp_bin_eval.Evalcore.Types.{FinalQuestion, Judgment, RunJudgment}
use self_imp_bin_eval.Evalcore.Judgments.Laws.{AreJudgments, validate_judgments_iff}
use self_imp_bin_eval.Evalcore.Aggregate.{aggregate_judgments}
use self_imp_bin_eval.Evalcore.Aggregate.Runs.{run_of, first_or_later}
use self_imp_bin_eval.Evalcore.Aggregate.Counting.{aggregation_of}
use self_imp_bin_eval.Evalcore.Aggregate.Laws.{aggregate_judgments_iff}
use self_imp_bin_eval.Llm.{Bytes}
use self_imp_bin_eval.Activities.Inputs.{JudgeAnswerInput, LoadChecklistResult}
use self_imp_bin_eval.Activities.Llm.{Reply, judge_answer}
use self_imp_bin_eval.Activities.Llm.Laws.{judge_answer-ok}
use self_imp_bin_eval.Workflows.Evaluate.{
  EvaluateAnswerInput, EvaluationResults, in_run, judge_input, judge_inputs, gather_judgments,
}

run_of-append :
    (i : ℤ) (js ks : List RunJudgment) → run_of i (js ++ ks) ≡ run_of i js ++ run_of i ks
run_of-append i [] ks = refl
run_of-append i (j ∷ js) ks = ground (arith, run_of-append i js ks)

run_of-own : (r : ℕ) (js : List Judgment) → run_of (pos r) (map (in_run (pos r)) js) ≡ js
run_of-own r [] = refl
run_of-own r (j ∷ js) = ground (arith, run_of-own r js)

run_of-other :
    (i r : ℕ) (js : List Judgment) → (i ≡ r → ⊥) → run_of (pos i) (map (in_run (pos r)) js) ≡ []
run_of-other i r [] h = refl
run_of-other i r (j ∷ js) h = ground (arith, run_of-other i r js h)

-- Temporal reports judgments as the result of the activity only if some attempt of it returned them.
abbrev pub JudgmentsAreAttempted : EvaluationResults → Type 0
JudgmentsAreAttempted results =
    (i : JudgeAnswerInput) (js : List Judgment)
    → results.judged i ≡ ok js
    → (write : (key : String) (body : Bytes) → Result (Unit {0})) × (attempt : ℤ) × (reply : Reply
        (List Judgment))
      × (judge_answer write attempt i reply ≡ ok js)

module _ (results : EvaluationResults) (input : EvaluateAnswerInput)
    (attempted : JudgmentsAreAttempted results) (loaded : LoadChecklistResult) where
  abbrev qs : List FinalQuestion
  qs = loaded.checklist.questions

  abbrev gathered : (run_index remaining : ℕ) → Result (List RunJudgment)
  gathered r n = gather_judgments results input (judge_inputs results input loaded r n)

  abbrev IsBetween : (low remaining : ℕ) → RunJudgment → Type 0
  IsBetween r n j = (i : ℕ) × (j.run_index ≡ pos i) × (r ≤ i) × (i < r + n)

  All-own : (r n : ℕ) (js : List Judgment) → 0 < n → All (IsBetween r n) (map (in_run (pos r)) js)
  All-own r n [] h = tt
  All-own r n (j ∷ js) h = ((r, refl, omega arith, omega arith), All-own r n js h)

  -- The judgments that were gathered belong to the runs, those of each run are valid, and no other
  -- run has any.
  gathered-ok :
      (r n : ℕ) (js : List RunJudgment)
      → gathered r n ≡ ok js
      → All (IsBetween r n) js
        × ((i : ℕ) → r ≤ i → i < r + n → AreJudgments qs (run_of (pos i) js))
        × ((i : ℕ) → i < r → run_of (pos i) js ≡ [])
  unfolding gather_judgments judge_inputs
  gathered-ok r zero js h =
      let e = ok_injective [] js h in
      subst
        (λ ks.
          All (IsBetween r zero) ks
          × ((i : ℕ) → r ≤ i → i < r + zero → AreJudgments qs (run_of (pos i) ks))
          × ((i : ℕ) → i < r → run_of (pos i) ks ≡ []))
        e (tt, λ i a b. absurd (omega arith), λ i a. refl)
  gathered-ok r (suc n) js h =
      let (own, e1, h1) = >>=-eq-ok (results.judged (judge_input results input loaded r)) _ h in
      let (later, e2, same) = >>=-eq-ok (gathered (suc r) n) _ h1 in
      let (between, valid, others) = gathered-ok (suc r) n later e2 in
      let (write, attempt, reply, run) = attempted (judge_input results input loaded r) own e1 in
      let own_valid =
        (validate_judgments_iff qs own).0
          (judge_answer-ok write attempt (judge_input results input loaded r) reply own run) in
      let mine = map (in_run (pos r)) own in
      subst
        (λ ks.
          All (IsBetween r (suc n)) ks
          × ((i : ℕ) → r ≤ i → i < r + suc n → AreJudgments qs (run_of (pos i) ks))
          × ((i : ℕ) → i < r → run_of (pos i) ks ≡ []))
        (ok_injective (mine ++ later) js same)
        (
          All-append (IsBetween r (suc n)) mine later (All-own r (suc n) own (omega arith))
              (All-imp (λ j b. (b.0, b.1, omega (arith, b.2), omega (arith, b.3))) later between),
          λ i a b. elim (first_or_later r i a) [
            | inl first ↦
                subst (λ k. AreJudgments qs (run_of (pos k) (mine ++ later))) first
                  (subst (AreJudgments qs)
                    (sym (
                      run_of-append (pos r) mine later
                      ∙ ap (λ ks. ks ++ run_of (pos r) later) (run_of-own r own)
                      ∙ ap (λ ks. own ++ ks) (others r (omega arith))
                      ∙ append-nil own))
                    own_valid)
            | inr after ↦
                subst (AreJudgments qs)
                  (sym (
                    run_of-append (pos i) mine later
                    ∙ ap (λ ks. ks ++ run_of (pos i) later)
                        (run_of-other i r own (λ e. omega (arith, e)))))
                  (valid i after (omega arith))
          ],
          λ i a.
              run_of-append (pos i) mine later
              ∙ ap (λ ks. ks ++ run_of (pos i) later) (run_of-other i r own (λ e. omega (arith, e)))
              ∙ others i (omega arith),
        )

-- Once the runs that an evaluation asked for have come back, each returned by some attempt of
-- JudgeAnswer, their judgments can be aggregated: for an odd number of runs AggregateJudgments does
-- not fail, and gives each question the answer of more runs.
pub aggregate_judgments-gather_judgments :
    (results : EvaluationResults) (input : EvaluateAnswerInput) (loaded : LoadChecklistResult)
    (k : ℕ) (js : List RunJudgment)
    → JudgmentsAreAttempted results
    → gather_judgments results input (judge_inputs results input loaded 1 (2 * k + 1)) ≡ ok js
    → aggregate_judgments loaded.checklist.questions js (pos (2 * k + 1))
      ≡ ok (aggregation_of js (2 * k + 1) loaded.checklist.questions)
aggregate_judgments-gather_judgments results input loaded k js attempted h =
    let qs = loaded.checklist.questions in
    let (between, valid, _) = gathered-ok results input attempted loaded 1 (2 * k + 1) js h in
    (aggregate_judgments_iff qs js (pos (2 * k + 1)) _).1 (
      k,
      refl,
      record {
        in_range = All-imp (λ j b. rw (b.1) (omega (arith, b.2), omega (arith, b.3))) js between;
        each = valid;
      },
      refl,
    )
