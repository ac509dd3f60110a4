-- ===== src/Store/Evaluations/Laws.antt =====
-- What an evaluation that has succeeded is read back as, and what it answers to a repeated call.
use self_imp_bin_eval.Base.{
  ◌*◌, ◌+◌, ◌≡◌, refl, ◌↔◌, String, Bool, true, false, ◌==◌, eq_of_==, ==_refl, List, none, some,
  arith, String-discrete,
}
use self_imp_bin_eval.Errors.{Message, Result, ok, >>=-eq-ok}
use self_imp_bin_eval.Evalcore.Types.{RunJudgment, AggregationResult, ScoreResult}
use self_imp_bin_eval.Evalcore.Aggregate.{aggregate_judgments}
use self_imp_bin_eval.Evalcore.Aggregate.Laws.{aggregate_judgments_iff}
use self_imp_bin_eval.Evalcore.Aggregate.Order.{aggregate_judgments-perm, perm-AreRunJudgments}
use self_imp_bin_eval.Store.{Checklist, status_running}
use self_imp_bin_eval.Store.Checklists.{Checklists, get_checklist}
use self_imp_bin_eval.Store.Checklists.Repeats.{same_list_iff, succeeded-not_running}
use self_imp_bin_eval.Store.Failing.Laws.{same_list_refl}
use self_imp_bin_eval.Store.Evaluations.{Evaluation, Evaluations, put_evaluation}
use self_imp_bin_eval.Store.Evaluations.Reading.{
  order_judgments, get_evaluation, read_evaluation, score_results_equal,
}
use self_imp_bin_eval.Store.Evaluations.Ending.{
  agrees_evaluation, succeeded_evaluation, compare_succeeded_evaluation, check_score,
  succeed_evaluation,
}
use self_imp_bin_eval.Store.Evaluations.Keyed.{
  DistinctKeys, order_judgments-perm, perm-run_judgments_equal, AreRunJudgments-DistinctKeys,
}

same_text_iff : (a b : String) → ((a == b) ≡ true) ↔ (a ≡ b)
same_text_iff a b = (eq_of_== a b, λ e. rw e (==_refl b))

-- A score that is accepted lists the failed questions of the aggregation.
score_results_equal-failed :
    (a b : ScoreResult)
    → score_results_equal a b ≡ true
    → a.failed_question_ids ≡ b.failed_question_ids
unfolding score_results_equal
score_results_equal-failed a b h =
    (same_list_iff (λ x y. x == y) same_text_iff a.failed_question_ids b.failed_question_ids).0
      (ground arith)

score_results_equal-points :
    (a b : ScoreResult)
    → score_results_equal a b ≡ true
    → (a.satisfied_points ≡ b.satisfied_points)
      × (a.total_possible_points ≡ b.total_possible_points)
unfolding score_results_equal
score_results_equal-points a b h = (ground arith, ground arith)

module _ (before : String → String → Bool) (text : Message → String)
    (commit : Evaluation → Result (Unit {0})) (checklists : Checklists) where
  -- The score is that of the judgments.
  abbrev pub IsScored :
      String → List RunJudgment → ScoreResult → Checklist → AggregationResult → Type 0
  IsScored checklist_id js score checklist aggregated =
      (get_checklist checklists checklist_id ≡ ok checklist)
      × (aggregate_judgments checklist.questions js checklist.evaluation_runs ≡ ok aggregated)
      × (score.failed_question_ids ≡ aggregated.score.failed_question_ids)
      × (score.satisfied_points ≡ aggregated.score.satisfied_points)
      × (score.total_possible_points ≡ aggregated.score.total_possible_points)

  pub check_score-ok :
      (id checklist_id : String) (js : List RunJudgment) (score : ScoreResult)
      → check_score before text commit checklists id checklist_id js score ≡ ok tt
      → (checklist : Checklist) × (aggregated : AggregationResult) × IsScored checklist_id js score
          checklist aggregated
  unfolding check_score
  check_score-ok id checklist_id js score h =
      let (checklist, e, h1) = >>=-eq-ok (get_checklist checklists checklist_id) _ h in
      let (aggregated, f, h2) =
        >>=-eq-ok (aggregate_judgments checklist.questions js checklist.evaluation_runs) _ h1 in
      let same : score_results_equal score aggregated.score ≡ true = ground arith in
      let (points, total) = score_results_equal-points score aggregated.score same in
      (
        checklist,
        aggregated,
        (e, f, score_results_equal-failed score aggregated.score same, points, total),
      )

  -- An evaluation with the judgments and the score, as it is read back.
  abbrev pub scored : Evaluation → List RunJudgment → ScoreResult → AggregationResult → Evaluation
  scored row js score aggregated =
      read_evaluation before none aggregated.judgments score.failed_question_ids
        (succeeded_evaluation row js score)

  get_evaluation-scored :
      (s : Evaluations) (id : String) (js : List RunJudgment) (score : ScoreResult)
      (row : Evaluation) (checklist : Checklist) (aggregated : AggregationResult)
      → s id ≡ some (succeeded_evaluation row js score)
      → IsScored row.checklist_id js score checklist aggregated
      → get_evaluation before checklists s id ≡ ok (scored row js score aggregated)
  unfolding get_evaluation String-discrete
  get_evaluation-scored s id js score row checklist aggregated h (e, f, g, points, total) =
      let read =
        aggregate_judgments-perm checklist.questions checklist.evaluation_runs aggregated js
          (order_judgments before js) (order_judgments-perm before js) f in
      rw h (rw e (rw read (rw g refl)))

  agrees_evaluation-scored :
      (js : List RunJudgment) (score : ScoreResult) (row : Evaluation)
      (aggregated : AggregationResult)
      → DistinctKeys (order_judgments before js)
      → agrees_evaluation (scored row js score aggregated) row.checklist_id js score ≡ true
  agrees_evaluation-scored js score row aggregated d =
      let same = perm-run_judgments_equal (order_judgments-perm before js) d in
      let ids = same_list_refl (λ (x y : String). x == y) ==_refl score.failed_question_ids in
      let mine = ==_refl row.checklist_id in ground arith

  compare_succeeded_evaluation-scored :
      (s : Evaluations) (id : String) (js : List RunJudgment) (score : ScoreResult)
      (row : Evaluation) (checklist : Checklist) (aggregated : AggregationResult)
      → s id ≡ some (succeeded_evaluation row js score)
      → IsScored row.checklist_id js score checklist aggregated
      → compare_succeeded_evaluation before text commit checklists s id row.checklist_id js score
        ≡ ok tt
  unfolding compare_succeeded_evaluation
  compare_succeeded_evaluation-scored s id js score row checklist aggregated h scoring =
      let (k, odd, valid, made) =
        (aggregate_judgments_iff checklist.questions js checklist.evaluation_runs aggregated).0
          scoring.1 in
      let read =
        perm-AreRunJudgments (order_judgments-perm before js) checklist.questions (2 * k + 1)
          valid in
      let distinct =
        AreRunJudgments-DistinctKeys checklist.questions (order_judgments before js) (2 * k + 1)
          read in
      rw (get_evaluation-scored s id js score row checklist aggregated h scoring)
        (rw (agrees_evaluation-scored js score row aggregated distinct) refl)

  -- What a transaction on a running row leaves, and the answer of a call on one that has ended.
  succeed_evaluation-row :
      (s : Evaluations) (id : String) (js : List RunJudgment) (score : ScoreResult)
      (row : Evaluation)
      → s id ≡ some row
      → row.status ≡ status_running
      → (succeed_evaluation before text commit checklists s id row.checklist_id js score).1 ≡ ok tt
      → ((succeed_evaluation before text commit checklists s id row.checklist_id js score).0
          ≡ put_evaluation s id (succeeded_evaluation row js score))
        × (check_score before text commit checklists id row.checklist_id js score ≡ ok tt)
  unfolding succeed_evaluation
  succeed_evaluation-row s id js score row here running h =
      let test : (row.status == status_running) ≡ true = rw running (==_refl status_running) in
      let mine = ==_refl row.checklist_id in (ground arith, ground arith)

  succeed_evaluation-ended :
      (s : Evaluations) (id : String) (js : List RunJudgment) (score : ScoreResult)
      (row : Evaluation)
      → s id ≡ some row
      → (row.status == status_running) ≡ false
      → check_score before text commit checklists id row.checklist_id js score ≡ ok tt
      → succeed_evaluation before text commit checklists s id row.checklist_id js score ≡ (
        s,
        compare_succeeded_evaluation before text commit checklists s id row.checklist_id js score,
      )
  unfolding succeed_evaluation
  succeed_evaluation-ended s id js score row here ended valid =
      rw valid (rw here (rw (==_refl row.checklist_id) (rw ended refl)))

  put_here :
      (s : Evaluations) (id : String) (row : Evaluation) → put_evaluation s id row id ≡ some row
  put_here s id row = rw (==_refl id) refl

  -- A completion of an evaluation that succeeded, sent again with the same judgments and score,
  -- succeeds again and changes nothing.
  pub succeed_evaluation-twice :
      (s : Evaluations) (id : String) (js : List RunJudgment) (score : ScoreResult)
      (row : Evaluation)
      → s id ≡ some row
      → row.status ≡ status_running
      → (succeed_evaluation before text commit checklists s id row.checklist_id js score).1 ≡ ok tt
      → let s1 =
          (succeed_evaluation before text commit checklists s id row.checklist_id js score).0 in
        succeed_evaluation before text commit checklists s1 id row.checklist_id js score
        ≡ (s1, ok tt)
  succeed_evaluation-twice s id js score row here running h =
      let new = succeeded_evaluation row js score in
      let (stored, valid) = succeed_evaluation-row s id js score row here running h in
      let (checklist, aggregated, scoring) = check_score-ok id row.checklist_id js score valid in
      let there = put_here s id new in
      rw stored (
        rw
          (
            succeed_evaluation-ended (put_evaluation s id new) id js score new there
                succeeded-not_running valid,
            compare_succeeded_evaluation-scored (put_evaluation s id new) id js score row checklist
                aggregated there scoring,
          )
          refl)
