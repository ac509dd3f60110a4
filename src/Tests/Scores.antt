-- ===== src/Tests/Scores.antt =====
-- Runs of ScoreChecklist and AggregateJudgments.
use self_imp_bin_eval.Base.{◌≡◌, ◌↔◌, ◌+◌, ◌*◌, ℕ, refl, List, [], ◌∷◌, length, String-discrete}
use self_imp_bin_eval.Base.Int.{pos}
use self_imp_bin_eval.Base.Keys.{contains, get_or, index_onto, find}
use self_imp_bin_eval.Base.Text.{is_blank}
use self_imp_bin_eval.Errors.{ok}
use self_imp_bin_eval.Evalcore.Types.{RunJudgment, validate_evaluation_runs}
use self_imp_bin_eval.Evalcore.Judgments.{
  validate_judgments, validate_judgment_shape, check_judgment_shape, check_judged_questions,
  check_known_judgments, check_all_judged,
}
use self_imp_bin_eval.Evalcore.Judgments.Laws.{AreJudgments}
use self_imp_bin_eval.Evalcore.Score.{score_checklist, tally_questions}
use self_imp_bin_eval.Evalcore.Score.Laws.{score_of, score_checklist_iff}
use self_imp_bin_eval.Evalcore.Aggregate.{
  aggregate_judgments, group_runs, index_runs, collect_votes, aggregate_question,
}
use self_imp_bin_eval.Evalcore.Aggregate.Counting.{AreRunJudgments, aggregation_of}
use self_imp_bin_eval.Evalcore.Aggregate.Laws.{
  aggregate_judgments_iff, majority_points, minority_ids, aggregate_judgments-score,
}
use self_imp_bin_eval.Tests.Data.{questions, judgments, run_judgments, votes}
use self_imp_bin_eval.Evalcore.Aggregate.Order.{aggregate_judgments-perm}
use mathlib.Core.List.Permᴰ

scored : score_checklist questions judgments ≡ ok (score_of questions judgments)
unfolding score_checklist validate_judgments validate_judgment_shape check_judgment_shape
    check_judged_questions check_known_judgments check_all_judged tally_questions contains get_or
    index_onto find is_blank String-discrete
scored = refl

aggregated :
    aggregate_judgments questions run_judgments (pos 3)
    ≡ ok (aggregation_of run_judgments 3 questions)
unfolding aggregate_judgments validate_evaluation_runs group_runs index_runs collect_votes
    aggregate_question score_checklist validate_judgments validate_judgment_shape
    check_judgment_shape check_judged_questions check_known_judgments check_all_judged
    tally_questions contains get_or index_onto find is_blank String-discrete
aggregated = refl

-- "q1" has two votes of three, "q2" one.
decided : minority_ids run_judgments 3 questions ≡ "q2" ∷ []
unfolding find String-discrete
decided = refl

score_checklist_iff_example :
    (score_checklist questions judgments ≡ ok (score_of questions judgments)) ↔ (
      AreJudgments questions judgments
      × (score_of questions judgments ≡ score_of questions judgments))
score_checklist_iff_example = score_checklist_iff questions judgments (score_of questions judgments)

aggregate_judgments_iff_example :
    let r = aggregation_of run_judgments 3 questions in
    (aggregate_judgments questions run_judgments (pos 3) ≡ ok r) ↔ (
      (k : ℕ) × (pos 3 ≡ pos (2 * k + 1))
      × AreRunJudgments questions run_judgments (2 * k + 1)
      × (r ≡ aggregation_of run_judgments (2 * k + 1) questions))
aggregate_judgments_iff_example =
    aggregate_judgments_iff questions run_judgments (pos 3)
      (aggregation_of run_judgments 3 questions)

aggregate_judgments-score_example :
    let r = aggregation_of run_judgments 3 questions in
    (r.score.satisfied_points ≡ majority_points run_judgments 3 questions)
    × (r.score.failed_question_ids ≡ minority_ids run_judgments 3 questions)
    × (r.score.total_possible_points ≡ length questions)
aggregate_judgments-score_example =
    aggregate_judgments-score questions run_judgments 3 (aggregation_of run_judgments 3 questions)
      aggregated

-- The votes of the run that is listed first, the other way round.
abbrev reordered : List RunJudgment
reordered =
    record { run_index = pos 2; question_id = "q2"; evidence = "e"; answer = "no" }
    ∷ record { run_index = pos 2; question_id = "q1"; evidence = "e"; answer = "yes" }
    ∷ votes (pos 1) "no" "no" (votes (pos 3) "yes" "yes" [])

aggregate_judgments-perm_example :
    aggregate_judgments questions reordered (pos 3) ≡ ok (aggregation_of run_judgments 3 questions)
aggregate_judgments-perm_example =
    aggregate_judgments-perm questions (pos 3) (aggregation_of run_judgments 3 questions)
      run_judgments reordered (Permᴰ.swap refl refl) aggregated
