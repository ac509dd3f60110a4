-- ===== src/Evalcore/Aggregate.antt =====
-- internal/evalcore/score.go: AggregateJudgments.
pub mod Runs
pub mod Counting
pub mod Derived
pub mod Laws
pub mod Order
use self_imp_bin_eval.Base.{
  ℕ, zero, suc, ◌/◌, String, Bool, true, false, ◌||◌, List, [], ◌∷◌, ◌++◌, map, if◌then◌else◌, ◌==◌,
  ltb, eq_ℕ,
}
use self_imp_bin_eval.Base.Int.{ℤ, pos, pos_part, ltb_ℤ, eq_ℤ}
use self_imp_bin_eval.Errors.{
  Result, ok, err, fail_if, ◌>>=◌, ◌>>◌, wrap_error, semantic_error, invalid_judgments, lit, int,
}
use self_imp_bin_eval.Evalcore.Types.{
  FinalQuestion, Judgment, RunJudgment, JudgmentRun, AggregatedJudgment, AggregationResult,
  answer_yes, answer_no, validate_evaluation_runs,
}
use self_imp_bin_eval.Evalcore.Judgments.{validate_judgments}
use self_imp_bin_eval.Evalcore.Score.{JudgmentMap, judgment_by_id, judgment_of, score_checklist}

-- `map[int][]Judgment`, a missing key holding no judgments.
abbrev pub ByRun : Type 0
ByRun = ℤ → List Judgment

abbrev pub judgment_in : RunJudgment → Judgment
judgment_in j = record { question_id = j.question_id; evidence = j.evidence; answer = j.answer }

abbrev pub add_to_run : ByRun → RunJudgment → ByRun
add_to_run by_run j i = if eq_ℤ j.run_index i then by_run i ++ judgment_in j ∷ [] else by_run i

-- The loop that fills `byRun`.
unfoldable pub group_runs : ℤ → ByRun → List RunJudgment → Result ByRun
group_runs runs by_run [] = ok by_run
group_runs runs by_run (j ∷ js) = do
  fail_if (ltb_ℤ j.run_index (pos 1) || ltb_ℤ runs j.run_index) (
      semantic_error invalid_judgments
        (lit "run_index " ∷ int j.run_index ∷ lit " is outside 1.." ∷ int runs ∷ []))
  group_runs runs (add_to_run by_run j) js

-- `map[int]map[string]Judgment`
abbrev pub ByRunAndQuestion : Type 0
ByRunAndQuestion = ℕ → JudgmentMap

-- The loop over the runs that fills `judgmentByRunAndQuestion`, from a run on, for as many runs.
unfoldable pub index_runs :
    List FinalQuestion
    → ByRun
    → ByRunAndQuestion
    → (run_index remaining : ℕ) → Result ByRunAndQuestion
index_runs questions by_run indexed run_index zero = ok indexed
index_runs questions by_run indexed run_index (suc remaining) = do
  let judgments = by_run (pos run_index)
  wrap_error (lit "validate evaluation run " ∷ int (pos run_index) ∷ lit ": " ∷ [])
      (validate_judgments questions judgments)
  index_runs questions by_run
      (λ i. if eq_ℕ run_index i then judgment_by_id judgments else indexed i) (suc run_index)
      remaining

-- What the loop over the runs of one question fills.
pub record Votes : Type 0 where
  pub runs : List JudgmentRun
  pub yes_count : ℕ

abbrev pub add_vote : ℕ → Judgment → Votes → Votes
add_vote run_index judgment rest = record {
  runs =
      record { run_index = pos run_index; evidence = judgment.evidence; answer = judgment.answer }
      ∷ rest.runs;
  yes_count = if judgment.answer == answer_yes then suc rest.yes_count else rest.yes_count;
}

unfoldable pub collect_votes : ByRunAndQuestion → String → (run_index remaining : ℕ) → Votes
collect_votes indexed id run_index zero = record { runs = []; yes_count = 0 }
collect_votes indexed id run_index (suc remaining) =
    add_vote run_index (judgment_of (indexed run_index) id)
      (collect_votes indexed id (suc run_index) remaining)

unfoldable pub aggregate_question : ByRunAndQuestion → ℕ → FinalQuestion → AggregatedJudgment
aggregate_question indexed runs question =
    let votes = collect_votes indexed question.id 1 runs in
    record {
      question_id = question.id;
      runs = votes.runs;
      answer = if ltb (runs / 2) votes.yes_count then answer_yes else answer_no;
    }

abbrev pub derived_judgment : AggregatedJudgment → Judgment
derived_judgment a = record {
  question_id = a.question_id;
  evidence = "derived from repeated judgments";
  answer = a.answer;
}

unfoldable pub aggregate_judgments :
    List FinalQuestion → List RunJudgment → ℤ → Result AggregationResult
aggregate_judgments questions run_judgments evaluation_runs = do
  validate_evaluation_runs evaluation_runs evaluation_runs
  by_run ← group_runs evaluation_runs (λ i. []) run_judgments
  indexed ← index_runs questions by_run (λ i. []) 1 (pos_part evaluation_runs)
  let judgments = map (aggregate_question indexed (pos_part evaluation_runs)) questions
  score ← score_checklist questions (map derived_judgment judgments)
  ok (record { judgments = judgments; score = score })
