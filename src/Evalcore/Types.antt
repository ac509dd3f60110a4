-- ===== src/Evalcore/Types.antt =====
-- internal/evalcore/types.go: the records, the limits and the check of the number of runs.
pub mod Limits
use self_imp_bin_eval.Base.{
  ℕ, suc, ◌+◌, ◌*◌, ◌≡◌, refl, ◌↔◌, String, Bool, true, false, ◌||◌, List, [], ◌∷◌, arith,
  if◌then◌else◌,
}
use self_imp_bin_eval.Base.Int.{ℤ, pos, negsuc, ltb_ℤ, leb_ℤ, is_even, ◌≤ℤ◌, ◌<ℤ◌}
use self_imp_bin_eval.Errors.{Result, ok, err, fail_if, opaque, lit, int}

abbrev pub answer_yes : String
answer_yes = "yes"

abbrev pub answer_no : String
answer_no = "no"

abbrev pub default_max_dimensions : ℤ
default_max_dimensions = pos 6

abbrev pub default_max_candidates_per_dimension : ℤ
default_max_candidates_per_dimension = pos 8

abbrev pub default_max_split_count : ℤ
default_max_split_count = pos 4

abbrev pub default_max_final_questions : ℤ
default_max_final_questions = pos 64

abbrev pub default_evaluation_runs : ℤ
default_evaluation_runs = pos 3

abbrev pub default_max_evaluation_runs : ℤ
default_max_evaluation_runs = pos 5

pub record ChecklistLimits : Type 0 where
  pub max_dimensions : ℤ
  pub max_candidates_per_dimension : ℤ
  pub max_split_count : ℤ
  pub max_final_questions : ℤ

unfoldable pub default_checklist_limits : ChecklistLimits
default_checklist_limits = record {
  max_dimensions = default_max_dimensions;
  max_candidates_per_dimension = default_max_candidates_per_dimension;
  max_split_count = default_max_split_count;
  max_final_questions = default_max_final_questions;
}

abbrev or_default : ℤ → ℤ → ℤ
or_default value fallback = if leb_ℤ value (pos 0) then fallback else value

unfoldable pub with_defaults : ChecklistLimits → ChecklistLimits
unfolding default_checklist_limits
with_defaults l =
    let defaults = default_checklist_limits in
    record {
      max_dimensions = or_default l.max_dimensions defaults.max_dimensions;
      max_candidates_per_dimension =
          or_default l.max_candidates_per_dimension defaults.max_candidates_per_dimension;
      max_split_count = or_default l.max_split_count defaults.max_split_count;
      max_final_questions = or_default l.max_final_questions defaults.max_final_questions;
    }

-- `ChecklistLimits.Validate`
unfoldable pub validate_limits : ChecklistLimits → Result (Unit {0})
unfolding with_defaults
validate_limits l =
    fail_if (ltb_ℤ default_max_split_count (with_defaults l).max_split_count)
      (opaque (lit "max_split_count cannot exceed " ∷ int default_max_split_count ∷ []))

pub record DraftDimension : Type 0 where
  pub name : String
  pub rubric : String
  pub rationale : String

pub record Dimension : Type 0 where
  pub id : String
  pub ordinal : ℤ
  pub name : String
  pub rubric : String
  pub rationale : String

pub record DraftQuestion : Type 0 where
  pub rationale : String
  pub question : String

pub record CandidateQuestion : Type 0 where
  pub id : String
  pub dimension_id : String
  pub ordinal : ℤ
  pub rationale : String
  pub question : String

pub record Weight : Type 0 where
  pub candidate_question_id : String
  pub rationale : String
  pub weight : ℤ

pub record SplitQuestions : Type 0 where
  pub candidate_question_id : String
  pub questions : List DraftQuestion

pub record FinalQuestion : Type 0 where
  pub id : String
  pub ordinal : ℤ
  pub dimension_id : String
  pub source_candidate_id : String
  pub rationale : String
  pub question : String

pub record Judgment : Type 0 where
  pub question_id : String
  pub evidence : String
  pub answer : String

pub record RunJudgment : Type 0 where
  pub run_index : ℤ
  pub question_id : String
  pub evidence : String
  pub answer : String

pub record JudgmentRun : Type 0 where
  pub run_index : ℤ
  pub evidence : String
  pub answer : String

pub record AggregatedJudgment : Type 0 where
  pub question_id : String
  pub runs : List JudgmentRun
  pub answer : String

-- `float64(a) / float64(b)`, kept as the two integers that it divides.
pub record Rate : Type 0 where
  pub numerator : ℕ
  pub denominator : ℕ

pub record ScoreResult : Type 0 where
  pub satisfied_points : ℕ
  pub total_possible_points : ℕ
  pub checklist_pass_rate : Rate
  pub failed_question_ids : List String

pub record AggregationResult : Type 0 where
  pub judgments : List AggregatedJudgment
  pub score : ScoreResult

unfoldable pub validate_evaluation_runs : ℤ → ℤ → Result (Unit {0})
validate_evaluation_runs runs max_runs =
    let most = if leb_ℤ max_runs (pos 0) then default_max_evaluation_runs else max_runs in
    fail_if (leb_ℤ runs (pos 0) || is_even runs || ltb_ℤ most runs) (
      opaque
        (lit "evaluation_runs must be an odd positive integer not greater than " ∷ int most ∷ []))
