-- ===== src/Evalcore/Score.antt =====
-- internal/evalcore/score.go: ScoreChecklist.
pub mod Laws
use self_imp_bin_eval.Base.{ℕ, suc, String, Bool, List, [], ◌∷◌, ◌++◌, length, if◌then◌else◌, ◌==◌}
use self_imp_bin_eval.Base.Keys.{get_or, index_onto}
use self_imp_bin_eval.Errors.{Result, ok, ◌>>=◌, ◌>>◌}
use self_imp_bin_eval.Evalcore.Types.{FinalQuestion, Judgment, ScoreResult, answer_yes}
use self_imp_bin_eval.Evalcore.Judgments.{validate_judgments}

abbrev pub JudgmentMap : Type 0
JudgmentMap = List (String × Judgment)

abbrev pub judgment_by_id : List Judgment → JudgmentMap
judgment_by_id = index_onto (λ j. j.question_id) []

abbrev pub no_judgment : Judgment
no_judgment = record { question_id = ""; evidence = ""; answer = "" }

-- `judgmentByID[id]`, the zero `Judgment` if there is none.
abbrev pub judgment_of : JudgmentMap → String → Judgment
judgment_of by_id id = get_or no_judgment id by_id

-- The fields of the result that the loop writes.
pub record Tally : Type 0 where
  pub satisfied_points : ℕ
  pub failed_question_ids : List String

-- One round of the loop.
abbrev pub tally_question : JudgmentMap → Tally → FinalQuestion → Tally
tally_question by_id t question =
    if (judgment_of by_id question.id).answer == answer_yes
    then record {
      satisfied_points = suc t.satisfied_points;
      failed_question_ids = t.failed_question_ids;
    }
    else record {
      satisfied_points = t.satisfied_points;
      failed_question_ids = t.failed_question_ids ++ question.id ∷ [];
    }

unfoldable pub tally_questions : JudgmentMap → Tally → List FinalQuestion → Tally
tally_questions by_id t [] = t
tally_questions by_id t (question ∷ questions) =
    tally_questions by_id (tally_question by_id t question) questions

unfoldable pub score_checklist : List FinalQuestion → List Judgment → Result ScoreResult
score_checklist questions judgments = do
  validate_judgments questions judgments
  let tally =
      tally_questions (judgment_by_id judgments)
        (record { satisfied_points = 0; failed_question_ids = [] }) questions
  ok (record {
    satisfied_points = tally.satisfied_points;
    total_possible_points = length questions;
    checklist_pass_rate = record {
      numerator = tally.satisfied_points;
      denominator = length questions;
    };
    failed_question_ids = tally.failed_question_ids;
  })
