-- ===== src/Tests/Data.antt =====
-- A small checklist: two candidate questions of weights one and two, judged in three runs.
use self_imp_bin_eval.Base.{String, List, [], ◌∷◌}
use self_imp_bin_eval.Base.Int.{ℤ, pos}
use self_imp_bin_eval.Evalcore.Types.{
  ChecklistLimits, DraftDimension, Dimension, DraftQuestion, CandidateQuestion, Weight,
  SplitQuestions, FinalQuestion, Judgment, RunJudgment,
}

abbrev pub no_limits : ChecklistLimits
no_limits = record {
  max_dimensions = pos 0;
  max_candidates_per_dimension = pos 0;
  max_split_count = pos 0;
  max_final_questions = pos 0;
}

abbrev pub draft_dimensions : List DraftDimension
draft_dimensions = record { name = "Clarity"; rubric = "r"; rationale = "w" } ∷ []

abbrev pub dimensions : List Dimension
dimensions =
    record { id = "d1"; ordinal = pos 1; name = "Clarity"; rubric = "r"; rationale = "w" } ∷ []

abbrev pub draft_questions : List DraftQuestion
draft_questions = record { rationale = "w"; question = "Is it clear?" } ∷ []

abbrev pub candidates : List CandidateQuestion
candidates =
    record {
      id = "c1";
      dimension_id = "d1";
      ordinal = pos 1;
      rationale = "w";
      question = "Is it clear?";
    }
    ∷ record {
      id = "c2";
      dimension_id = "d1";
      ordinal = pos 2;
      rationale = "w";
      question = "Is it short and on time?";
    }
    ∷ []

abbrev pub weights : List Weight
weights =
    record { candidate_question_id = "c2"; rationale = "w"; weight = pos 2 }
    ∷ record { candidate_question_id = "c1"; rationale = "w"; weight = pos 1 }
    ∷ []

abbrev pub split : SplitQuestions
split = record {
  candidate_question_id = "c2";
  questions =
      record { rationale = "w"; question = "Is it short?" }
      ∷ record { rationale = "w"; question = "Is it on time?" }
      ∷ [];
}

abbrev pub question : (id : String) → List FinalQuestion → List FinalQuestion
question id qs =
    record {
      id = id;
      ordinal = pos 1;
      dimension_id = "d1";
      source_candidate_id = "c1";
      rationale = "w";
      question = "?";
    }
    ∷ qs

abbrev pub questions : List FinalQuestion
questions = question "q1" (question "q2" [])

abbrev pub judgments : List Judgment
judgments =
    record { question_id = "q2"; evidence = "e"; answer = "no" }
    ∷ record { question_id = "q1"; evidence = "e"; answer = "yes" }
    ∷ []

abbrev pub votes : (run : ℤ) (first second : String) → List RunJudgment → List RunJudgment
votes run first second js =
    record { run_index = run; question_id = "q1"; evidence = "e"; answer = first }
    ∷ record { run_index = run; question_id = "q2"; evidence = "e"; answer = second }
    ∷ js

abbrev pub run_judgments : List RunJudgment
run_judgments = votes (pos 2) "yes" "no" (votes (pos 1) "no" "no" (votes (pos 3) "yes" "yes" []))
