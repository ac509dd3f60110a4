-- ===== src/Api/Responses.antt =====
-- internal/api/router.go: what the handlers write, and the status of an error.
use self_imp_bin_eval.Base.{
  ℕ, String, Bool, true, false, ◌==◌, List, [], ◌∷◌, Option, none, some, if◌then◌else◌,
}
use self_imp_bin_eval.Base.Int.{ℤ}
use self_imp_bin_eval.Errors.{GoError, Details, error_chain, not_found, conflict}
use self_imp_bin_eval.Evalcore.Types.{
  Dimension, CandidateQuestion, Weight, FinalQuestion, Rate, AggregatedJudgment,
}
use self_imp_bin_eval.Store.{Checklist, status_succeeded, status_failed}
use self_imp_bin_eval.Store.Evaluations.{Evaluation}

pub record ChecklistResponse : Type 0 where
  pub checklist_id : String
  pub status : String
  pub evaluation_runs : ℤ
  pub failure : Option Details
  pub dimensions : List Dimension
  pub candidate_questions : List CandidateQuestion
  pub weights : List Weight
  pub questions : List FinalQuestion

pub record EvaluationResponse : Type 0 where
  pub evaluation_id : String
  pub checklist_id : String
  pub status : String
  pub failure : Option Details
  pub satisfied_points : Option ℕ
  pub total_possible_points : Option ℕ
  pub checklist_pass_rate : Option Rate
  pub failed_question_ids : Option (List String)
  pub judgments : List AggregatedJudgment

pub data Body : Type 0 where
  error_code : String → Body
  accepted_checklist : (checklist_id status : String) (evaluation_runs : ℤ) → Body
  accepted_evaluation : (evaluation_id status : String) → Body
  checklist_found : ChecklistResponse → Body
  evaluation_found : EvaluationResponse → Body

pub record Response : Type 0 where
  pub status : ℕ
  pub body : Body

-- `writeJSON`
abbrev pub respond : ℕ → Body → Response
respond status body = record { status = status; body = body }

abbrev pub write_error : ℕ → String → Response
write_error status code = respond status (error_code code)

-- `errors.Is` for the two sentinels of the store.
unfoldable pub is_not_found : List GoError → Bool
is_not_found [] = false
is_not_found (not_found ∷ es) = true
is_not_found (_ ∷ es) = is_not_found es

unfoldable pub is_conflict : List GoError → Bool
is_conflict [] = false
is_conflict (conflict ∷ es) = true
is_conflict (_ ∷ es) = is_conflict es

unfoldable pub status_from_error : GoError → ℕ
unfolding is_not_found is_conflict error_chain
status_from_error e =
    if is_not_found (error_chain e) then 404 else if is_conflict (error_chain e) then 409 else 500

abbrev pub checklist_response : Checklist → ChecklistResponse
checklist_response c =
    let succeeded = c.status == status_succeeded in
    record {
      checklist_id = c.id;
      status = c.status;
      evaluation_runs = c.evaluation_runs;
      failure = if c.status == status_failed then c.failure else none;
      dimensions = if succeeded then c.dimensions else [];
      candidate_questions = if succeeded then c.candidate_questions else [];
      weights = if succeeded then c.weights else [];
      questions = if succeeded then c.questions else [];
    }

abbrev pub evaluation_response : Evaluation → EvaluationResponse
evaluation_response e =
    let succeeded = e.status == status_succeeded in
    record {
      evaluation_id = e.id;
      checklist_id = e.checklist_id;
      status = e.status;
      failure = if e.status == status_failed then e.failure else none;
      satisfied_points = if succeeded then e.satisfied_points else none;
      total_possible_points = if succeeded then e.total_possible_points else none;
      checklist_pass_rate = if succeeded then e.checklist_pass_rate else none;
      failed_question_ids = if succeeded then some e.failed_question_ids else none;
      judgments = if succeeded then e.judgments else [];
    }
