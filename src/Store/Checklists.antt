-- ===== src/Store/Checklists.antt =====
-- internal/db/store.go: SucceedChecklist, GetChecklist and compareSucceededChecklist on an explicit
-- state: the checklists by their identifiers, each with its rows in the order of their insertion.
-- Reads are taken to reach the database; a lost connection is an error that changes nothing.
pub mod Repeats
use self_imp_bin_eval.Base.{
  ℕ, String, Bool, true, false, not, ◌&&◌, ◌==◌, List, [], ◌∷◌, Option, none, some, if◌then◌else◌,
}
use self_imp_bin_eval.Base.Int.{ℤ, pos, ltb_ℤ, eq_ℤ}
use self_imp_bin_eval.Base.Keys.{find}
use self_imp_bin_eval.Errors.{Details, Result, ok, err, ◌>>=◌, ◌>>◌, not_found, conflict}
use self_imp_bin_eval.Evalcore.Types.{
  ChecklistLimits, with_defaults, validate_limits, Dimension, CandidateQuestion, Weight,
  FinalQuestion,
}
use self_imp_bin_eval.Evalcore.Dimensions.{validate_dimensions}
use self_imp_bin_eval.Evalcore.Questions.{validate_candidate_questions}
use self_imp_bin_eval.Evalcore.Weights.{validate_weights}
use self_imp_bin_eval.Evalcore.FinalQuestions.{validate_final_questions}
use self_imp_bin_eval.Store.{Checklist, status_running, status_succeeded, status_failed}

abbrev pub Checklists : Type 0
Checklists = String → Option Checklist

module _ {A : Type 0} (ordinal : A → ℤ) where
  abbrev insert_ordered : A → List A → List A
  insert_ordered x [] = x ∷ []
  insert_ordered x (y ∷ ys) =
      if ltb_ℤ (ordinal y) (ordinal x) then y ∷ insert_ordered x ys else x ∷ y ∷ ys

  -- `order by ordinal`
  unfoldable pub order_by : List A → List A
  order_by [] = []
  order_by (x ∷ xs) = insert_ordered x (order_by xs)

abbrev ordinal_or_zero : Option CandidateQuestion → ℤ
ordinal_or_zero none = pos 0
ordinal_or_zero (some c) = c.ordinal

-- `q.ordinal` of the candidate that the weight is joined with. A foreign key keeps weights without
-- a candidate out of the table.
abbrev pub candidate_ordinal : List CandidateQuestion → Weight → ℤ
candidate_ordinal cs w =
    ordinal_or_zero (find (λ (c : CandidateQuestion). c.id) w.candidate_question_id cs)

-- A checklist as it is read, with its failure, its rows ordered.
abbrev pub read_checklist : Option Details → Checklist → Checklist
read_checklist failure row = record {
  id = row.id;
  status = row.status;
  evaluation_runs = row.evaluation_runs;
  task_artifact_key = row.task_artifact_key;
  context_artifact_key = row.context_artifact_key;
  failure = failure;
  dimensions = order_by (λ d. d.ordinal) row.dimensions;
  candidate_questions = order_by (λ c. c.ordinal) row.candidate_questions;
  weights = order_by (candidate_ordinal row.candidate_questions) row.weights;
  questions = order_by (λ q. q.ordinal) row.questions;
}

-- A failed checklist is read with the record of its failure, which must be there.
abbrev with_failure : Checklist → Option Details → Result Checklist
with_failure row none = err not_found
with_failure row (some details) = ok (read_checklist (some details) row)

abbrev found : Option Checklist → Result Checklist
found none = err not_found
found (some row) =
    if row.status == status_failed
    then with_failure row row.failure
    else ok (read_checklist none row)

unfoldable pub get_checklist : Checklists → String → Result Checklist
get_checklist s id = found (s id)

-- `slices.Equal`, by the test of the members.
unfoldable pub same_list : {A : Type 0} → (A → A → Bool) → List A → List A → Bool
same_list same [] [] = true
same_list same [] (y ∷ ys) = false
same_list same (x ∷ xs) [] = false
same_list same (x ∷ xs) (y ∷ ys) = same x y && same_list same xs ys

-- `==` on the structs, field by field.
abbrev pub same_dimension : Dimension → Dimension → Bool
same_dimension a b =
    a.id == b.id
    && eq_ℤ a.ordinal b.ordinal
    && a.name == b.name
    && a.rubric == b.rubric
    && a.rationale == b.rationale

abbrev pub same_candidate : CandidateQuestion → CandidateQuestion → Bool
same_candidate a b =
    a.id == b.id
    && a.dimension_id == b.dimension_id
    && eq_ℤ a.ordinal b.ordinal
    && a.rationale == b.rationale
    && a.question == b.question

abbrev pub same_weight : Weight → Weight → Bool
same_weight a b =
    a.candidate_question_id == b.candidate_question_id
    && a.rationale == b.rationale
    && eq_ℤ a.weight b.weight

abbrev pub same_question : FinalQuestion → FinalQuestion → Bool
same_question a b =
    a.id == b.id
    && eq_ℤ a.ordinal b.ordinal
    && a.dimension_id == b.dimension_id
    && a.source_candidate_id == b.source_candidate_id
    && a.rationale == b.rationale
    && a.question == b.question

abbrev pub agrees :
    Checklist → List Dimension → List CandidateQuestion → List Weight → List FinalQuestion → Bool
agrees existing ds cs ws qs =
    existing.status == status_succeeded
    && same_list same_dimension existing.dimensions ds
    && same_list same_candidate existing.candidate_questions cs
    && same_list same_weight existing.weights ws
    && same_list same_question existing.questions qs

unfoldable pub compare_succeeded_checklist :
    Checklists
    → String
    → List Dimension
    → List CandidateQuestion
    → List Weight
    → List FinalQuestion
    → Result (Unit {0})
compare_succeeded_checklist s id ds cs ws qs = do
  existing ← get_checklist s id
  if agrees existing ds cs ws qs then ok tt else err conflict

-- The checks before the transaction.
unfoldable pub check_submission :
    List Dimension
    → List CandidateQuestion
    → List Weight
    → List FinalQuestion
    → ChecklistLimits
    → Result (Unit {0})
check_submission ds cs ws qs limits0 = do
  let limits = with_defaults limits0
  validate_limits limits
  validate_dimensions ds limits
  validate_candidate_questions ds cs limits
  validate_weights cs ws limits
  validate_final_questions ds cs qs limits

abbrev pub put : Checklists → String → Checklist → Checklists
put s id row j = if j == id then some row else s j

abbrev pub succeeded_row :
    Checklist
    → List Dimension
    → List CandidateQuestion
    → List Weight
    → List FinalQuestion
    → Checklist
succeeded_row row ds cs ws qs = record {
  id = row.id;
  status = status_succeeded;
  evaluation_runs = row.evaluation_runs;
  task_artifact_key = row.task_artifact_key;
  context_artifact_key = row.context_artifact_key;
  failure = row.failure;
  dimensions = ds;
  candidate_questions = cs;
  weights = ws;
  questions = qs;
}

-- `commit` is what the database answers to the inserts, the update and the commit of a transaction
-- that leaves the row as given. An error leaves the state as it was.
module _ (commit : Checklist → Result (Unit {0})) where
  abbrev pub after_commit :
      Checklists → String → Checklist → Result (Unit {0}) → Checklists × Result (Unit {0})
  after_commit s id row (ok committed) = (put s id row, ok tt)
  after_commit s id row (err e) = (s, err e)

  abbrev pub in_transaction :
      Checklists
      → String
      → List Dimension
      → List CandidateQuestion
      → List Weight
      → List FinalQuestion
      → Option Checklist
      → Checklists × Result (Unit {0})
  in_transaction s id ds cs ws qs none = (s, err not_found)
  in_transaction s id ds cs ws qs (some row) =
      let new = succeeded_row row ds cs ws qs in
      if row.status == status_running
      then after_commit s id new (commit new)
      else (s, compare_succeeded_checklist s id ds cs ws qs)

  abbrev pub if_valid :
      Result (Unit {0})
      → Checklists
      → Checklists × Result (Unit {0})
      → Checklists × Result (Unit {0})
  if_valid (ok valid) s rest = rest
  if_valid (err e) s rest = (s, err e)

  unfoldable pub succeed_checklist :
      Checklists
      → String
      → List Dimension
      → List CandidateQuestion
      → List Weight
      → List FinalQuestion
      → ChecklistLimits
      → Checklists × Result (Unit {0})
  succeed_checklist s id ds cs ws qs limits =
      if_valid (check_submission ds cs ws qs limits) s (in_transaction s id ds cs ws qs (s id))
