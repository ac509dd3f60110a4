-- ===== src/Evalcore/Active.antt =====
-- internal/evalcore/active.go: BuildFinalChecklist.
pub mod Collect
pub mod Expansion
pub mod Sources
pub mod Laws
use self_imp_bin_eval.Base.{
  ℕ, String, Bool, true, false, List, [], ◌∷◌, ◌++◌, map, length, Option, none, some, if◌then◌else◌,
  eq_ℕ,
}
use self_imp_bin_eval.Base.Int.{ℤ, pos, ltb_ℤ, leb_ℤ, eq_ℤ}
use self_imp_bin_eval.Base.Keys.{get, get_or, index_onto, is_some}
use self_imp_bin_eval.Errors.{
  Result, ok, err, fail_if, ◌>>=◌, ◌>>◌, Message, semantic_error, limit_error, invalid_splits,
  invalid_final_checklist, lit, quote, int,
}
use self_imp_bin_eval.Evalcore.Types.{
  ChecklistLimits, with_defaults, Dimension, DraftQuestion, CandidateQuestion, Weight,
  SplitQuestions, FinalQuestion,
}
use self_imp_bin_eval.Evalcore.Dimensions.{validate_dimensions}
use self_imp_bin_eval.Evalcore.Questions.{validate_candidate_questions, validate_split_questions}
use self_imp_bin_eval.Evalcore.Weights.{validate_weights}
use self_imp_bin_eval.Evalcore.FinalQuestions.{candidate_by_id, validate_final_questions}
use self_imp_bin_eval.Evalcore.Ids.{number_from}

abbrev pub Weights : Type 0
Weights = List (String × Weight)

abbrev pub Splits : Type 0
Splits = List (String × SplitQuestions)

abbrev pub weight_by_candidate_id : List Weight → Weights
weight_by_candidate_id = index_onto (λ w. w.candidate_question_id) []

-- `weightByCandidateID[id]`, the zero `Weight` if there is none.
abbrev pub weight_of : Weights → String → Weight
weight_of weights id =
    get_or (record { candidate_question_id = ""; rationale = ""; weight = pos 0 }) id weights

abbrev pub require {ℓ} : {A : Type ℓ} → Option A → Message → Result A
require none message = err (semantic_error invalid_splits message)
require (some a) message = ok a

-- The loop that checks the splits and fills `splitByCandidateID`.
unfoldable pub collect_splits :
    List (String × CandidateQuestion) → Weights → Splits → List SplitQuestions → Result Splits
collect_splits candidates weights by_id [] = ok by_id
collect_splits candidates weights by_id (split ∷ splits) = do
  let id = split.candidate_question_id
  candidate ←
      require (get id candidates)
        (lit "split references unknown candidate question id " ∷ quote id ∷ [])
  let weight = weight_of weights id
  fail_if (leb_ℤ weight.weight (pos 1)) (
      semantic_error invalid_splits (
        lit "split references candidate id "
        ∷ quote id
        ∷ lit " with weight "
        ∷ int weight.weight
        ∷ []))
  fail_if (is_some (get id by_id)) (
      semantic_error invalid_splits
        (lit "duplicate split for candidate question id " ∷ quote id ∷ []))
  validate_split_questions split weight.weight
  collect_splits candidates weights ((id, split) ∷ by_id) splits

-- A final question before it is numbered.
abbrev pub draft_final : CandidateQuestion → (rationale question : String) → FinalQuestion
draft_final candidate rationale question = record {
  id = "";
  ordinal = pos 0;
  dimension_id = candidate.dimension_id;
  source_candidate_id = candidate.id;
  rationale = rationale;
  question = question;
}

abbrev pub from_split : CandidateQuestion → List DraftQuestion → List FinalQuestion
from_split candidate = map (λ q. draft_final candidate q.rationale q.question)

-- The `default` branch of the `switch`.
unfoldable pub expand_split :
    CandidateQuestion → Option SplitQuestions → Result (List FinalQuestion)
expand_split candidate none = err (
    semantic_error invalid_splits
      (lit "missing split output for candidate question id " ∷ quote candidate.id ∷ []))
expand_split candidate (some split) = ok (from_split candidate split.questions)

-- What one round of the loop appends to `final`.
unfoldable pub expand : Weights → Splits → CandidateQuestion → Result (List FinalQuestion)
unfolding expand_split
expand weights splits candidate =
    let weight = (weight_of weights candidate.id).weight in
    if eq_ℤ weight (pos 0)
    then ok []
    else if eq_ℤ weight (pos 1)
    then ok (draft_final candidate candidate.rationale candidate.question ∷ [])
    else expand_split candidate (get candidate.id splits)

unfoldable pub expand_all : Weights → Splits → List CandidateQuestion → Result (List FinalQuestion)
expand_all weights splits [] = ok []
expand_all weights splits (candidate ∷ candidates) = do
  questions ← expand weights splits candidate
  rest ← expand_all weights splits candidates
  ok (questions ++ rest)

unfoldable pub build_final_checklist :
    List Dimension
    → List CandidateQuestion
    → List Weight
    → List SplitQuestions
    → ChecklistLimits
    → Result (List FinalQuestion)
build_final_checklist dimensions candidates weights splits limits0 = do
  let limits = with_defaults limits0
  validate_dimensions dimensions limits
  validate_candidate_questions dimensions candidates limits
  validate_weights candidates weights limits
  let weight_by_id = weight_by_candidate_id weights
  split_by_id ← collect_splits (candidate_by_id candidates) weight_by_id [] splits
  final ← expand_all weight_by_id split_by_id candidates
  fail_if (eq_ℕ (length final) 0)
      (semantic_error invalid_final_checklist (lit "at least one final question is required" ∷ []))
  fail_if (ltb_ℤ limits.max_final_questions (pos (length final))) (
      limit_error invalid_final_checklist (record {
        limit_name = "max_final_questions";
        configured_limit = limits.max_final_questions;
        observed_count = pos (length final);
        checklist_id = "";
        stage = "build_final_checklist";
      }))
  let numbered = number_from 0 final
  validate_final_questions dimensions candidates numbered limits
  ok numbered
