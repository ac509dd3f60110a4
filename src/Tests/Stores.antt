-- ===== src/Tests/Stores.antt =====
-- A checklist that is created, and one that is completed or failed, twice.
use self_imp_bin_eval.Base.{
  true, if◌then◌else◌, ◌≡◌, refl, none, some, String, ◌==◌, List, [], ◌∷◌, map, ◌↔◌,
  String-discrete,
}
use self_imp_bin_eval.Base.Int.{ℤ, pos}
use self_imp_bin_eval.Base.Keys.{contains, get, get_or, index_onto, find}
use self_imp_bin_eval.Base.Ordinals.{contains_ordinal}
use self_imp_bin_eval.Base.Text.{is_blank}
use self_imp_bin_eval.Evalcore.Dimensions.{validate_dimensions, check_dimensions}
use self_imp_bin_eval.Evalcore.Questions.{validate_candidate_questions, check_candidates}
use self_imp_bin_eval.Evalcore.Weights.{
  validate_weights, validate_weight_shape, check_weight_shape, check_weighed_candidates,
  check_known_weights, check_all_weighed,
}
use self_imp_bin_eval.Evalcore.FinalQuestions.{
  validate_final_questions, check_final_questions, check_source,
}
use self_imp_bin_eval.Errors.{Message, lit, Details, Result, ok}
use self_imp_bin_eval.Evalcore.Types.{Weight, FinalQuestion, with_defaults, validate_limits}
use self_imp_bin_eval.Store.{Checklist, status_running, status_failed}
use self_imp_bin_eval.Store.Checklists.{
  Checklists, succeed_checklist, order_by, candidate_ordinal, check_submission,
}
use self_imp_bin_eval.Store.Checklists.Repeats.{InReadOrder, succeed_checklist-twice}
use self_imp_bin_eval.Failure.{validate_details, check_references}
use self_imp_bin_eval.Store.Creation.{create_checklist, create_checklist_for_workflow}
use self_imp_bin_eval.Store.Evaluations.{Evaluations, create_evaluation_for_workflow}
use self_imp_bin_eval.Store.Failing.{fail_checklist}
use self_imp_bin_eval.Tests.Data.{no_limits, dimensions, candidates, weights}

abbrev pub committed : Checklist → Result (Unit {0})
committed row = ok tt

abbrev row_of : (id status : String) → Checklist
row_of id status = record {
  id = id;
  status = status;
  evaluation_runs = pos 3;
  task_artifact_key = "t";
  context_artifact_key = "c";
  failure = none;
  dimensions = [];
  candidate_questions = [];
  weights = [];
  questions = [];
}

-- "a" is running, every other checklist has failed.
abbrev rows : Checklists
rows id = if id == "a" then some (row_of id status_running) else some (row_of id status_failed)

abbrev pub final : (id source : String) → (ordinal : ℤ) → FinalQuestion
final id source ordinal = record {
  id = id;
  ordinal = ordinal;
  dimension_id = "d1";
  source_candidate_id = source;
  rationale = "w";
  question = "?";
}

abbrev pub finals : List FinalQuestion
finals = final "q1" "c1" (pos 1) ∷ final "q2" "c2" (pos 2) ∷ []

abbrev completed : List Weight → Checklists
completed ws = (succeed_checklist committed rows "a" dimensions candidates ws finals no_limits).0

accepted :
    (succeed_checklist committed rows "a" dimensions candidates weights finals no_limits).1 ≡ ok tt
unfolding succeed_checklist check_submission validate_limits validate_dimensions check_dimensions
    validate_candidate_questions check_candidates validate_weights validate_weight_shape
    check_weight_shape check_weighed_candidates check_known_weights check_all_weighed
    validate_final_questions check_final_questions check_source with_defaults contains
    contains_ordinal get get_or index_onto is_blank String-discrete
accepted = refl

succeed_checklist-twice_example :
    ((succeed_checklist committed
        (completed weights)
        "a"
        dimensions
        candidates
        weights
        finals
        no_limits).0
      ≡ completed weights)
    × (((succeed_checklist committed
            (completed weights)
            "a"
            dimensions
            candidates
            weights
            finals
            no_limits).1
          ≡ ok tt)
        ↔ InReadOrder dimensions candidates weights finals)
unfolding String-discrete
succeed_checklist-twice_example =
    succeed_checklist-twice committed rows "a" dimensions candidates weights finals no_limits
      (row_of "a" status_running) refl refl accepted

-- The weights name "c2" first.
order_of_weights :
    map (λ (w : Weight). w.candidate_question_id) (order_by (candidate_ordinal candidates) weights)
    ≡ "c1" ∷ "c2" ∷ []
unfolding order_by find String-discrete
order_of_weights = refl

abbrev pub piece_text : Message → String
piece_text [] = ""
piece_text (lit s ∷ ps) = s
piece_text (p ∷ ps) = "?"

abbrev pub failure : Details
failure = record {
  workflow_id = "wf";
  stage = "weight_assignment";
  error_class = "infra_retryable";
  error_code = "infrastructure_error";
  message = lit "no answer" ∷ [];
  retryable = true;
  attempt_count = pos 1;
  diagnostics = [];
  artifact_references = [];
}

complete : validate_details failure ≡ ok tt
unfolding validate_details check_references is_blank String-discrete
complete = refl

abbrev given_up : Checklists
given_up = (fail_checklist piece_text committed rows "a" failure).0

given_up-accepted : (fail_checklist piece_text committed rows "a" failure).1 ≡ ok tt
unfolding String-discrete fail_checklist validate_details check_references is_blank
given_up-accepted = refl

submitted : check_submission dimensions candidates weights finals no_limits ≡ ok tt
unfolding check_submission validate_limits validate_dimensions check_dimensions
    validate_candidate_questions check_candidates validate_weights validate_weight_shape
    check_weight_shape check_weighed_candidates check_known_weights check_all_weighed
    validate_final_questions check_final_questions check_source with_defaults contains
    contains_ordinal get get_or index_onto is_blank String-discrete
submitted = refl

abbrev created : Checklists
created = (create_checklist (ok "b") rows "t" "c" (pos 3)).0

abbrev started : Checklists
started = (create_checklist_for_workflow (ok "b") rows (pos 3)).0

abbrev inserted_id : Result String
inserted_id = ok "e1"

abbrev no_evaluations : Evaluations
no_evaluations id = none

evaluates :
    (create_evaluation_for_workflow (ok "e1") (completed weights) no_evaluations "a").1 ≡ ok "e1"
unfolding succeed_checklist check_submission validate_limits validate_dimensions check_dimensions
    validate_candidate_questions check_candidates validate_weights validate_weight_shape
    check_weight_shape check_weighed_candidates check_known_weights check_all_weighed
    validate_final_questions check_final_questions check_source with_defaults contains
    contains_ordinal get get_or index_onto is_blank String-discrete create_evaluation_for_workflow
evaluates = refl
