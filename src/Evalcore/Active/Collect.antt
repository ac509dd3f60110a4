-- ===== src/Evalcore/Active/Collect.antt =====
-- The loop of BuildFinalChecklist that checks the splits.
use self_imp_bin_eval.Base.{◌≡◌, refl, String, true, List, [], ◌∷◌, map, arith, All}
use self_imp_bin_eval.Base.Keys.{get, index_onto, AllNew, keys, is_some, is_some-get}
use self_imp_bin_eval.Errors.{ok}
use self_imp_bin_eval.Evalcore.Types.{CandidateQuestion, SplitQuestions}
use self_imp_bin_eval.Evalcore.Questions.Splits.{IsSplit, validate_split_questions_iff}
use self_imp_bin_eval.Evalcore.Active.{Weights, Splits, weight_of, collect_splits}

abbrev pub split_ids : List SplitQuestions → List String
split_ids = map (λ s. s.candidate_question_id)

module _ (candidates : List (String × CandidateQuestion)) (weights : Weights) where
  -- A split of a known candidate, into as many questions as its weight says.
  abbrev pub IsSplitOf : SplitQuestions → Type 0
  IsSplitOf s =
      (is_some (get s.candidate_question_id candidates) ≡ true)
      × IsSplit s (weight_of weights s.candidate_question_id).weight

  pub collect_splits-ok :
      (by_id out : Splits) (ss : List SplitQuestions)
      → collect_splits candidates weights by_id ss ≡ ok out
      → All IsSplitOf ss
        × AllNew (keys by_id) (split_ids ss)
        × (out ≡ index_onto (λ s. s.candidate_question_id) by_id ss)
  unfolding collect_splits index_onto
  collect_splits-ok by_id out [] h = (tt, tt, ground arith)
  collect_splits-ok by_id out (s ∷ ss) h =
      let id = s.candidate_question_id in
      let ih = collect_splits-ok ((id, s) ∷ by_id) out ss (ground arith) in
      (
        (
          (
            ground arith,
            (validate_split_questions_iff s (weight_of weights id).weight).0 (ground arith),
          ),
          ih.0,
        ),
        (ground (arith, is_some-get id by_id), ih.1),
        ih.2,
      )

  pub ok-collect_splits :
      (by_id : Splits) (ss : List SplitQuestions)
      → All IsSplitOf ss
      → AllNew (keys by_id) (split_ids ss)
      → collect_splits candidates weights by_id ss
        ≡ ok (index_onto (λ s. s.candidate_question_id) by_id ss)
  unfolding collect_splits index_onto
  ok-collect_splits by_id [] h k = refl
  ok-collect_splits by_id (s ∷ ss) h k =
      let id = s.candidate_question_id in
      ground (
        arith,
        (validate_split_questions_iff s (weight_of weights id).weight).1 h.0.1,
        h.0.1.many,
        is_some-get id by_id,
        ok-collect_splits ((id, s) ∷ by_id) ss h.1 k.1,
      )
