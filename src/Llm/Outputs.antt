-- ===== src/Llm/Outputs.antt =====
-- Which judgments, weights, dimensions and questions the schemas of internal/llm/schemas.go let the
-- model give.
use self_imp_bin_eval.Base.{
  ◌≡◌, refl, ◌∙◌, ℕ, suc, zero, ◌+◌, ◌≤◌, String, true, ◌||◌, ◌==◌, List, [], ◌∷◌, length, All,
  All-imp, ◌↔◌, ◌⊎◌, inl, inr, Bool-cases, arith, String-discrete,
}
use self_imp_bin_eval.Base.Int.{ℤ, pos, negsuc, eq_ℤ, ◌≤ℤ◌, ◌<ℤ◌}
use self_imp_bin_eval.Evalcore.Types.{
  Judgment, Weight, DraftDimension, DraftQuestion, answer_yes, answer_no, ChecklistLimits,
  with_defaults, default_checklist_limits,
}
use self_imp_bin_eval.Llm.Json.{Json, text, number, object_of, elements}
use self_imp_bin_eval.Llm.Schemas.{
  judgment_schema, binary_judging_schema, weight_schema, weight_values, numbers_from,
  weight_assignment_schema, dimension_schema, dimension_analysis_schema, question_schema,
  question_generation_schema, question_splitting_schema,
}
use self_imp_bin_eval.Llm.Accepts.{
  accepts, accepts_all, accepts_properties, accepts_members, any_element, same_value,
}
use self_imp_bin_eval.Llm.Shapes.{encode_output, accepts-list_iff}

-- The JSON text of a judgment, by the tags of its fields.
abbrev pub encode_judgment : Judgment → Json
encode_judgment j = object_of (
    ("question_id", text j.question_id)
    ∷ ("evidence", text j.evidence)
    ∷ ("answer", text j.answer)
    ∷ [])

judgment_lem :
    (j : Judgment)
    → accepts judgment_schema (encode_judgment j)
      ≡ (j.answer == answer_yes || j.answer == answer_no)
unfolding accepts accepts_all accepts_properties accepts_members String-discrete
judgment_lem j = ground arith

abbrev pub IsAnswer : String → Type 0
IsAnswer a = (a ≡ answer_yes) ⊎ (a ≡ answer_no)

judgment_iff :
    (j : Judgment) → (accepts judgment_schema (encode_judgment j) ≡ true) ↔ IsAnswer j.answer
judgment_iff j = let l = judgment_lem j in (λ h. ground arith, λ h. ground (arith, h))

All-iff {ℓ κ μ} :
    {A : Type ℓ} {P : A → Type κ} {Q : A → Type μ} (f : (a : A) → P a ↔ Q a) (xs : List A)
    → All P xs ↔ All Q xs
All-iff f xs = (All-imp (λ a. (f a).0) xs, All-imp (λ a. (f a).1) xs)

-- The schema for judging n questions accepts exactly the lists of n judgments that each answer yes or
-- no.
pub binary_judging_schema-accepts_iff :
    (n : ℕ) (js : List Judgment)
    → (accepts (binary_judging_schema (pos n)) (encode_output "judgments" encode_judgment js)
        ≡ true)
      ↔ ((length js ≡ n) × All (λ j. IsAnswer j.answer) js)
unfolding binary_judging_schema
binary_judging_schema-accepts_iff n js =
    let l = accepts-list_iff encode_judgment "judgments" (pos n) (pos n) judgment_schema js in
    let a = All-iff judgment_iff js in
    (
      λ h. let (least, most, all) = l.0 h in (omega arith, a.0 all),
      λ h. l.1 (ground (arith, h.0), ground (arith, h.0), a.1 h.1),
    )

abbrev pub encode_weight : Weight → Json
encode_weight w = object_of (
    ("candidate_question_id", text w.candidate_question_id)
    ∷ ("rationale", text w.rationale)
    ∷ ("weight", number w.weight)
    ∷ [])

numbers_from_iff :
    (w : ℤ) (i c : ℕ)
    → (any_element (same_value (number w)) (elements (numbers_from i c)) ≡ true)
      ↔ ((pos i ≤ℤ w) × (w <ℤ pos (i + c)))
numbers_from_iff w i zero = (λ h. absurd cc, λ h. absurd (ground (arith, h.0, h.1)))
numbers_from_iff w i (suc c) =
    let ih = numbers_from_iff w (suc i) c in
    elim (Bool-cases (eq_ℤ w (pos i))) [
      | inl e ↦ (λ h. (ground arith, ground arith), λ h. ground arith)
      | inr e ↦ (
        λ h. let r = ih.0 (ground arith) in (ground (arith, r.0), ground (arith, r.1)),
        λ h. ground (arith, ih.1 (ground (arith, h.0), ground (arith, h.1))),
      )
    ]

weight_lem :
    (most : ℤ) (w : Weight)
    → accepts (weight_schema most) (encode_weight w)
      ≡ any_element (same_value (number w.weight)) (elements (weight_values most))
unfolding accepts accepts_all accepts_properties accepts_members String-discrete
weight_lem most w = ground arith

-- A weight in the range of the limits.
abbrev pub IsWeighed : ℤ → Weight → Type 0
IsWeighed most w = (pos 0 ≤ℤ w.weight) × (w.weight ≤ℤ most)

weight_iff :
    (most : ℤ) (w : Weight)
    → pos 0 ≤ℤ most
    → (accepts (weight_schema most) (encode_weight w) ≡ true) ↔ IsWeighed most w
weight_iff (pos m) w h =
    let l = weight_lem (pos m) w in
    let r = numbers_from_iff w.weight 0 (suc m) in
    (
      λ a. let i = r.0 (ground arith) in (i.0, ground (arith, i.1)),
      λ i. l ∙ r.1 (i.0, ground (arith, i.1)),
    )
weight_iff (negsuc m) w h = absurd (omega arith)

-- The schema for weighing n candidates accepts exactly the lists of n weights from 0 to the largest
-- split count of the limits, or to its default where they set none.
pub weight_assignment_schema-accepts_iff :
    (limits : ChecklistLimits) (n : ℕ) (ws : List Weight)
    → (accepts (weight_assignment_schema limits (pos n)) (encode_output "weights" encode_weight ws)
        ≡ true)
      ↔ ((length ws ≡ n) × All (IsWeighed (with_defaults limits).max_split_count) ws)
unfolding weight_assignment_schema with_defaults default_checklist_limits
weight_assignment_schema-accepts_iff limits n ws =
    let most = (with_defaults limits).max_split_count in
    let l = accepts-list_iff encode_weight "weights" (pos n) (pos n) (weight_schema most) ws in
    let a = All-iff (λ w. weight_iff most w (ground arith)) ws in
    (
      λ h. let (least, most, all) = l.0 h in (omega arith, a.0 all),
      λ h. l.1 (ground (arith, h.0), ground (arith, h.0), a.1 h.1),
    )

abbrev pub encode_dimension_draft : DraftDimension → Json
encode_dimension_draft d =
    object_of
      (("name", text d.name) ∷ ("rubric", text d.rubric) ∷ ("rationale", text d.rationale) ∷ [])

abbrev pub encode_question_draft : DraftQuestion → Json
encode_question_draft q =
    object_of (("rationale", text q.rationale) ∷ ("question", text q.question) ∷ [])

dimension_lem : (d : DraftDimension) → accepts dimension_schema (encode_dimension_draft d) ≡ true
unfolding accepts accepts_all accepts_properties accepts_members String-discrete
dimension_lem d = refl

question_lem : (q : DraftQuestion) → accepts question_schema (encode_question_draft q) ≡ true
unfolding accepts accepts_all accepts_properties accepts_members String-discrete
question_lem q = refl

All_of_each {ℓ κ} : {A : Type ℓ} {P : A → Type κ} (f : (a : A) → P a) (xs : List A) → All P xs
All_of_each f [] = tt
All_of_each f (x ∷ xs) = (f x, All_of_each f xs)

-- The schemas for dimensions, questions and splits bound the length of the list as the limits do: at
-- least one and at most the limit, or exactly the number of parts.
pub schemas-lengths_iff :
    (limits : ChecklistLimits) (n : ℕ) (ds : List DraftDimension) (qs : List DraftQuestion)
    → ((accepts
            (dimension_analysis_schema limits)
            (encode_output "dimensions" encode_dimension_draft ds)
          ≡ true)
        ↔ ((1 ≤ length ds) × (pos (length ds) ≤ℤ (with_defaults limits).max_dimensions)))
      × ((accepts
              (question_generation_schema limits)
              (encode_output "questions" encode_question_draft qs)
            ≡ true)
          ↔ ((1 ≤ length qs)
              × (pos (length qs) ≤ℤ (with_defaults limits).max_candidates_per_dimension)))
      × ((accepts
              (question_splitting_schema limits (pos n))
              (encode_output "questions" encode_question_draft qs)
            ≡ true)
          ↔ (length qs ≡ n))
unfolding dimension_analysis_schema question_generation_schema question_splitting_schema
schemas-lengths_iff limits n ds qs =
    let l = with_defaults limits in
    let d =
      accepts-list_iff encode_dimension_draft "dimensions" (pos 1) l.max_dimensions dimension_schema
        ds in
    let q =
      accepts-list_iff encode_question_draft "questions" (pos 1) l.max_candidates_per_dimension
        question_schema qs in
    let p = accepts-list_iff encode_question_draft "questions" (pos n) (pos n) question_schema qs in
    let each = All_of_each question_lem qs in
    (
      (
        λ h. let r = d.0 h in (omega (arith, r.0), r.1),
        λ h. d.1 (omega (arith, h.0), h.1, All_of_each dimension_lem ds),
      ),
      (λ h. let r = q.0 h in (omega (arith, r.0), r.1), λ h. q.1 (omega (arith, h.0), h.1, each)),
      (λ h. let r = p.0 h in omega (arith, r.0, r.1), λ h. p.1 (ground arith, ground arith, each)),
    )
