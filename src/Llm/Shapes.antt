-- ===== src/Llm/Shapes.antt =====
-- Which outputs the schemas of internal/llm/schemas.go let the model give.
use self_imp_bin_eval.Base.{
  ◌≡◌, refl, ap, suc, String, true, List, [], ◌∷◌, map, length, All, ◌↔◌, arith, String-discrete,
  ==_refl,
}
use self_imp_bin_eval.Base.Int.{ℤ, pos, ◌≤ℤ◌}
use self_imp_bin_eval.Llm.Json.{Json, text, array_of, object_of, elements}
use self_imp_bin_eval.Llm.Schemas.{object_schema, list_schema}
use self_imp_bin_eval.Llm.Accepts.{
  accepts, accepts_all, accepts_properties, accepts_members, count, all_elements,
}

-- An output: an object whose one member is a list.
abbrev pub encode_output {ℓ} : {A : Type ℓ} → String → (A → Json) → List A → Json
encode_output name encode xs = object_of ((name, array_of (map encode xs)) ∷ [])

module _ {ℓ} {A : Type ℓ} (encode : A → Json) where
  count-elements : (xs : List A) → count (elements (map encode xs)) ≡ length xs
  count-elements [] = refl
  count-elements (x ∷ xs) = ap suc (count-elements xs)

  -- Every member of the list passes the schema of the members.
  all_elements_iff :
      (item : Json) (xs : List A)
      → (all_elements (accepts item) (elements (map encode xs)) ≡ true)
        ↔ All (λ x. accepts item (encode x) ≡ true) xs
  all_elements_iff item [] = (λ h. tt, λ h. refl)
  all_elements_iff item (x ∷ xs) =
      let ih = all_elements_iff item xs in
      (λ h. (ground arith, ih.0 (ground arith)), λ h. ground (arith, h.0, ih.1 h.1))

  -- A schema for a list under a name accepts exactly the lists of a length within its bounds whose
  -- members pass the schema of the members.
  pub accepts-list_iff :
      (name : String) (least most : ℤ) (item : Json) (xs : List A)
      → (accepts
            (object_schema (text name ∷ []) ((name, list_schema least most item) ∷ []))
            (encode_output name encode xs)
          ≡ true)
        ↔ ((least ≤ℤ pos (length xs))
            × (pos (length xs) ≤ℤ most)
            × All (λ x. accepts item (encode x) ≡ true) xs)
  unfolding accepts accepts_all accepts_properties accepts_members String-discrete
  accepts-list_iff name least most item xs =
      let c = count-elements xs in
      let i = all_elements_iff item xs in
      rw (==_refl name) (
        rw c (
          λ h. (ground arith, ground arith, i.0 (ground arith)),
          λ h. ground (arith, h.0, h.1, i.1 h.2),
        ))
