-- ===== src/Llm/Accepts.antt =====
-- What a JSON schema means: the keywords that internal/llm/schemas.go uses, each a condition of its
-- own, as JSON Schema defines them.
use self_imp_bin_eval.Base.{
  ℕ, suc, String, Bool, true, false, ◌&&◌, ◌||◌, ◌==◌, if◌then◌else◌, Option, none, some,
}
use self_imp_bin_eval.Base.Int.{pos, leb_ℤ, eq_ℤ}
use self_imp_bin_eval.Llm.Json.{
  Json, Elements, Members, text, number, boolean, array, object, no_elements, element, no_members,
  member,
}

abbrev pub get_member : String → Members → Option Json
get_member key no_members = none
get_member key (member k v ms) = let rest = get_member key ms in if key == k then some v else rest

abbrev pub count : Elements → ℕ
count no_elements = 0
count (element v vs) = suc (count vs)

abbrev pub all_elements : (Json → Bool) → Elements → Bool
all_elements test no_elements = true
all_elements test (element v vs) = test v && all_elements test vs

abbrev pub any_element : (Json → Bool) → Elements → Bool
any_element test no_elements = false
any_element test (element v vs) = test v || any_element test vs

-- An object has the member, and it passes.
abbrev pub test_member : (Json → Bool) → Option Json → Bool
test_member test none = true
test_member test (some v) = test v

abbrev pub is_some : Option Json → Bool
is_some none = false
is_some (some v) = true

abbrev pub has_type : Json → Json → Bool
has_type (text type) (text s) = type == "string"
has_type (text type) (number n) = type == "integer"
has_type (text type) (boolean b) = type == "boolean"
has_type (text type) (array vs) = type == "array"
has_type (text type) (object ms) = type == "object"
has_type _ v = false

-- The texts and numbers of an `enum`.
abbrev pub same_value : Json → Json → Bool
same_value (text s) (text t) = s == t
same_value (number m) (number n) = eq_ℤ m n
same_value _ _ = false

abbrev pub has_members : Json → Json → Bool
has_members (array names) (object ms) =
    all_elements (λ name. elim name [ text key ↦ is_some (get_member key ms) | _ ↦ false ]) names
has_members _ _ = true

abbrev pub all_known : Members → Members → Bool
all_known properties no_members = true
all_known properties (member key v ms) =
    is_some (get_member key properties) && all_known properties ms

-- No member but those that a sibling keyword lists.
abbrev pub only_known : Option Json → Json → Bool
only_known (some (object properties)) (object ms) = all_known properties ms
only_known _ _ = true

abbrev pub at_least : Json → Json → Bool
at_least (number least) (array vs) = leb_ℤ least (pos (count vs))
at_least _ _ = true

abbrev pub at_most : Json → Json → Bool
at_most (number most) (array vs) = leb_ℤ (pos (count vs)) most
at_most _ _ = true

abbrev pub is_among : Json → Json → Bool
is_among (array values) v = any_element (same_value v) values
is_among _ _ = true

abbrev pub on_items : (Json → Bool) → Json → Bool
on_items test (array vs) = all_elements test vs
on_items test _ = true

abbrev pub on_member : (Json → Bool) → String → Json → Bool
on_member test key (object ms) = test_member test (get_member key ms)
on_member test key _ = true

unfoldable mutual
  -- The value passes the schema.
  pub accepts : Json → Json → Bool
  accepts (object keywords) v = accepts_all keywords keywords v
  accepts _ v = true

  pub accepts_all : (schema keywords : Members) → Json → Bool
  accepts_all schema no_members v = true
  accepts_all schema (member key s keywords) v =
      let items = on_items (accepts s) v in
      let properties = accepts_properties s v in
      let rest = accepts_all schema keywords v in
      (if key == "type"
        then has_type s v
        else if key == "required"
        then has_members s v
        else if key == "additionalProperties"
        then only_known (get_member "properties" schema) v
        else if key == "minItems"
        then at_least s v
        else if key == "maxItems"
        then at_most s v
        else if key == "enum"
        then is_among s v
        else if key == "items"
        then items
        else if key == "properties"
        then properties
        else true)
      && rest

  pub accepts_properties : Json → Json → Bool
  accepts_properties (object properties) v = accepts_members properties v
  accepts_properties _ v = true

  pub accepts_members : Members → Json → Bool
  accepts_members no_members v = true
  accepts_members (member key s properties) v =
      on_member (accepts s) key v && accepts_members properties v
