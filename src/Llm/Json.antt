-- ===== src/Llm/Json.antt =====
-- JSON values, as internal/llm builds them for `encoding/json`.
use self_imp_bin_eval.Base.{String, Bool, List, [], ◌∷◌}
use self_imp_bin_eval.Base.Int.{ℤ}

mutual
  -- A Go map is an object; `json.Marshal` sorts its members by key.
  pub data Json : Type 0 where
    text : String → Json
    number : ℤ → Json
    boolean : Bool → Json
    array : Elements → Json
    object : Members → Json

  pub data Elements : Type 0 where
    no_elements : Elements
    element : Json → Elements → Elements

  pub data Members : Type 0 where
    no_members : Members
    member : String → Json → Members → Members

abbrev pub elements : List Json → Elements
elements [] = no_elements
elements (v ∷ vs) = element v (elements vs)

abbrev pub members : List (String × Json) → Members
members [] = no_members
members ((key, v) ∷ vs) = member key v (members vs)

abbrev pub array_of : List Json → Json
array_of vs = array (elements vs)

abbrev pub object_of : List (String × Json) → Json
object_of vs = object (members vs)
