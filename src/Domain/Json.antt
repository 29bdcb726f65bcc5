-- ===== src/Domain/Json.antt =====
-- Values of JSON, as `Record<string, unknown>` payloads hold them. A number stands by its text.
use labpics_id.Prelude.{Bool, Option, none, some, List, [], ◌∷◌, String, ◌==◌, if◌then◌else◌}

mutual
  pub data Json : Type 0 where
    null : Json
    boolean : Bool → Json
    number : String → Json
    text : String → Json
    array : Elements → Json
    object : Members → Json

  pub data Elements : Type 0 where
    no_elements : Elements
    element : Json → Elements → Elements

  pub data Members : Type 0 where
    no_members : Members
    member : String → Json → Members → Members

-- `o.k`; undefined if there is no such member.
unfoldable pub member_of : String → Members → Option Json
member_of k no_members = none
member_of k (member name v rest) = if name == k then some v else member_of k rest

-- `{...o, k: v}`
unfoldable pub with_member : String → Json → Members → Members
with_member k v no_members = member k v no_members
with_member k v (member name w rest) =
    let rest' = with_member k v rest in
    if name == k then member name v rest else member name w rest'

abbrev pub texts : List String → Elements
texts [] = no_elements
texts (s ∷ ss) = element (text s) (texts ss)

-- typeof v === "string" ? v : null
abbrev pub string_or_null : Option Json → Option String
string_or_null (some (text s)) = some s
string_or_null _ = none

-- v.filter((x) => typeof x === "string")
abbrev pub text_elements : Elements → List String
text_elements no_elements = []
text_elements (element (text s) rest) = s ∷ text_elements rest
text_elements (element _ rest) = text_elements rest

-- Array.isArray(v) ? v.filter(…) : []
abbrev pub string_array : Option Json → List String
string_array (some (array vs)) = text_elements vs
string_array _ = []
