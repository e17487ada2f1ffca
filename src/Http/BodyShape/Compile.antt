-- ===== src/Http/BodyShape/Compile.antt =====
-- Compilation of a schema of kin-openapi to a shape, and what the schema says of a document. Schemas
-- are nodes that refer to one another, so a schema may contain itself.
use go_service_template_rest.Base.{
  ℕ, zero, suc, ◌+◌, Bool, true, false, ◌||◌, ◌&&◌, not, List, [], ◌∷◌, Option, none, some, Bytes,
  codes, if◌then◌else◌, ◌==◌, ltb, length, eq_bytes,
}
use go_service_template_rest.Base.Int.{ℤ, pos}
use go_service_template_rest.Http.BodyShape.{
  Shape, Properties, object, array, string, number, boolean, integer, nil, property, find_property,
  digits_value, negate, fits_int32,
}
use go_service_template_rest.Http.BodyShape.Document.{
  Json, null, bool, num, text, arr, obj, Items, no_items, item, Members, no_members, member,
}

-- What is read of openapi3.Schema. `additional_has` is nil where additionalProperties is not a Bool;
-- `other_fields` says that some field is set that is not in `structuralSchemaFields`.
pub record Schema : Type 0 where
  pub types : List Bytes
  pub format : Bytes
  pub properties : List (Bytes × ℕ)
  pub required : List Bytes
  pub items : ℕ
  pub additional_schema : Bool
  pub additional_has : Option Bool
  pub other_fields : Bool

-- `none` is a reference that is nil or has no value.
abbrev pub Schemas : Type 0
Schemas = ℕ → Option Schema

abbrev pub max_shape_depth : ℕ
max_shape_depth = 32

abbrev pub max_shape_properties : ℕ
max_shape_properties = 64

abbrev pub reject_unknown : Option Bool → Bool
reject_unknown none = false
reject_unknown (some has) = not has

-- The loop over schema.Properties.
unfoldable pub compile_properties : (ℕ → Option Shape) → List (Bytes × ℕ) → Option Properties
compile_properties compile [] = some nil
compile_properties compile ((name, ref) ∷ rest) = elim (compile ref) [
  | none ↦ none
  | some shape ↦ elim (compile_properties compile rest) [
    | none ↦ none
    | some properties ↦ some (property name shape properties)
  ]
]

-- The loop over schema.Required.
unfoldable pub required_bits : Properties → List Bytes → Option (List ℕ)
unfolding find_property
required_bits properties [] = some []
required_bits properties (name ∷ names) = elim (find_property properties name 0) [
  | none ↦ none
  | some (index, shape) ↦ elim (required_bits properties names) [
    | none ↦ none
    | some bits ↦ some (index ∷ bits)
  ]
]

unfoldable pub object_of : Bool → List Bytes → Option Properties → Option Shape
unfolding required_bits
object_of reject required none = none
object_of reject required (some properties) = elim (required_bits properties required) [
  | none ↦ none
  | some bits ↦ some (object properties bits reject)
]

-- `compileObjectShape`.
unfoldable pub compile_object : (ℕ → Option Shape) → Schema → Option Shape
unfolding object_of compile_properties
compile_object compile s =
    if s.additional_schema || ltb max_shape_properties (length s.properties)
    then none
    else object_of (reject_unknown s.additional_has) s.required
        (compile_properties compile s.properties)

abbrev pub array_of : Option Shape → Option Shape
array_of none = none
array_of (some items) = some (array items)

-- The check of the format behind the switch.
abbrev pub without_format : Schema → Option Shape → Option Shape
without_format s shape = if length s.format == 0 then shape else none

unfoldable pub compile_integer : Bytes → Option Shape
unfolding eq_bytes
compile_integer format =
    if length format == 0 || eq_bytes format (codes "int64")
    then some (integer false)
    else if eq_bytes format (codes "int32")
    then some (integer true)
    else none

-- The switch of `compileBodyShape`.
unfoldable pub compile_type : (ℕ → Option Shape) → Schema → Bytes → Option Shape
unfolding compile_integer compile_object eq_bytes
compile_type compile s type =
    if eq_bytes type (codes "integer")
    then compile_integer s.format
    else if eq_bytes type (codes "number")
    then without_format s (some number)
    else if eq_bytes type (codes "string")
    then without_format s (some string)
    else if eq_bytes type (codes "boolean")
    then without_format s (some boolean)
    else if eq_bytes type (codes "array")
    then without_format s (array_of (compile s.items))
    else if eq_bytes type (codes "object")
    then without_format s (compile_object compile s)
    else none

abbrev pub single_type : List Bytes → Option Bytes
single_type (type ∷ []) = some type
single_type _ = none

unfoldable pub compile_single : (ℕ → Option Shape) → Schema → Option Bytes → Option Shape
unfolding compile_type
compile_single compile s none = none
compile_single compile s (some type) = compile_type compile s type

unfoldable pub compile_node : (ℕ → Option Shape) → Option Schema → Option Shape
unfolding compile_single
compile_node compile none = none
compile_node compile (some s) =
    if s.other_fields then none else compile_single compile s (single_type s.types)

-- `compileBodyShape`, with the levels that are left before the depth passes `max_shape_depth`.
unfoldable pub compile_body_shape : Schemas → ℕ → ℕ → Option Shape
unfolding compile_node
compile_body_shape schemas zero ref = none
compile_body_shape schemas (suc left) ref =
    compile_node (compile_body_shape schemas left) (schemas ref)

-- The references of a request body start at depth zero.
abbrev pub levels : ℕ
levels = max_shape_depth + 1

unfoldable pub find_ref : List (Bytes × ℕ) → Bytes → Option ℕ
unfolding eq_bytes
find_ref [] name = none
find_ref ((n, ref) ∷ rest) name = if eq_bytes n name then some ref else find_ref rest name

unfoldable pub has_name : Members → Bytes → Bool
unfolding eq_bytes
has_name no_members name = false
has_name (member n v ms) name = eq_bytes n name || has_name ms name

unfoldable pub all_named : Members → List Bytes → Bool
unfolding has_name
all_named ms [] = true
all_named ms (name ∷ names) = has_name ms name && all_named ms names

-- The integer that a literal spells, if it spells one.
abbrev pub signed_digits : (ℕ → ℤ) → Option ℕ → Option ℤ
signed_digits signed none = none
signed_digits signed (some n) = some (signed n)

unfoldable pub integer_value : Bytes → Option ℤ
unfolding digits_value
integer_value [] = none
integer_value (c ∷ digits) =
    if c == b'-'
    then signed_digits negate (digits_value 0 digits)
    else signed_digits pos (digits_value 0 (c ∷ digits))

unfoldable pub fits_format : Bytes → Option ℤ → Bool
unfolding eq_bytes
fits_format format none = false
fits_format format (some z) = not (eq_bytes format (codes "int32")) || fits_int32 z

abbrev pub has_type : Schema → Bytes → Bool
has_type s type = elim (single_type s.types) [ none ↦ false | some t ↦ eq_bytes t type ]

-- Whether additionalProperties lets a member stand that no property names.
abbrev pub extra_allowed : Option Bool → Bool
extra_allowed none = true
extra_allowed (some has) = has

-- What the keywords of a schema say of a document: `type` with its `format`, `items`, `properties`,
-- `required` and `additionalProperties: false`.
module _ (in_range : Bytes → Bool) (schemas : Schemas) where
  unfoldable mutual
    unfolding find_ref all_named integer_value fits_format

    pub allows : Schema → Json → Bool
    allows s null = false
    allows s (text t) = has_type s (codes "string")
    allows s (bool b) = has_type s (codes "boolean")
    allows s (num n) =
        (has_type s (codes "number") && in_range n)
        || (has_type s (codes "integer") && fits_format s.format (integer_value n))
    allows s (arr xs) = has_type s (codes "array") && items_allowed (schemas s.items) xs
    allows s (obj ms) =
        has_type s (codes "object") && (members_allowed s ms && all_named ms s.required)

    pub items_allowed : Option Schema → Items → Bool
    items_allowed s no_items = true
    items_allowed s (item x xs) =
        elim s [ none ↦ false | some node ↦ allows node x ] && items_allowed s xs

    pub members_allowed : Schema → Members → Bool
    members_allowed s no_members = true
    members_allowed s (member name v ms) =
        elim (find_ref s.properties name) [
          | none ↦ extra_allowed s.additional_has
          | some ref ↦ elim (schemas ref) [ none ↦ false | some node ↦ allows node v ]
        ]
        && members_allowed s ms
