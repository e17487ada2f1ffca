-- ===== src/Http/BodyShape/Built.antt =====
-- What compilation found in a schema.
use go_service_template_rest.Base.{
  ||-true, some-injective, ℕ, ◌≡◌, ◌⊎◌, inl, inr, refl, ap, subst, Bool, true, false, ◌||◌, List,
  [], ◌∷◌, Option, none, some, Bytes, codes, if◌then◌else◌, ◌==◌, length, eq_bytes, eq_bytes→eq,
  arith,
}
use go_service_template_rest.Http.BodyShape.{
  Shape, Properties, object, array, string, number, boolean, integer,
}
use go_service_template_rest.Http.BodyShape.Compile.{
  Schema, reject_unknown, compile_properties, required_bits, object_of, compile_object, array_of,
  without_format, compile_integer, compile_type, single_type, compile_single, compile_node,
  has_type,
}

-- What compilation found in a schema, by the shape that it gave.
abbrev pub Built : (ℕ → Option Shape) → Schema → Shape → Type 0
Built compile s (object properties bits reject) =
    (has_type s (codes "object") ≡ true)
    × (compile_properties compile s.properties ≡ some properties)
    × (required_bits properties s.required ≡ some bits)
    × (reject_unknown s.additional_has ≡ reject)
Built compile s (array items) = (has_type s (codes "array") ≡ true) × (compile s.items ≡ some items)
Built compile s string = has_type s (codes "string") ≡ true
Built compile s number = has_type s (codes "number") ≡ true
Built compile s boolean = has_type s (codes "boolean") ≡ true
Built compile s (integer int32) =
    (has_type s (codes "integer") ≡ true) × (eq_bytes s.format (codes "int32") ≡ int32)

split_if :
    {A : Type 0} (b : Bool) (x y : Option A) (a : A)
    → (if b then x else y) ≡ some a
    → ((b ≡ true) × (x ≡ some a)) ⊎ (y ≡ some a)
split_if true x y a h = inl (refl, h)
split_if false x y a h = inr h

guarded :
    {A : Type 0} (b : Bool) (x : Option A) (a : A) → (if b then none else x) ≡ some a → x ≡ some a
guarded true x a h = cc
guarded false x a h = h

formatted :
    (s : Schema) (o : Option Shape) (shape : Shape)
    → without_format s o ≡ some shape
    → o ≡ some shape
formatted s o shape h = elim (split_if (length s.format == 0) o none shape h) [
  | inl both ↦ both.1
  | inr e ↦ cc
]

length-zero : (s : Bytes) → (length s == 0) ≡ true → s ≡ []
length-zero [] h = refl
length-zero (c ∷ s) h = absurd (ground arith)

module _ (compile : ℕ → Option Shape) (s : Schema) where
  integer-Built :
      (shape : Shape)
      → has_type s (codes "integer") ≡ true
      → compile_integer s.format ≡ some shape
      → Built compile s shape
  unfolding compile_integer eq_bytes
  integer-Built shape t h =
      elim (split_if (length s.format == 0 || eq_bytes s.format (codes "int64"))
        (some (integer false)) _ shape h) [
          | inl wide ↦ subst (Built compile s) (some-injective (integer false) shape wide.1) (
            t,
            elim (||-true (length s.format == 0) (eq_bytes s.format (codes "int64")) wide.0) [
              | inl e ↦ ap (λ f. eq_bytes f (codes "int32")) (length-zero s.format e)
              | inr e ↦
                  ap (λ f. eq_bytes f (codes "int32")) (eq_bytes→eq s.format (codes "int64") e)
            ],
          )
          | inr rest ↦
              elim (split_if (eq_bytes s.format (codes "int32")) (some (integer true)) none shape
                rest) [
                  | inl narrow ↦
                      subst (Built compile s) (some-injective (integer true) shape narrow.1)
                        (t, narrow.0)
                  | inr e ↦ cc
                ]
        ]

  array-Built :
      (o : Option Shape) (shape : Shape)
      → has_type s (codes "array") ≡ true
      → compile s.items ≡ o
      → array_of o ≡ some shape
      → Built compile s shape
  array-Built none shape t e h = cc
  array-Built (some items) shape t e h =
      subst (Built compile s) (some-injective (array items) shape h) (t, e)

  bits-Built :
      (properties : Properties) (bits : Option (List ℕ)) (shape : Shape)
      → has_type s (codes "object") ≡ true
      → compile_properties compile s.properties ≡ some properties
      → required_bits properties s.required ≡ bits
      → elim bits [
        | none ↦ none
        | some b ↦ some (object properties b (reject_unknown s.additional_has))
      ]
        ≡ some shape
      → Built compile s shape
  bits-Built properties none shape t p b h = cc
  bits-Built properties (some bits) shape t p b h =
      subst (Built compile s) (some-injective _ shape h) (t, p, b, refl)

  object-Built :
      (o : Option Properties) (shape : Shape)
      → has_type s (codes "object") ≡ true
      → compile_properties compile s.properties ≡ o
      → object_of (reject_unknown s.additional_has) s.required o ≡ some shape
      → Built compile s shape
  unfolding object_of
  object-Built none shape t p h = cc
  object-Built (some properties) shape t p h =
      bits-Built properties (required_bits properties s.required) shape t p refl h

  typed :
      (type name : Bytes)
      → single_type s.types ≡ some type
      → eq_bytes type name ≡ true
      → has_type s name ≡ true
  typed type name single e = rw (single, has_type) e

  type-Built :
      (type : Bytes) (shape : Shape)
      → single_type s.types ≡ some type
      → compile_type compile s type ≡ some shape
      → Built compile s shape
  unfolding compile_type compile_object
  type-Built type shape single h = elim (split_if (eq_bytes type (codes "integer")) _ _ shape h) [
    | inl (e, x) ↦ integer-Built shape (typed type _ single e) x
    | inr h1 ↦ elim (split_if (eq_bytes type (codes "number")) _ _ shape h1) [
      | inl (e, x) ↦
          subst (Built compile s) (some-injective number shape (formatted s _ shape x))
            (typed type _ single e)
      | inr h2 ↦ elim (split_if (eq_bytes type (codes "string")) _ _ shape h2) [
        | inl (e, x) ↦
            subst (Built compile s) (some-injective string shape (formatted s _ shape x))
              (typed type _ single e)
        | inr h3 ↦ elim (split_if (eq_bytes type (codes "boolean")) _ _ shape h3) [
          | inl (e, x) ↦
              subst (Built compile s) (some-injective boolean shape (formatted s _ shape x))
                (typed type _ single e)
          | inr h4 ↦ elim (split_if (eq_bytes type (codes "array")) _ _ shape h4) [
            | inl (e, x) ↦
                array-Built (compile s.items) shape (typed type _ single e) refl
                  (formatted s _ shape x)
            | inr h5 ↦ elim (split_if (eq_bytes type (codes "object")) _ _ shape h5) [
              | inl (e, x) ↦
                  object-Built _ shape (typed type _ single e) refl
                    (guarded _ _ shape (formatted s _ shape x))
              | inr e ↦ cc
            ]
          ]
        ]
      ]
    ]
  ]

  single-Built :
      (type : Option Bytes) (shape : Shape)
      → single_type s.types ≡ type
      → compile_single compile s type ≡ some shape
      → Built compile s shape
  unfolding compile_single
  single-Built none shape e h = cc
  single-Built (some type) shape e h = type-Built type shape e h

pub node-Built :
    (compile : ℕ → Option Shape) (node : Option Schema) (shape : Shape)
    → compile_node compile node ≡ some shape
    → (s : Schema) × (node ≡ some s) × Built compile s shape
unfolding compile_node
node-Built compile none shape h = cc
node-Built compile (some s) shape h = (
  s,
  refl,
  single-Built compile s (single_type s.types) shape refl (guarded s.other_fields _ shape h),
)
