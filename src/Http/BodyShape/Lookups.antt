-- ===== src/Http/BodyShape/Lookups.antt =====
-- What is looked up by name: the properties of a shape, the references they were compiled from, and the
-- members of an object.
use go_service_template_rest.Base.{
  some-injective, ||-true, ||-right, ℕ, ◌+◌, ◌≤◌, ◌≡◌, inl, inr, refl, sym, ◌∙◌, subst, true, ◌&&◌,
  List, [], ◌∷◌, Option, none, some, Bytes, if◌then◌else◌, ◌==◌, eq_bytes, eq_bytes→eq,
  eq_bytes_refl, arith, Bool-cases, &&-true,
}
use go_service_template_rest.Http.BodyShape.{Shape, Properties, nil, property, find_property}
use go_service_template_rest.Http.BodyShape.Document.{
  Members, no_members, member, is_index, has_member, all_present,
}
use go_service_template_rest.Http.BodyShape.Compile.{
  compile_properties, required_bits, find_ref, has_name, all_named,
}

-- The property that is found and the reference under its name agree.
abbrev pub Agree : (ℕ → Option Shape) → Option (ℕ × Shape) → Option ℕ → Type 0
Agree compile none none = Unit
Agree compile none (some ref) = ⊥
Agree compile (some found) none = ⊥
Agree compile (some (index, shape)) (some ref) = compile ref ≡ some shape

properties-cons :
    (compile : ℕ → Option Shape) (name : Bytes) (o : Option Shape) (more : Option Properties)
    (properties : Properties)
    → elim o [
      | none ↦ none
      | some shape ↦ elim more [ none ↦ none | some rest ↦ some (property name shape rest) ]
    ]
      ≡ some properties
    → (shape : Shape) × (rest : Properties) × (o ≡ some shape)
      × (more ≡ some rest)
      × (property name shape rest ≡ properties)
properties-cons compile name none more properties h = cc
properties-cons compile name (some shape) none properties h = cc
properties-cons compile name (some shape) (some rest) properties h =
    (shape, rest, refl, refl, some-injective _ properties h)

pub find-Agree :
    (compile : ℕ → Option Shape) (refs : List (Bytes × ℕ)) (properties : Properties) (name : Bytes)
    (index : ℕ)
    → compile_properties compile refs ≡ some properties
    → Agree compile (find_property properties name index) (find_ref refs name)
unfolding compile_properties find_property find_ref
find-Agree compile [] properties name index h =
    subst (λ p. Agree compile (find_property p name index) none) (some-injective nil properties h)
      tt
find-Agree compile ((n, ref) ∷ refs) properties name index h =
    let (shape, rest, compiled, others, same) =
      properties-cons compile n (compile ref) (compile_properties compile refs) properties h in
    subst
      (λ p.
        Agree compile (find_property p name index)
          (if eq_bytes n name then some ref else find_ref refs name))
      same
      (elim (Bool-cases (eq_bytes n name)) [
        | inl e ↦ rw e compiled
        | inr e ↦ rw e (find-Agree compile refs rest name (index + 1) others)
      ])

index-le :
    (properties : Properties) (name : Bytes) (k i : ℕ)
    → is_index (find_property properties name k) i ≡ true
    → k ≤ i
unfolding find_property
index-le nil name k i h = cc
index-le (property n shape rest) name k i h = elim (Bool-cases (eq_bytes n name)) [
  | inl e ↦ let at : (k == i) ≡ true = rw e at h in ground arith
  | inr e ↦ let later = index-le rest name (k + 1) i (rw e at h) in omega arith
]

-- One position has one name.
index-name :
    (properties : Properties) (a b : Bytes) (k i : ℕ)
    → is_index (find_property properties a k) i ≡ true
    → is_index (find_property properties b k) i ≡ true
    → a ≡ b
unfolding find_property
index-name nil a b k i p q = cc
index-name (property n shape rest) a b k i p q = elim (Bool-cases (eq_bytes n a)) [
  | inl e ↦ elim (Bool-cases (eq_bytes n b)) [
    | inl f ↦ sym (eq_bytes→eq n a e) ∙ eq_bytes→eq n b f
    | inr f ↦
        let here : (k == i) ≡ true = rw e at p in
        let later = index-le rest b (k + 1) i (rw f at q) in absurd (ground arith)
  ]
  | inr e ↦ elim (Bool-cases (eq_bytes n b)) [
    | inl f ↦
        let here : (k == i) ≡ true = rw f at q in
        let later = index-le rest a (k + 1) i (rw e at p) in absurd (ground arith)
    | inr f ↦ index-name rest a b (k + 1) i (rw e at p) (rw f at q)
  ]
]

member-name :
    (properties : Properties) (ms : Members) (name : Bytes) (i : ℕ)
    → is_index (find_property properties name 0) i ≡ true
    → has_member properties ms i ≡ true
    → has_name ms name ≡ true
unfolding has_member has_name
member-name properties no_members name i p h = cc
member-name properties (member n v ms) name i p h =
    elim (||-true (is_index (find_property properties n 0) i) (has_member properties ms i) h) [
      | inl e ↦ rw (index-name properties n name 0 i e p, eq_bytes_refl name) refl
      | inr e ↦ ||-right (eq_bytes n name) _ (member-name properties ms name i p e)
    ]

bits-cons :
    (properties : Properties) (found : Option (ℕ × Shape)) (more : Option (List ℕ)) (bits : List ℕ)
    → elim found [
      | none ↦ none
      | some (index, shape) ↦ elim more [ none ↦ none | some rest ↦ some (index ∷ rest) ]
    ]
      ≡ some bits
    → (i : ℕ) × (rest : List ℕ) × (is_index found i ≡ true) × (more ≡ some rest) × (i ∷ rest ≡ bits)
bits-cons properties none more bits h = cc
bits-cons properties (some (index, shape)) none bits h = cc
bits-cons properties (some (index, shape)) (some rest) bits h =
    (index, rest, ground arith, refl, some-injective _ bits h)

pub required-named :
    (properties : Properties) (names : List Bytes) (bits : List ℕ) (ms : Members)
    → required_bits properties names ≡ some bits
    → all_present properties bits ms ≡ true
    → all_named ms names ≡ true
unfolding required_bits all_named all_present
required-named properties [] bits ms h present = refl
required-named properties (name ∷ names) bits ms h present =
    let (i, rest, at_i, others, same) =
      bits-cons properties (find_property properties name 0) (required_bits properties names) bits
        h in
    let all : (has_member properties ms i && all_present properties rest ms) ≡ true =
      subst (λ b. all_present properties b ms ≡ true) (sym same) present in
    let (first, more) = &&-true (has_member properties ms i) (all_present properties rest ms) all in
    rw
      (
        member-name properties ms name i at_i first,
        required-named properties names rest ms others more,
      )
      refl
