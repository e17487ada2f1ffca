-- ===== src/Jetstream/Headers.antt =====
-- What the headers hold behind `Set` and `carryIdentityHeaders`.
use go_service_template_rest.Base.{
  ◌≡◌, ◌⊎◌, inl, inr, refl, sym, ap, ◌∙◌, subst, Bool, true, false, ◌||◌, List, [], ◌∷◌, Bytes,
  if◌then◌else◌, ◌==◌, length, eq_bytes, eq_bytes→eq, arith, Bool-cases,
}
use go_service_template_rest.Jetstream.Wire.{Header, get, set}
use go_service_template_rest.Jetstream.DeadLetter.{carry}

-- Setting a name changes the value of that name alone.
pub get-set :
    (header : Header) (key value name : Bytes)
    → get (set header key value) name ≡ (if eq_bytes key name then value else get header name)
unfolding get set
get-set [] key value name = refl
get-set ((k, values) ∷ header) key value name = elim (Bool-cases (eq_bytes k key)) [
  | inl e ↦
      let same = eq_bytes→eq k key e in
      elim (Bool-cases (eq_bytes key name)) [
        | inl f ↦ rw (e, same, f) refl
        | inr f ↦ rw (e, same, f) refl
      ]
  | inr e ↦ elim (Bool-cases (eq_bytes key name)) [
    | inl g ↦
        let other : eq_bytes k name ≡ false =
          subst (λ n. eq_bytes k n ≡ false) (eq_bytes→eq key name g) e in
        rw (e, get-set header key value name, g, other) refl
    | inr g ↦ rw (e, get-set header key value name, g) refl
  ]
]

carry-nil :
    (header source : Header) (name : Bytes) → get (carry [] header source) name ≡ get header name
unfolding carry
carry-nil header source name = refl

unfoldable pub names_have : List Bytes → Bytes → Bool
unfolding eq_bytes
names_have [] name = false
names_have (n ∷ names) name = eq_bytes n name || names_have names name

-- One name of `carryIdentityHeaders`.
carry-one :
    (n : Bytes) (names : List Bytes) (header source : Header)
    → (length (get source n) == 0) ≡ true
    → carry (n ∷ names) header source ≡ carry names header source
unfolding carry
carry-one n names header source h = rw h refl

carry-set :
    (n : Bytes) (names : List Bytes) (header source : Header)
    → (length (get source n) == 0) ≡ false
    → carry (n ∷ names) header source ≡ carry names (set header n (get source n)) source
unfolding carry
carry-set n names header source h = rw h refl

length-zero : (s : Bytes) → (length s == 0) ≡ true → s ≡ []
length-zero [] h = refl
length-zero (c ∷ s) h = absurd (ground arith)

||-false : (a b : Bool) → a ≡ false → (a || b) ≡ true → b ≡ true
||-false true b p h = cc
||-false false b p h = h

-- The name has its value, or it is still to come.
abbrev pub IsCarried : List Bytes → Header → Header → Bytes → Type 0
IsCarried names header source name =
    (get header name ≡ get source name) ⊎ ((get header name ≡ []) × (names_have names name ≡ true))

carry-later :
    (n : Bytes) (names : List Bytes) (header source : Header) (name : Bytes)
    → eq_bytes n name ≡ false
    → IsCarried (n ∷ names) header source name
    → IsCarried names header source name
unfolding names_have
carry-later n names header source name e (inl h) = inl h
carry-later n names header source name e (inr h) =
    inr (h.0, ||-false (eq_bytes n name) (names_have names name) e h.1)

carry-blank :
    (n : Bytes) (names : List Bytes) (header source : Header) (name : Bytes)
    → get source n ≡ []
    → IsCarried (n ∷ names) header source name
    → IsCarried names header source name
carry-blank n names header source name blank (inl h) = inl h
carry-blank n names header source name blank (inr h) = elim (Bool-cases (eq_bytes n name)) [
  | inl e ↦ inl (h.0 ∙ sym blank ∙ ap (get source) (eq_bytes→eq n name e))
  | inr e ↦ carry-later n names header source name e (inr h)
]

carry-filled :
    (n : Bytes) (names : List Bytes) (header source : Header) (name : Bytes)
    → IsCarried (n ∷ names) header source name
    → IsCarried names (set header n (get source n)) source name
carry-filled n names header source name h = elim (Bool-cases (eq_bytes n name)) [
  | inl e ↦
      inl (get-set header n (get source n) name ∙ (rw e (ap (get source) (eq_bytes→eq n name e))))
  | inr e ↦
      let same : get (set header n (get source n)) name ≡ get header name =
        get-set header n (get source n) name ∙ (rw e refl) in
      subst (λ v. (v ≡ get source name) ⊎ ((v ≡ []) × (names_have names name ≡ true))) (sym same)
        (carry-later n names header source name e h)
]

-- A name is carried if it is among the names and not already there with another value.
pub carry-get :
    (names : List Bytes) (header source : Header) (name : Bytes)
    → IsCarried names header source name
    → get (carry names header source) name ≡ get source name
unfolding names_have
carry-get [] header source name (inl h) = carry-nil header source name ∙ h
carry-get [] header source name (inr h) = cc
carry-get (n ∷ names) header source name h = elim (Bool-cases (length (get source n) == 0)) [
  | inl blank ↦ rw (carry-one n names header source blank) (
      carry-get names header source name
        (carry-blank n names header source name (length-zero _ blank) h))
  | inr filled ↦ rw (carry-set n names header source filled) (
      carry-get names (set header n (get source n)) source name
        (carry-filled n names header source name h))
]
