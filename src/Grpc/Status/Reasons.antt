-- ===== src/Grpc/Status/Reasons.antt =====
-- The reason that a caller reads as data: the code of the failure in upper case.
use go_service_template_rest.Base.{
  ||-true, ℕ, ◌≡◌, inl, inr, refl, ap, ◌∙◌, subst, Bool, true, false, ◌&&◌, ◌||◌, not, List, [],
  ◌∷◌, Bytes, leb, length, eq_bytes, eq_bytes→eq, &&-true, arith,
}
use go_service_template_rest.Failure.{Code, contains, all_codes}
use go_service_template_rest.Grpc.Status.{upper_byte, to_upper}

abbrev is_upper : ℕ → Bool
is_upper c = leb b'A' c && leb c b'Z'

abbrev is_digit : ℕ → Bool
is_digit c = leb b'0' c && leb c b'9'

-- "[A-Z0-9_]+[A-Z0-9]".
unfoldable pub ends_well : Bytes → Bool
ends_well [] = false
ends_well (c ∷ []) = false
ends_well (c ∷ d ∷ []) =
    (is_upper c || is_digit c || leb c b'_' && leb b'_' c) && (is_upper d || is_digit d)
ends_well (c ∷ d ∷ e ∷ s) =
    (is_upper c || is_digit c || leb c b'_' && leb b'_' c) && ends_well (d ∷ e ∷ s)

-- What google.rpc.ErrorInfo asks of a reason: "[A-Z][A-Z0-9_]+[A-Z0-9]", of at most 63 characters.
unfoldable pub is_reason : Bytes → Bool
unfolding ends_well
is_reason [] = false
is_reason (c ∷ s) = is_upper c && ends_well s && leb (length s) 62

unfoldable no_upper : Bytes → Bool
no_upper [] = true
no_upper (c ∷ s) = not (is_upper c) && no_upper s

-- Every published code.
unfoldable all_fit : List Code → Bool
unfolding is_reason no_upper to_upper
all_fit [] = true
all_fit (c ∷ cs) = (is_reason (to_upper c) && no_upper c) && all_fit cs

all_codes_fit : all_fit all_codes ≡ true
unfolding all_fit all_codes upper_byte
all_codes_fit = refl

published-fits :
    (cs : List Code) (c : Code)
    → all_fit cs ≡ true
    → contains cs c ≡ true
    → (is_reason (to_upper c) ≡ true) × (no_upper c ≡ true)
unfolding all_fit contains
published-fits [] c fit h = cc
published-fits (d ∷ cs) c fit h =
    let (of_d, rest) = &&-true (is_reason (to_upper d) && no_upper d) (all_fit cs) fit in
    elim (||-true (eq_bytes d c) (contains cs c) h) [
      | inl e ↦
          subst (λ x. (is_reason (to_upper x) ≡ true) × (no_upper x ≡ true)) (eq_bytes→eq d c e)
            (&&-true (is_reason (to_upper d)) (no_upper d) of_d)
      | inr e ↦ published-fits cs c rest e
    ]

upper_byte-injective :
    (a b : ℕ)
    → not (is_upper a) ≡ true
    → not (is_upper b) ≡ true
    → upper_byte a ≡ upper_byte b
    → a ≡ b
unfolding upper_byte
upper_byte-injective a b p q h = ground arith

to_upper-injective :
    (s t : Bytes) → no_upper s ≡ true → no_upper t ≡ true → to_upper s ≡ to_upper t → s ≡ t
unfolding no_upper to_upper
to_upper-injective [] [] p q h = refl
to_upper-injective [] (d ∷ t) p q h = cc
to_upper-injective (c ∷ s) [] p q h = cc
to_upper-injective (c ∷ s) (d ∷ t) p q h =
    let (pc, ps) = &&-true (not (is_upper c)) (no_upper s) p in
    let (qd, qt) = &&-true (not (is_upper d)) (no_upper t) q in
    let here : upper_byte c ≡ upper_byte d = cc in
    let rest : to_upper s ≡ to_upper t = cc in
    let same = upper_byte-injective c d pc qd here in
    let more = to_upper-injective s t ps qt rest in ap (λ x. x ∷ s) same ∙ ap (λ x. d ∷ x) more

-- The reason of every published code has the form that google.rpc.ErrorInfo asks for, and two
-- published codes with the same reason are the same code.
pub to_upper-reasons :
    (c d : Code)
    → contains all_codes c ≡ true
    → contains all_codes d ≡ true
    → (is_reason (to_upper c) ≡ true) × (to_upper c ≡ to_upper d → c ≡ d)
to_upper-reasons c d p q =
    let (reason, low_c) = published-fits all_codes c all_codes_fit p in
    let (other, low_d) = published-fits all_codes d all_codes_fit q in
    (reason, to_upper-injective c d low_c low_d)
