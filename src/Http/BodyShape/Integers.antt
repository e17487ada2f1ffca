-- ===== src/Http/BodyShape/Integers.antt =====
-- The integers that a shape admits are in the range of the format.
use go_service_template_rest.Base.{
  ℕ, ◌≡◌, inl, inr, refl, Bool, true, false, ◌||◌, ◌&&◌, not, [], ◌∷◌, Option, none, some, Bytes,
  codes, if◌then◌else◌, ◌==◌, ltb, length, eq_bytes, Bool-cases,
}
use go_service_template_rest.Base.Int.{ℤ, pos}
use go_service_template_rest.Http.BodyShape.{
  digits_value, negate, fits_int32, exact_integer, exact_digits, max_exact_integer_digits,
}
use go_service_template_rest.Http.BodyShape.Compile.{signed_digits, integer_value, fits_format}

not-guarded : (b x : Bool) → (if b then false else x) ≡ true → x ≡ true
not-guarded true x h = cc
not-guarded false x h = h

pub and-intro : (a b : Bool) → a ≡ true → b ≡ true → (a && b) ≡ true
and-intro a b p q = rw (p, q) refl

digits-fit :
    (format : Bytes) (int32 : Bool) (signed : ℕ → ℤ) (o : Option ℕ)
    → eq_bytes format (codes "int32") ≡ int32
    → elim o [ none ↦ false | some value ↦ not int32 || fits_int32 (signed value) ] ≡ true
    → fits_format format (signed_digits signed o) ≡ true
unfolding fits_format
digits-fit format int32 signed none e h = cc
digits-fit format int32 signed (some value) e h = rw e h

exact-fit :
    (format : Bytes) (int32 : Bool) (signed : ℕ → ℤ) (digits : Bytes)
    → eq_bytes format (codes "int32") ≡ int32
    → exact_digits int32 signed digits ≡ true
    → fits_format format (signed_digits signed (digits_value 0 digits)) ≡ true
unfolding exact_digits
exact-fit format int32 signed digits e h =
    digits-fit format int32 signed (digits_value 0 digits) e
      (not-guarded (length digits == 0 || ltb max_exact_integer_digits (length digits)) _ h)

pub integer-fits :
    (format : Bytes) (int32 : Bool) (literal : Bytes)
    → eq_bytes format (codes "int32") ≡ int32
    → exact_integer int32 literal ≡ true
    → fits_format format (integer_value literal) ≡ true
unfolding exact_integer integer_value
integer-fits format int32 [] e h = cc
integer-fits format int32 (c ∷ digits) e h = elim (Bool-cases (c == b'-')) [
  | inl minus ↦ rw minus (exact-fit format int32 negate digits e (rw minus at h))
  | inr plain ↦ rw plain (exact-fit format int32 pos (c ∷ digits) e (rw plain at h))
]
