-- ===== src/Base/Decimal.antt =====
-- Decimal digits of native numbers, as package strconv writes and reads them.
use Prim.Native.Nat.{ℕ, zero, suc, ◌+◌, ◌-◌, ◌*◌, ◌/◌, ◌%◌, ◌^◌, ◌≤◌, ◌<◌}
use mathlib.Core.Path.{◌≡◌, refl, sym, ap, ◌∙◌}
use mathlib.Core.Logic.{inl, inr}
use mathlib.Core.List.{[], ◌∷◌, ◌++◌}
use native.Mathlib.Omega.{arith}
use native.Mathlib.Nat.{pow-suc}
use go_service_template_rest.Base.Tests.{ltb, if◌then◌else◌, Bool-cases, ltb→lt}
use go_service_template_rest.Base.Lists.{Bytes, All}
use go_service_template_rest.Base.Int.{ℤ, pos, negsuc}

-- The digits of a number, at most as many as the fuel.
unfoldable pub decimal_fuel : ℕ → ℕ → Bytes
decimal_fuel zero n = []
decimal_fuel (suc fuel) n =
    let more = decimal_fuel fuel (n / 10) in
    if ltb n 10 then (48 + n) ∷ [] else more ++ (48 + n % 10) ∷ []

-- A uint64 has at most twenty digits.
unfoldable pub format_uint : ℕ → Bytes
unfolding decimal_fuel
format_uint n = decimal_fuel 20 n

-- `strconv.FormatInt` in base 10.
unfoldable pub format_int : ℤ → Bytes
unfolding format_uint
format_int (pos n) = format_uint n
format_int (negsuc n) = b'-' ∷ format_uint (suc n)

-- The number that digits spell, behind a number that was read.
unfoldable pub value_from : ℕ → Bytes → ℕ
value_from n [] = n
value_from n (c ∷ s) = value_from (10 * n + (c - 48)) s

value_from-append : (n : ℕ) (s t : Bytes) → value_from n (s ++ t) ≡ value_from (value_from n s) t
unfolding value_from
value_from-append n [] t = refl
value_from-append n (c ∷ s) t = value_from-append (10 * n + (c - 48)) s t

abbrev pub IsDigit : ℕ → Type 0
IsDigit c = (48 ≤ c) × (c ≤ 57)

All-snoc : (s : Bytes) (c : ℕ) → All IsDigit s → IsDigit c → All IsDigit (s ++ c ∷ [])
All-snoc [] c h d = (d, tt)
All-snoc (x ∷ s) c (first, rest) d = (first, All-snoc s c rest d)

pub decimal_fuel-digits : (fuel n : ℕ) → All IsDigit (decimal_fuel fuel n)
unfolding decimal_fuel
decimal_fuel-digits zero n = tt
decimal_fuel-digits (suc fuel) n = elim (Bool-cases (ltb n 10)) [
  | inl e ↦ let small = ltb→lt n 10 e in rw e (omega arith, tt)
  | inr e ↦ rw e (All-snoc _ _ (decimal_fuel-digits fuel (n / 10)) (omega arith))
]

pub value_from-decimal_fuel : (fuel n : ℕ) → n < 10 ^ fuel → value_from 0 (decimal_fuel fuel n) ≡ n
unfolding decimal_fuel value_from
value_from-decimal_fuel zero n h = omega arith
value_from-decimal_fuel (suc fuel) n h = elim (Bool-cases (ltb n 10)) [
  | inl e ↦ rw e (omega arith)
  | inr e ↦ rw e (
      value_from-append 0 (decimal_fuel fuel (n / 10)) ((48 + n % 10) ∷ [])
      ∙ omega (arith, value_from-decimal_fuel fuel (n / 10) (omega (arith, pow-suc 10 fuel))))
]

pub value_from-format_uint : (n : ℕ) → n < 10 ^ 20 → value_from 0 (format_uint n) ≡ n
unfolding format_uint
value_from-format_uint n h = value_from-decimal_fuel 20 n h

pub format_uint-injective :
    (n m : ℕ) → n < 10 ^ 20 → m < 10 ^ 20 → format_uint n ≡ format_uint m → n ≡ m
format_uint-injective n m hn hm e =
    sym (value_from-format_uint n hn) ∙ ap (value_from 0) e ∙ value_from-format_uint m hm
