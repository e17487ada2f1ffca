-- ===== src/Http/BodyShape.antt =====
-- internal/infra/http/request_body_shape.go: one pass over the tokens of a JSON request body. The
-- decoder of encoding/json/jsontext is the list of the tokens that it yields, with a flag that says
-- whether the text then ends or is malformed. A bitset is the list of the positions of its bits: a
-- compiled shape has at most 64 properties, so no bit is shifted out.
pub mod Document
pub mod Decides
pub mod Halts
pub mod Compile
pub mod Built
pub mod Lookups
pub mod Integers
pub mod Admits
pub mod Request
mod Tests
use go_service_template_rest.Base.{
  ℕ, zero, suc, ◌+◌, ◌*◌, ◌-◌, ◌≤◌, ◌^◌, Bool, true, false, ◌||◌, ◌&&◌, not, List, [], ◌∷◌, Option,
  none, some, Bytes, if◌then◌else◌, ◌==◌, leb, ltb, length, eq_bytes,
}
use go_service_template_rest.Base.Int.{ℤ, pos, negsuc, leb_ℤ}

pub data Token : Type 0 where
  begin_object end_object begin_array end_array null_token : Token
  bool_token : Bool → Token
  -- A string, unquoted, and a number as it is written.
  text_token : Bytes → Token
  number_token : Bytes → Token

-- `bodyShape` and `bodyProperty`; `integer` has the int32 flag.
mutual
  pub data Shape : Type 0 where
    object : Properties → List ℕ → Bool → Shape
    array : Shape → Shape
    string number boolean : Shape
    integer : Bool → Shape

  pub data Properties : Type 0 where
    nil : Properties
    property : Bytes → Shape → Properties → Properties

-- `bodyShape.property`: the position of the name from `index` on, and its shape.
unfoldable pub find_property : Properties → Bytes → ℕ → Option (ℕ × Shape)
unfolding eq_bytes
find_property nil name index = none
find_property (property n shape properties) name index =
    if eq_bytes n name then some (index, shape) else find_property properties name (index + 1)

unfoldable pub has_bit : List ℕ → ℕ → Bool
has_bit [] i = false
has_bit (b ∷ bits) i = b == i || has_bit bits i

-- `seen&required == required`.
unfoldable pub has_bits : List ℕ → List ℕ → Bool
unfolding has_bit
has_bits seen [] = true
has_bits seen (b ∷ bits) = has_bit seen b && has_bits seen bits

abbrev pub max_exact_integer_digits : ℕ
max_exact_integer_digits = 15

-- The loop of `exactInteger`. Fifteen digits stay below 2^63.
unfoldable pub digits_value : ℕ → Bytes → Option ℕ
digits_value value [] = some value
digits_value value (digit ∷ digits) =
    if ltb digit b'0' || ltb b'9' digit
    then none
    else digits_value (value * 10 + (digit - b'0')) digits

abbrev pub negate : ℕ → ℤ
negate zero = pos 0
negate (suc n) = negsuc n

abbrev pub min_int32 : ℤ
min_int32 = negsuc (2 ^ 31 - 1)

abbrev pub max_int32 : ℤ
max_int32 = pos (2 ^ 31 - 1)

abbrev pub fits_int32 : ℤ → Bool
fits_int32 z = leb_ℤ min_int32 z && leb_ℤ z max_int32

-- `exactInteger` behind the sign.
unfoldable pub exact_digits : Bool → (ℕ → ℤ) → Bytes → Bool
unfolding digits_value
exact_digits int32 signed digits =
    if length digits == 0 || ltb max_exact_integer_digits (length digits)
    then false
    else elim (digits_value 0 digits) [
      | none ↦ false
      | some value ↦ not int32 || fits_int32 (signed value)
    ]

-- `exactInteger`.
unfoldable pub exact_integer : Bool → Bytes → Bool
unfolding exact_digits
exact_integer int32 [] = false
exact_integer int32 (c ∷ digits) =
    if c == b'-' then exact_digits int32 negate digits else exact_digits int32 pos (c ∷ digits)

-- Decoder.SkipValue, inside `open` containers of the value.
unfoldable pub skip_from : ℕ → List Token → Option (List Token)
skip_from level [] = none
skip_from level (begin_object ∷ ts) = skip_from (suc level) ts
skip_from level (begin_array ∷ ts) = skip_from (suc level) ts
skip_from zero (end_object ∷ ts) = none
skip_from zero (end_array ∷ ts) = none
skip_from (suc zero) (end_object ∷ ts) = some ts
skip_from (suc zero) (end_array ∷ ts) = some ts
skip_from (suc (suc level)) (end_object ∷ ts) = skip_from (suc level) ts
skip_from (suc (suc level)) (end_array ∷ ts) = skip_from (suc level) ts
skip_from zero (_ ∷ ts) = some ts
skip_from (suc level) (_ ∷ ts) = skip_from (suc level) ts

-- What a scan answers, with the tokens behind the value; `spent` is the end of the model's fuel.
pub data Scan : Type 0 where
  accepted : List Token → Scan
  refused spent : Scan

abbrev pub then_scan : Scan → (List Token → Scan) → Scan
then_scan (accepted rest) next = next rest
then_scan refused next = refused
then_scan spent next = spent

abbrev pub skipped : Option (List Token) → (List Token → Scan) → Scan
skipped none next = refused
skipped (some rest) next = next rest

-- Decoder.ReadToken answers io.EOF.
abbrev pub at_end : List Token → Bool → Bool
at_end [] ended = ended
at_end (t ∷ ts) ended = false

abbrev pub ends : Scan → Bool → Bool
ends (accepted rest) ended = at_end rest ended
ends refused ended = false
ends spent ended = false

-- Each token costs at most three steps.
abbrev pub fuel : List Token → ℕ
fuel ts = 3 * length ts + 1

-- strconv.ParseFloat takes the literal: it is not beyond the range of a float64.
module _ (in_range : Bytes → Bool) where
  -- `scan`, `scanObject` behind its first token, and the loop over an array.
  unfoldable mutual
    unfolding find_property has_bits skip_from exact_integer

    pub scan : ℕ → Shape → List Token → Scan
    scan zero shape ts = spent
    scan (suc f) (object properties required reject) (begin_object ∷ ts) =
        scan_members f properties required reject [] ts
    scan (suc f) (array items) (begin_array ∷ ts) = scan_items f items ts
    scan (suc f) string (text_token s ∷ ts) = accepted ts
    scan (suc f) boolean (bool_token b ∷ ts) = accepted ts
    scan (suc f) (integer int32) (number_token literal ∷ ts) =
        if exact_integer int32 literal then accepted ts else refused
    scan (suc f) number (number_token literal ∷ ts) =
        if in_range literal then accepted ts else refused
    scan (suc f) shape ts = refused

    pub scan_items : ℕ → Shape → List Token → Scan
    scan_items zero items ts = spent
    scan_items (suc f) items (end_array ∷ ts) = accepted ts
    scan_items (suc f) items ts = then_scan (scan f items ts) (λ rest. scan_items f items rest)

    pub scan_members : ℕ → Properties → List ℕ → Bool → List ℕ → List Token → Scan
    scan_members zero properties required reject seen ts = spent
    scan_members (suc f) properties required reject seen (text_token name ∷ ts) =
        scan_member f properties required reject seen (find_property properties name 0) ts
    scan_members (suc f) properties required reject seen (end_object ∷ ts) =
        if has_bits seen required then accepted ts else refused
    scan_members (suc f) properties required reject seen ts = refused

    pub scan_member :
        ℕ → Properties → List ℕ → Bool → List ℕ → Option (ℕ × Shape) → List Token → Scan
    scan_member zero properties required reject seen found ts = spent
    scan_member (suc f) properties required reject seen none ts =
        if reject
        then refused
        else skipped (skip_from 0 ts) (λ rest. scan_members f properties required reject seen rest)
    scan_member (suc f) properties required reject seen (some (index, shape)) ts =
        then_scan (scan f shape ts)
          (λ rest. scan_members f properties required reject (index ∷ seen) rest)

  -- `accepts`, on the tokens of the text and whether it then ends.
  unfoldable pub accepts : Shape → List Token → Bool → Bool
  unfolding scan
  accepts shape ts ended = ends (scan (fuel ts) shape ts) ended
