-- ===== src/Base/Utf8.antt =====
-- Texts in UTF-8 as the repository tests them: whether a text is valid, and whether it has a control
-- character or white space in it.
use Prim.Native.Nat.{ℕ}
use mathlib.Core.Bool.{Bool, true, false, ◌&&◌, ◌||◌}
use mathlib.Core.Option.{Option, none, some}
use mathlib.Core.List.{List, [], ◌∷◌}
use go_service_template_rest.Base.Tests.{ltb, leb, ◌==◌, if◌then◌else◌}
use go_service_template_rest.Base.Lists.{Bytes}

-- The bytes that may follow a first byte of UTF-8, as ranges: none for a byte that starts nothing.
abbrev continuation : ℕ × ℕ
continuation = (0x80, 0xbf)

unfoldable pub ranges_after : ℕ → Option (List (ℕ × ℕ))
ranges_after c =
    if ltb c 0x80
    then some []
    else if ltb c 0xc2
    then none
    else if ltb c 0xe0
    then some (continuation ∷ [])
    else if c == 0xe0
    then some ((0xa0, 0xbf) ∷ continuation ∷ [])
    else if c == 0xed
    then some ((0x80, 0x9f) ∷ continuation ∷ [])
    else if ltb c 0xf0
    then some (continuation ∷ continuation ∷ [])
    else if c == 0xf0
    then some ((0x90, 0xbf) ∷ continuation ∷ continuation ∷ [])
    else if ltb c 0xf4
    then some (continuation ∷ continuation ∷ continuation ∷ [])
    else if c == 0xf4
    then some ((0x80, 0x8f) ∷ continuation ∷ continuation ∷ [])
    else none

-- utf8.ValidString, behind a prefix that leaves some ranges open.
unfoldable pub utf8_from : List (ℕ × ℕ) → Bytes → Bool
unfolding ranges_after
utf8_from [] [] = true
utf8_from (range ∷ ranges) [] = false
utf8_from [] (c ∷ s) = elim (ranges_after c) [ none ↦ false | some ranges ↦ utf8_from ranges s ]
utf8_from ((low, high) ∷ ranges) (c ∷ s) = leb low c && leb c high && utf8_from ranges s

-- unicode.IsControl of some rune of a text in UTF-8: below 0x20, 0x7f, and 0x80 to 0x9f, which is
-- 0xc2 and a byte.
unfoldable pub contains_control : Bytes → Bool
contains_control [] = false
contains_control (c ∷ []) = ltb c 0x20 || c == 0x7f
contains_control (c ∷ d ∷ s) =
    ltb c 0x20 || c == 0x7f || (c == 0xc2 && ltb d 0xa0) || contains_control (d ∷ s)

-- unicode.IsSpace of a rune of three bytes.
unfoldable pub is_wide_space : ℕ → ℕ → ℕ → Bool
is_wide_space c d e =
    (c == 0xe1 && d == 0x9a && e == 0x80)
    || (c == 0xe2 && d == 0x80 && (leb e 0x8a || e == 0xa8 || e == 0xa9 || e == 0xaf))
    || (c == 0xe2 && d == 0x81 && e == 0x9f)
    || (c == 0xe3 && d == 0x80 && e == 0x80)

-- unicode.IsSpace of some rune of a text in UTF-8. U+0085 and U+00A0 are 0xc2 and a byte.
unfoldable pub contains_space : Bytes → Bool
unfolding is_wide_space
contains_space [] = false
contains_space (c ∷ []) = (leb 0x9 c && leb c 0xd) || c == 0x20
contains_space (c ∷ d ∷ []) =
    (leb 0x9 c && leb c 0xd)
    || c == 0x20
    || (c == 0xc2 && (d == 0x85 || d == 0xa0))
    || contains_space (d ∷ [])
contains_space (c ∷ d ∷ e ∷ s) =
    (leb 0x9 c && leb c 0xd)
    || c == 0x20
    || (c == 0xc2 && (d == 0x85 || d == 0xa0))
    || is_wide_space c d e
    || contains_space (d ∷ e ∷ s)
