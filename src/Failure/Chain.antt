-- ===== src/Failure/Chain.antt =====
-- internal/failure/error_chain.go: steps named by `Op`, and the chain of classes that a log shows.
-- A text is the list of its code points here, since `Op` names are cut by runes.
use go_service_template_rest.Base.{
  ℕ, zero, suc, ◌+◌, Bool, true, false, ◌||◌, ◌&&◌, List, [], ◌∷◌, ◌++◌, Option, none, some, Bytes,
  codes, if◌then◌else◌, ltb, leb, ◌==◌, length, take,
}
use go_service_template_rest.Base.GoError.{
  Err, leaf, wrapped, joined, op_error, permanent, status, unwrap,
}
use mathlib.Core.List.{reverse}

abbrev pub class_chain_depth : ℕ
class_chain_depth = 8

abbrev pub max_op_name_runes : ℕ
max_op_name_runes = 64

-- `unicode.IsSpace`.
unfoldable pub is_space : ℕ → Bool
is_space c =
    (leb 0x9 c && leb c 0xd)
    || c == 0x20
    || c == 0x85
    || c == 0xa0
    || c == 0x1680
    || (leb 0x2000 c && leb c 0x200a)
    || c == 0x2028
    || c == 0x2029
    || c == 0x202f
    || c == 0x205f
    || c == 0x3000

unfoldable pub trim_left : Bytes → Bytes
unfolding is_space
trim_left [] = []
trim_left (c ∷ s) = if is_space c then trim_left s else c ∷ s

-- `strings.TrimSpace`.
unfoldable pub trim_space : Bytes → Bytes
unfolding trim_left
trim_space s = reverse (trim_left (reverse (trim_left s)))

abbrev pub wrap_op : Bytes → Err → Err
wrap_op [] err = err
wrap_op (c ∷ name) err = op_error (c ∷ name) err

-- `Op`, which passes a nil error on.
unfoldable pub op : Bytes → Option Err → Option Err
op name none = none
op name (some err) = some (wrap_op (trim_space name) err)

-- The number of bytes of a rune in UTF-8.
abbrev pub rune_bytes : ℕ → ℕ
rune_bytes c = if ltb c 0x80 then 1 else if ltb c 0x800 then 2 else if ltb c 0x10000 then 3 else 4

-- `len` of a Go string.
unfoldable pub byte_length : Bytes → ℕ
byte_length [] = 0
byte_length (c ∷ s) = rune_bytes c + byte_length s

unfoldable pub op_link : Bytes → Bytes
unfolding byte_length
op_link name =
    if leb (byte_length name) max_op_name_runes
    then name
    else if leb (length name) max_op_name_runes
    then name
    else take max_op_name_runes name ++ 0x2026 ∷ []

-- `chainLink`: the name of a step, or what `%T` prints.
unfoldable pub chain_link : Err → Bytes
unfolding op_link
chain_link (op_error name _) = op_link name
chain_link (leaf ty _) = ty
chain_link (wrapped ty _) = ty
chain_link (joined ty _) = ty
chain_link (permanent _) = codes "natsjs.permanentError"
chain_link (status true _) = codes "*grpcx.ownedStatusError"
chain_link (status false _) = codes "*status.Error"

-- The loop of `ClassChain` over the depth that is left, with the mark that it was cut short.
unfoldable pub class_links : ℕ → Option Err → List Bytes
unfolding chain_link unwrap
class_links depth none = []
class_links zero (some err) = codes "..." ∷ []
class_links (suc depth) (some err) = chain_link err ∷ class_links depth (unwrap err)

-- `strings.Join`.
unfoldable pub join : List Bytes → Bytes → Bytes
join [] sep = []
join (x ∷ []) sep = x
join (x ∷ y ∷ ys) sep = x ++ sep ++ join (y ∷ ys) sep

unfoldable pub class_chain : Option Err → Bytes
unfolding class_links join
class_chain none = codes "nil"
class_chain (some err) = join (class_links class_chain_depth (some err)) (codes " -> ")
