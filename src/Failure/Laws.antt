-- ===== src/Failure/Laws.antt =====
-- What holds of internal/failure: which answer `Classify` gives, what `Op` hides from
-- `errors.Is`, and what `ClassChain` renders.
use go_service_template_rest.Base.{
  ℕ, zero, suc, ◌+◌, ◌≤◌, ◌≡◌, refl, true, List, [], ◌∷◌, ◌++◌, Option, none, some, Bytes, codes,
  if◌then◌else◌, leb, length, take, All, arith, Option-cases, inl, inr, ◌↔◌, length-append,
  length-take-le, ap,
}
use go_service_template_rest.Base.GoError.{
  Err, leaf, wrapped, joined, op_error, permanent, status, is,
}
use go_service_template_rest.Failure.{
  Classification, Mapper, classify, publish, contains, all_codes,
}
use go_service_template_rest.Failure.Chain.{
  op, wrap_op, trim_space, chain_link, op_link, class_links, class_chain_depth, max_op_name_runes,
  byte_length, rune_bytes,
}

-- The mapper is nil, or has no answer for the error.
abbrev pub IsSilent : Err → Option Mapper → Type 0
IsSilent err none = Unit {0}
IsSilent err (some mapper) = mapper err ≡ none

-- The first mapper with an answer gives `c`.
abbrev pub FirstAnswer : Err → List (Option Mapper) → Classification → Type 0
FirstAnswer err mappers c =
    (before : List (Option Mapper)) × (mapper : Mapper) × (after : List (Option Mapper)) × (mappers
      ≡ before ++ some mapper ∷ after)
    × All (IsSilent err) before
    × (mapper err ≡ some c)

classify-append :
    (err : Err) (before : List (Option Mapper)) (mapper : Mapper) (after : List (Option Mapper))
    (c : Classification)
    → All (IsSilent err) before
    → mapper err ≡ some c
    → classify err (before ++ some mapper ∷ after) ≡ publish c
unfolding classify
classify-append err [] mapper after c silent answer = ground arith
classify-append err (none ∷ before) mapper after c silent answer =
    classify-append err before mapper after c silent.1 answer
classify-append err (some m ∷ before) mapper after c silent answer =
    ground (arith, classify-append err before mapper after c silent.1 answer)

FirstAnswer-cons :
    {err : Err} {mappers : List (Option Mapper)} {c : Classification} (m : Option Mapper)
    → IsSilent err m
    → FirstAnswer err mappers c
    → FirstAnswer err (m ∷ mappers) c
FirstAnswer-cons m silent (before, mapper, after, e, quiet, answer) =
    (m ∷ before, mapper, after, ap (λ l. m ∷ l) e, (silent, quiet), answer)

publish-some :
    (c d : Classification) → publish c ≡ some d → (c ≡ d) × (contains all_codes d.code ≡ true)
unfolding publish
publish-some c d h = ground arith

classify→FirstAnswer :
    (err : Err) (mappers : List (Option Mapper)) (c : Classification)
    → classify err mappers ≡ some c
    → FirstAnswer err mappers c × (contains all_codes c.code ≡ true)
unfolding classify publish
classify→FirstAnswer err [] c h = ground arith
classify→FirstAnswer err (none ∷ mappers) c h =
    let (first, published) = classify→FirstAnswer err mappers c h in
    (FirstAnswer-cons none tt first, published)
classify→FirstAnswer err (some m ∷ mappers) c h = elim (Option-cases (m err)) [
  | inl quiet ↦
      let (first, published) = classify→FirstAnswer err mappers c (ground arith) in
      (FirstAnswer-cons (some m) quiet first, published)
  | inr (d, answer) ↦
      let (same, published) = publish-some d c (ground arith) in
      (([], m, mappers, refl, tt, ground arith), published)
]

-- `Classify` answers `c` exactly when `c` is the first answer of the mappers, nil entries skipped,
-- and the code of `c` is published.
pub classify_lem :
    (err : Err) (mappers : List (Option Mapper)) (c : Classification)
    → (classify err mappers ≡ some c)
      ↔ (FirstAnswer err mappers c × (contains all_codes c.code ≡ true))
unfolding publish
classify_lem err mappers c = (
  classify→FirstAnswer err mappers c,
  λ h.
      let ((before, mapper, after, e, quiet, answer), published) = h in
      ground (arith, e, published, classify-append err before mapper after c quiet answer),
)

is-wrap_op : (name : Bytes) (err : Err) (target : ℕ) → is (wrap_op name err) target ≡ is err target
unfolding is
is-wrap_op [] err target = refl
is-wrap_op (c ∷ name) err target = refl

-- `Op` keeps a nil error nil, and what it returns for another matches the targets of `errors.Is`
-- that the error itself matches, whatever the name.
pub op-is :
    (name : Bytes) (err : Err)
    → (op name none ≡ none)
      × ((named : Err) × (op name (some err) ≡ some named)
          × ((target : ℕ) → is named target ≡ is err target))
unfolding op
op-is name err = (refl, (wrap_op (trim_space name) err, refl, is-wrap_op (trim_space name) err))

rune_bytes-pos : (c : ℕ) → 1 ≤ rune_bytes c
rune_bytes-pos c = ground arith

length-le-byte_length : (s : Bytes) → length s ≤ byte_length s
unfolding byte_length
length-le-byte_length [] = omega arith
length-le-byte_length (c ∷ s) = omega (arith, rune_bytes-pos c, length-le-byte_length s)

tests_agree :
    (runes bytes limit : ℕ) (whole cut_short : Bytes)
    → runes ≤ bytes
    → (if leb bytes limit then whole else if leb runes limit then whole else cut_short)
      ≡ (if leb runes limit then whole else cut_short)
tests_agree runes bytes limit whole cut_short h = ground arith

length-cut_name :
    (limit : ℕ) (name : Bytes)
    → length (if leb (length name) limit then name else take limit name ++ 0x2026 ∷ []) ≤ limit + 1
length-cut_name limit name =
    ground (arith, length-append (take limit name) (0x2026 ∷ []), length-take-le limit name)

op_link-eq :
    (name : Bytes)
    → op_link name ≡ (
        if leb (length name) max_op_name_runes
        then name
        else take max_op_name_runes name ++ 0x2026 ∷ [])
unfolding op_link
op_link-eq name =
    tests_agree (length name) (byte_length name) max_op_name_runes name _
      (length-le-byte_length name)

-- The test on bytes saves work and changes nothing: a name is kept when it has at most 64 runes,
-- and is otherwise cut to 64 and marked. So no link of a step is longer than 65 runes.
pub op_link_lem :
    (name : Bytes)
    → (op_link name ≡ (
        if leb (length name) max_op_name_runes
        then name
        else take max_op_name_runes name ++ 0x2026 ∷ []))
      × (length (op_link name) ≤ 65)
op_link_lem name = (op_link-eq name, rw (op_link-eq name) (length-cut_name max_op_name_runes name))

-- The classes of all layers of an error, outermost first.
unfoldable pub layers : Err → List Bytes
layers (leaf ty i) = chain_link (leaf ty i) ∷ []
layers (wrapped ty err) = chain_link (wrapped ty err) ∷ layers err
layers (joined ty errs) = chain_link (joined ty errs) ∷ []
layers (op_error name err) = chain_link (op_error name err) ∷ layers err
layers (permanent err) = chain_link (permanent err) ∷ layers err
layers (status owned s) = chain_link (status owned s) ∷ []

-- A list cut after `n` elements, with a mark where something was cut off.
abbrev pub cut : ℕ → List Bytes → List Bytes
cut n [] = []
cut zero (x ∷ xs) = codes "..." ∷ []
cut (suc n) (x ∷ xs) = x ∷ cut n xs

class_links-cut : (depth : ℕ) (err : Err) → class_links depth (some err) ≡ cut depth (layers err)
unfolding class_links layers
class_links-cut zero (leaf ty i) = refl
class_links-cut zero _ = refl
class_links-cut (suc depth) (leaf ty i) = refl
class_links-cut (suc depth) (wrapped ty err) = rw (class_links-cut depth err)
class_links-cut (suc depth) (joined ty errs) = refl
class_links-cut (suc depth) (op_error name err) = rw (class_links-cut depth err)
class_links-cut (suc depth) (permanent err) = rw (class_links-cut depth err)
class_links-cut (suc depth) (status owned s) = refl

length-cut-le : (n : ℕ) (xs : List Bytes) → length (cut n xs) ≤ n + 1
length-cut-le n [] = omega arith
length-cut-le zero (x ∷ xs) = omega arith
length-cut-le (suc n) (x ∷ xs) = omega (arith, length-cut-le n xs)

-- What `ClassChain` joins is the list of the classes of all layers of the error, cut behind the
-- eighth with a mark where more follow: nine links at most, however deep the error is.
pub class_links_lem :
    (err : Err)
    → (class_links class_chain_depth (some err) ≡ cut class_chain_depth (layers err))
      × (length (class_links class_chain_depth (some err)) ≤ 9)
class_links_lem err = (
  class_links-cut class_chain_depth err,
  rw (class_links-cut class_chain_depth err) (length-cut-le class_chain_depth (layers err)),
)
