-- ===== src/Http/BodyShape/Halts.antt =====
-- The pass ends on every input, and what it admits.
use go_service_template_rest.Base.{
  ℕ, zero, suc, ◌+◌, ◌*◌, ◌≤◌, ◌<◌, ◌≡◌, ◌≢◌, ◌↔◌, refl, sym, ap, ◌∙◌, subst, Bool, true, false,
  List, [], ◌∷◌, Option, none, some, Bytes, if◌then◌else◌, length, arith,
}
use go_service_template_rest.Http.BodyShape.{
  Token, begin_object, end_object, begin_array, end_array, null_token, bool_token, text_token,
  number_token, Shape, Properties, object, array, string, number, boolean, integer, find_property,
  has_bits, exact_integer, skip_from, Scan, accepted, refused, spent, then_scan, skipped, scan,
  scan_items, scan_members, scan_member, ends, fuel, accepts,
}
use go_service_template_rest.Http.BodyShape.Document.{
  Json, null, bool, num, text, arr, obj, Items, no_items, item, Members, no_members, member, tokens,
  item_tokens, member_tokens, conforms,
}
use go_service_template_rest.Http.BodyShape.Decides.{
  cost, items_cost, members_cost, verdict, scan-tokens,
}

-- The answer is no end of the fuel, and what is left is shorter than `n`.
abbrev Within : ℕ → Scan → Type 0
Within n (accepted rest) = length rest < n
Within n refused = Unit
Within n spent = ⊥

abbrev Shorter : ℕ → Option (List Token) → Type 0
Shorter n none = Unit
Shorter n (some rest) = length rest < n

Shorter-mono : (o : Option (List Token)) (n : ℕ) → Shorter n o → Shorter (suc n) o
Shorter-mono none n h = tt
Shorter-mono (some rest) n h = omega arith

skip-Shorter : (level : ℕ) (ts : List Token) → Shorter (length ts) (skip_from level ts)
unfolding skip_from
skip-Shorter level [] = tt
skip-Shorter level (begin_object ∷ ts) = Shorter-mono _ (length ts) (skip-Shorter (suc level) ts)
skip-Shorter level (begin_array ∷ ts) = Shorter-mono _ (length ts) (skip-Shorter (suc level) ts)
skip-Shorter zero (end_object ∷ ts) = tt
skip-Shorter zero (end_array ∷ ts) = tt
skip-Shorter (suc zero) (end_object ∷ ts) = omega arith
skip-Shorter (suc zero) (end_array ∷ ts) = omega arith
skip-Shorter (suc (suc level)) (end_object ∷ ts) =
    Shorter-mono _ (length ts) (skip-Shorter (suc level) ts)
skip-Shorter (suc (suc level)) (end_array ∷ ts) =
    Shorter-mono _ (length ts) (skip-Shorter (suc level) ts)
skip-Shorter zero (null_token ∷ ts) = omega arith
skip-Shorter zero (_ ∷ ts) = omega arith
skip-Shorter (suc level) (null_token ∷ ts) =
    Shorter-mono _ (length ts) (skip-Shorter (suc level) ts)
skip-Shorter (suc level) (_ ∷ ts) = Shorter-mono _ (length ts) (skip-Shorter (suc level) ts)

then-Within :
    (n m : ℕ) (r : Scan) (next : List Token → Scan)
    → Within n r
    → ((rest : List Token) → length rest < n → Within m (next rest))
    → Within m (then_scan r next)
then-Within n m (accepted rest) next h k = k rest h
then-Within n m refused next h k = tt
then-Within n m spent next h k = h

skipped-Within :
    (n m : ℕ) (o : Option (List Token)) (next : List Token → Scan)
    → Shorter n o
    → ((rest : List Token) → length rest < n → Within m (next rest))
    → Within m (skipped o next)
skipped-Within n m none next h k = tt
skipped-Within n m (some rest) next h k = k rest h

if-Within :
    (b : Bool) (n : ℕ) (rest : List Token)
    → length rest < n
    → Within n (if b then accepted rest else refused)
if-Within true n rest h = h
if-Within false n rest h = tt

Within-mono : (n m : ℕ) (r : Scan) → n ≤ m → Within n r → Within m r
Within-mono n m (accepted rest) le h = omega arith
Within-mono n m refused le h = tt
Within-mono n m spent le h = h

module _ (in_range : Bytes → Bool) where
  -- What is no end of an array is scanned as an item.
  mutual
    unfolding scan

    scan-Within :
        (f : ℕ) (shape : Shape) (ts : List Token)
        → 3 * length ts < f
        → Within (length ts) (scan in_range f shape ts)
    scan-Within zero shape ts h = absurd (omega arith)
    scan-Within (suc f) (object properties required reject) (begin_object ∷ ts) h =
        Within-mono (length ts) _ _ (omega arith)
          (members-Within f properties required reject [] ts (omega arith))
    scan-Within (suc f) (array items) (begin_array ∷ ts) h =
        Within-mono (length ts) _ _ (omega arith) (items-Within f items ts (omega arith))
    scan-Within (suc f) string (text_token s ∷ ts) h = omega arith
    scan-Within (suc f) boolean (bool_token b ∷ ts) h = omega arith
    scan-Within (suc f) (integer int32) (number_token literal ∷ ts) h =
        if-Within (exact_integer int32 literal) _ ts (omega arith)
    scan-Within (suc f) number (number_token literal ∷ ts) h =
        if-Within (in_range literal) _ ts (omega arith)
    scan-Within (suc f) _ _ h = tt

    items-Within :
        (f : ℕ) (items : Shape) (ts : List Token)
        → suc (3 * length ts) < f
        → Within (length ts) (scan_items in_range f items ts)
    items-Within zero items ts h = absurd (omega arith)
    items-Within (suc f) items (end_array ∷ ts) h = omega arith
    items-Within (suc f) items [] h =
        then-Within 0 0 _ _ (scan-Within f items [] (omega arith)) (λ rest lt. absurd (omega arith))
    items-Within (suc f) items (t ∷ ts) h =
        then-Within (length (t ∷ ts)) (length (t ∷ ts)) _ _
          (scan-Within f items (t ∷ ts) (omega arith))
          (λ rest lt.
            Within-mono (length rest) _ _ (omega arith) (items-Within f items rest (omega arith)))

    members-Within :
        (f : ℕ) (properties : Properties) (required : List ℕ) (reject : Bool) (seen : List ℕ)
        (ts : List Token)
        → 3 * length ts < f
        → Within (length ts) (scan_members in_range f properties required reject seen ts)
    members-Within zero properties required reject seen ts h = absurd (omega arith)
    members-Within (suc f) properties required reject seen (text_token name ∷ ts) h =
        Within-mono (length ts) _ _ (omega arith) (
          member-Within f properties required reject seen (find_property properties name 0) ts
            (omega arith))
    members-Within (suc f) properties required reject seen (end_object ∷ ts) h =
        if-Within (has_bits seen required) _ ts (omega arith)
    members-Within (suc f) properties required reject seen _ h = tt

    member-Within :
        (f : ℕ) (properties : Properties) (required : List ℕ) (reject : Bool) (seen : List ℕ)
        (found : Option (ℕ × Shape)) (ts : List Token)
        → suc (3 * length ts) < f
        → Within (length ts) (scan_member in_range f properties required reject seen found ts)
    member-Within zero properties required reject seen found ts h = absurd (omega arith)
    member-Within (suc f) properties required true seen none ts h = tt
    member-Within (suc f) properties required false seen none ts h =
        skipped-Within (length ts) _ _ _ (skip-Shorter 0 ts) (λ rest lt.
          Within-mono (length rest) _ _ (omega arith)
            (members-Within f properties required false seen rest (omega arith)))
    member-Within (suc f) properties required reject seen (some (index, shape)) ts h =
        then-Within (length ts) _ _ _ (scan-Within f shape ts (omega arith)) (λ rest lt.
          Within-mono (length rest) _ _ (omega arith)
            (members-Within f properties required reject (index ∷ seen) rest (omega arith)))

  not-spent : (n : ℕ) (r : Scan) → Within n r → r ≢ spent
  not-spent n (accepted rest) h e = cc
  not-spent n refused h e = cc
  not-spent n spent h e = h

  -- The pass ends on every list of tokens, well-formed or not: the fuel of `accepts`, three for each
  -- token and one, is never used up.
  pub scan-ne-spent : (shape : Shape) (ts : List Token) → scan in_range (fuel ts) shape ts ≢ spent
  scan-ne-spent shape ts = not-spent (length ts) _ (scan-Within (fuel ts) shape ts (omega arith))

-- The fuel covers what a document costs.
mutual
  unfolding cost tokens

  cost-le :
      (v : Json) (rest : List Token) → cost v + 1 + 3 * length rest ≤ 3 * length (tokens v rest)
  cost-le null rest = omega arith
  cost-le (bool b) rest = omega arith
  cost-le (num n) rest = omega arith
  cost-le (text s) rest = omega arith
  cost-le (arr xs) rest = omega (arith, items_cost-le xs (end_array ∷ rest))
  cost-le (obj ms) rest = omega (arith, members_cost-le ms (end_object ∷ rest))

  items_cost-le :
      (xs : Items) (rest : List Token)
      → items_cost xs + 3 * length rest ≤ 3 * length (item_tokens xs rest) + 1
  items_cost-le no_items rest = omega arith
  items_cost-le (item x xs) rest =
      omega (arith, cost-le x (item_tokens xs rest), items_cost-le xs rest)

  members_cost-le :
      (ms : Members) (rest : List Token)
      → members_cost ms + 3 * length rest ≤ 3 * length (member_tokens ms rest) + 1
  members_cost-le no_members rest = omega arith
  members_cost-le (member name v ms) rest =
      omega (arith, cost-le v (member_tokens ms rest), members_cost-le ms rest)

module _ (in_range : Bytes → Bool) where
  false-true : {A : Type 0} → false ≡ true → A
  false-true h = cc

  ends-false : (r : Scan) → ends r false ≡ false
  ends-false (accepted []) = refl
  ends-false (accepted (t ∷ ts)) = refl
  ends-false refused = refl
  ends-false spent = refl

  scan-document :
      (shape : Shape) (v : Json) (rest : List Token)
      → scan in_range (fuel (tokens v rest)) shape (tokens v rest)
        ≡ verdict (conforms in_range shape v) rest
  scan-document shape v rest =
      scan-tokens in_range v shape (fuel (tokens v rest)) rest (omega (arith, cost-le v rest))

  scan-nothing : (shape : Shape) → ends (scan in_range (fuel []) shape []) true ≢ true
  unfolding scan
  scan-nothing (object properties required reject) h = cc
  scan-nothing (array items) h = cc
  scan-nothing string h = cc
  scan-nothing number h = cc
  scan-nothing boolean h = cc
  scan-nothing (integer int32) h = cc

  verdict-true :
      (b : Bool) (rest : List Token) → ends (verdict b rest) true ≡ true → (b ≡ true) × (rest ≡ [])
  verdict-true true [] h = (refl, refl)
  verdict-true true (t ∷ ts) h = cc
  verdict-true false rest h = cc

  -- Among a sequence of documents, one alone is admitted.
  single-document :
      (shape : Shape) (vs : Items)
      → ends (scan in_range (fuel (item_tokens vs [])) shape (item_tokens vs [])) true ≡ true
      → (v : Json) × (item_tokens vs [] ≡ tokens v []) × (conforms in_range shape v ≡ true)
  unfolding tokens
  single-document shape no_items h = absurd (scan-nothing shape h)
  single-document shape (item v vs) h =
      let (fits, alone) =
        verdict-true (conforms in_range shape v) (item_tokens vs [])
          (ap (λ r. ends r true) (sym (scan-document shape v (item_tokens vs []))) ∙ h) in
      (v, ap (tokens v) alone, fits)

  admitted :
      (shape : Shape) (ts : List Token) (ended : Bool)
      → (ended ≡ true → (vs : Items) × (ts ≡ item_tokens vs []))
      → ends (scan in_range (fuel ts) shape ts) ended ≡ true
      → (v : Json) × (ended ≡ true) × (ts ≡ tokens v []) × (conforms in_range shape v ≡ true)
  admitted shape ts false reads h = false-true (sym (ends-false _) ∙ h)
  admitted shape ts true reads h =
      let (vs, same) = reads refl in
      let (v, alone, fits) =
        single-document shape vs
          (subst (λ t. ends (scan in_range (fuel t) shape t) true ≡ true) same h) in
      (v, refl, same ∙ alone, fits)

  conforming :
      (shape : Shape) (v : Json)
      → conforms in_range shape v ≡ true
      → ends (scan in_range (fuel (tokens v [])) shape (tokens v [])) true ≡ true
  conforming shape v fits =
      ap (λ r. ends r true) (scan-document shape v []) ∙ ap (λ b. ends (verdict b []) true) fits

  -- The pass admits a body exactly when its text ends where it should, is one document and has the
  -- shape. The decoder is relied on to end without a fault only behind whole documents.
  pub accepts-conforms :
      (shape : Shape) (ts : List Token) (ended : Bool)
      → (ended ≡ true → (vs : Items) × (ts ≡ item_tokens vs []))
      → (accepts in_range shape ts ended ≡ true)
        ↔ ((v : Json) × (ended ≡ true) × (ts ≡ tokens v []) × (conforms in_range shape v ≡ true))
  unfolding accepts
  accepts-conforms shape ts ended reads = (
    admitted shape ts ended reads,
    λ (v, clean, same, fits).
        subst (λ b. ends (scan in_range (fuel ts) shape ts) b ≡ true) (sym clean)
          (subst (λ t. ends (scan in_range (fuel t) shape t) true ≡ true) (sym same)
            (conforming shape v fits)),
  )
