-- ===== src/Http/BodyShape/Decides.antt =====
-- On the tokens of a document the pass decides whether the document has the shape.
use go_service_template_rest.Base.{
  ℕ, zero, suc, ◌+◌, ◌≤◌, ◌<◌, ◌≡◌, refl, ap, ◌∙◌, Bool, true, false, ◌||◌, ◌&&◌, List, [], ◌∷◌,
  Option, none, some, Bytes, if◌then◌else◌, ◌==◌, arith,
}
use go_service_template_rest.Http.BodyShape.{
  Token, end_object, end_array, Shape, Properties, object, array, string, number, boolean, integer,
  find_property, has_bit, has_bits, skip_from, Scan, accepted, refused, then_scan, skipped, scan,
  scan_items, scan_members, scan_member,
}
use go_service_template_rest.Http.BodyShape.Document.{
  Json, null, bool, num, text, arr, obj, Items, no_items, item, Members, no_members, member, tokens,
  item_tokens, member_tokens, has_member, all_present, conforms, items_conform, members_conform,
  member_conforms,
}

-- How much fuel a document takes.
unfoldable mutual
  pub cost : Json → ℕ
  cost null = 1
  cost (bool b) = 1
  cost (num n) = 1
  cost (text s) = 1
  cost (arr xs) = suc (items_cost xs)
  cost (obj ms) = suc (members_cost ms)

  pub items_cost : Items → ℕ
  items_cost no_items = 1
  items_cost (item x xs) = suc (cost x + items_cost xs)

  pub members_cost : Members → ℕ
  members_cost no_members = 1
  members_cost (member name v ms) = suc (suc (cost v + members_cost ms))

-- Skipping a value leaves what follows it.
mutual
  unfolding tokens skip_from

  skip-tokens : (v : Json) (rest : List Token) → skip_from 0 (tokens v rest) ≡ some rest
  skip-tokens null rest = refl
  skip-tokens (bool b) rest = refl
  skip-tokens (num n) rest = refl
  skip-tokens (text s) rest = refl
  skip-tokens (arr xs) rest = skip-items xs 0 (end_array ∷ rest)
  skip-tokens (obj ms) rest = skip-members ms 0 (end_object ∷ rest)

  skip-inside :
      (v : Json) (level : ℕ) (rest : List Token)
      → skip_from (suc level) (tokens v rest) ≡ skip_from (suc level) rest
  skip-inside null level rest = refl
  skip-inside (bool b) level rest = refl
  skip-inside (num n) level rest = refl
  skip-inside (text s) level rest = refl
  skip-inside (arr xs) level rest = skip-items xs (suc level) (end_array ∷ rest)
  skip-inside (obj ms) level rest = skip-members ms (suc level) (end_object ∷ rest)

  skip-items :
      (xs : Items) (level : ℕ) (rest : List Token)
      → skip_from (suc level) (item_tokens xs rest) ≡ skip_from (suc level) rest
  skip-items no_items level rest = refl
  skip-items (item x xs) level rest =
      skip-inside x level (item_tokens xs rest) ∙ skip-items xs level rest

  skip-members :
      (ms : Members) (level : ℕ) (rest : List Token)
      → skip_from (suc level) (member_tokens ms rest) ≡ skip_from (suc level) rest
  skip-members no_members level rest = refl
  skip-members (member name v ms) level rest =
      skip-inside v level (member_tokens ms rest) ∙ skip-members ms level rest

-- The scan's answer for a document.
abbrev pub verdict : Bool → List Token → Scan
verdict b rest = if b then accepted rest else refused

-- A bit is seen when a member before or behind has it.
abbrev seen_or : Properties → List ℕ → Members → List ℕ → Bool
seen_or properties seen ms [] = true
seen_or properties seen ms (i ∷ required) =
    (has_bit seen i || has_member properties ms i) && seen_or properties seen ms required

seen_or-no_members :
    (properties : Properties) (seen required : List ℕ)
    → has_bits seen required ≡ seen_or properties seen no_members required
unfolding has_bits has_member
seen_or-no_members properties seen [] = refl
seen_or-no_members properties seen (i ∷ required) =
    ground (arith, seen_or-no_members properties seen required)

seen_or-none :
    (properties : Properties) (seen : List ℕ) (name : Bytes) (v : Json) (ms : Members)
    (required : List ℕ)
    → find_property properties name 0 ≡ none
    → seen_or properties seen ms required ≡ seen_or properties seen (member name v ms) required
unfolding has_member
seen_or-none properties seen name v ms [] e = refl
seen_or-none properties seen name v ms (i ∷ required) e =
    rw (e, seen_or-none properties seen name v ms required e) refl

or_swap : (a b c : Bool) → ((a || b) || c) ≡ (b || (a || c))
or_swap a b c = ground arith

seen_or-some :
    (properties : Properties) (seen : List ℕ) (name : Bytes) (v : Json) (ms : Members)
    (required : List ℕ) (index : ℕ) (shape : Shape)
    → find_property properties name 0 ≡ some (index, shape)
    → seen_or properties (index ∷ seen) ms required
      ≡ seen_or properties seen (member name v ms) required
unfolding has_member has_bit
seen_or-some properties seen name v ms [] index shape e = refl
seen_or-some properties seen name v ms (i ∷ required) index shape e =
    rw
      (
        e,
        seen_or-some properties seen name v ms required index shape e,
        or_swap (index == i) (has_bit seen i) (has_member properties ms i),
      )
      refl

seen_or-nil :
    (properties : Properties) (ms : Members) (required : List ℕ)
    → seen_or properties [] ms required ≡ all_present properties required ms
unfolding all_present has_bit
seen_or-nil properties ms [] = refl
seen_or-nil properties ms (i ∷ required) = rw (seen_or-nil properties ms required) refl

cost_pos : (v : Json) → 0 < cost v
unfolding cost
cost_pos null = omega arith
cost_pos (bool b) = omega arith
cost_pos (num n) = omega arith
cost_pos (text s) = omega arith
cost_pos (arr xs) = omega arith
cost_pos (obj ms) = omega arith

items_cost_pos : (xs : Items) → 0 < items_cost xs
unfolding cost
items_cost_pos no_items = omega arith
items_cost_pos (item x xs) = omega arith

members_cost_pos : (ms : Members) → 0 < members_cost ms
unfolding cost
members_cost_pos no_members = omega arith
members_cost_pos (member name v ms) = omega arith

module _ (in_range : Bytes → Bool) where
  -- A value does not begin with the end of an array.
  scan_items-tokens :
      (f : ℕ) (items : Shape) (x : Json) (rest : List Token)
      → scan_items in_range (suc f) items (tokens x rest)
        ≡ then_scan (scan in_range f items (tokens x rest)) (λ ts. scan_items in_range f items ts)
  unfolding scan tokens
  scan_items-tokens f items null rest = refl
  scan_items-tokens f items (bool b) rest = refl
  scan_items-tokens f items (num n) rest = refl
  scan_items-tokens f items (text s) rest = refl
  scan_items-tokens f items (arr xs) rest = refl
  scan_items-tokens f items (obj ms) rest = refl

  &&-assoc : (a b c : Bool) → (a && (b && c)) ≡ ((a && b) && c)
  &&-assoc a b c = ground arith

  then-verdict :
      (b c : Bool) (rest after : List Token) (next : List Token → Scan)
      → next rest ≡ verdict c after
      → then_scan (verdict b rest) next ≡ verdict (b && c) after
  then-verdict true c rest after next h = h
  then-verdict false c rest after next h = refl

  -- A member and what follows it, from what is known of its value and of the other members.
  scan_member-lem :
      (f : ℕ) (properties : Properties) (required : List ℕ) (reject : Bool) (seen : List ℕ)
      (name : Bytes) (v : Json) (ms : Members) (rest : List Token) (found : Option (ℕ × Shape))
      → find_property properties name 0 ≡ found
      → ((shape : Shape) (after : List Token)
          → scan in_range f shape (tokens v after) ≡ verdict (conforms in_range shape v) after)
      → ((more : List ℕ)
          → scan_members in_range f properties required reject more
              (member_tokens ms (end_object ∷ rest))
            ≡ verdict
                (members_conform in_range properties reject ms
                  && seen_or properties more ms required)
                rest)
      → scan_member in_range
          (suc f)
          properties
          required
          reject
          seen
          found
          (tokens v (member_tokens ms (end_object ∷ rest)))
        ≡ verdict
            ((member_conforms found reject (λ shape. conforms in_range shape v)
                && members_conform in_range properties reject ms)
              && seen_or properties seen (member name v ms) required)
            rest
  unfolding scan
  scan_member-lem f properties required true seen name v ms rest none e value others = refl
  scan_member-lem f properties required false seen name v ms rest none e value others =
      ap (λ o. skipped o (λ ts. scan_members in_range f properties required false seen ts))
        (skip-tokens v (member_tokens ms (end_object ∷ rest)))
      ∙ others seen
      ∙ ap (λ b. verdict (members_conform in_range properties false ms && b) rest)
          (seen_or-none properties seen name v ms required e)
  scan_member-lem f properties required reject seen name v ms rest (some (index, shape)) e value
        others =
      ap
        (λ r.
          then_scan r (λ ts. scan_members in_range f properties required reject (index ∷ seen) ts))
        (value shape (member_tokens ms (end_object ∷ rest)))
      ∙ then-verdict (conforms in_range shape v)
          (members_conform in_range properties reject ms
            && seen_or properties (index ∷ seen) ms required)
          (member_tokens ms (end_object ∷ rest)) rest _ (others (index ∷ seen))
      ∙ ap (λ b. verdict b rest)
          (&&-assoc (conforms in_range shape v) (members_conform in_range properties reject ms) _
            ∙ ap
                (λ b.
                  (conforms in_range shape v && members_conform in_range properties reject ms) && b)
                (seen_or-some properties seen name v ms required index shape e))

  mutual
    unfolding scan tokens conforms cost

    pub scan-tokens :
        (v : Json) (shape : Shape) (f : ℕ) (rest : List Token)
        → cost v ≤ f
        → scan in_range f shape (tokens v rest) ≡ verdict (conforms in_range shape v) rest
    scan-tokens v shape zero rest h = absurd (omega (arith, cost_pos v))
    scan-tokens null string (suc f) rest h = refl
    scan-tokens (arr xs) (array items) (suc f) rest h = scan_items-lem xs items f rest (omega arith)
    scan-tokens (obj ms) (object properties required reject) (suc f) rest h =
        scan_members-lem ms properties required reject [] f rest (omega arith)
        ∙ ap (λ b. verdict (members_conform in_range properties reject ms && b) rest)
            (seen_or-nil properties ms required)
    scan-tokens (text s) string (suc f) rest h = refl
    scan-tokens (bool b) boolean (suc f) rest h = refl
    scan-tokens (num n) (integer int32) (suc f) rest h = refl
    scan-tokens (num n) number (suc f) rest h = refl
    scan-tokens _ _ (suc f) rest h = refl

    scan_items-lem :
        (xs : Items) (items : Shape) (f : ℕ) (rest : List Token)
        → items_cost xs ≤ f
        → scan_items in_range f items (item_tokens xs (end_array ∷ rest))
          ≡ verdict (items_conform in_range items xs) rest
    scan_items-lem xs items zero rest h = absurd (omega (arith, items_cost_pos xs))
    scan_items-lem no_items items (suc f) rest h = refl
    scan_items-lem (item x xs) items (suc f) rest h =
        scan_items-tokens f items x (item_tokens xs (end_array ∷ rest))
        ∙ ap (λ r. then_scan r (λ ts. scan_items in_range f items ts))
            (scan-tokens x items f (item_tokens xs (end_array ∷ rest)) (omega arith))
        ∙ then-verdict (conforms in_range items x) (items_conform in_range items xs)
            (item_tokens xs (end_array ∷ rest)) rest _
            (scan_items-lem xs items f rest (omega arith))

    scan_members-lem :
        (ms : Members) (properties : Properties) (required : List ℕ) (reject : Bool) (seen : List ℕ)
        (f : ℕ) (rest : List Token)
        → members_cost ms ≤ f
        → scan_members in_range f properties required reject seen
            (member_tokens ms (end_object ∷ rest))
          ≡ verdict
              (members_conform in_range properties reject ms && seen_or properties seen ms required)
              rest
    scan_members-lem ms properties required reject seen zero rest h =
        absurd (omega (arith, members_cost_pos ms))
    scan_members-lem no_members properties required reject seen (suc f) rest h =
        ap (λ b. verdict b rest) (seen_or-no_members properties seen required)
    scan_members-lem (member name v ms) properties required reject seen (suc zero) rest h =
        absurd (omega arith)
    scan_members-lem (member name v ms) properties required reject seen (suc (suc f)) rest h =
        scan_member-lem f properties required reject seen name v ms rest
          (find_property properties name 0) refl
          (λ shape after. scan-tokens v shape f after (omega arith))
          (λ more. scan_members-lem ms properties required reject more f rest (omega arith))
