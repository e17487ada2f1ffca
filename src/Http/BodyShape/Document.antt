-- ===== src/Http/BodyShape/Document.antt =====
-- JSON documents, what they look like as tokens, and which of them a shape describes.
use go_service_template_rest.Base.{
  ℕ, Bool, true, false, ◌||◌, ◌&&◌, not, List, [], ◌∷◌, Option, none, some, Bytes, ◌==◌,
}
use go_service_template_rest.Http.BodyShape.{
  Token, begin_object, end_object, begin_array, end_array, null_token, bool_token, text_token,
  number_token, Shape, Properties, object, array, string, number, boolean, integer, find_property,
  exact_integer,
}

mutual
  pub data Json : Type 0 where
    null : Json
    bool : Bool → Json
    num : Bytes → Json
    text : Bytes → Json
    arr : Items → Json
    obj : Members → Json

  pub data Items : Type 0 where
    no_items : Items
    item : Json → Items → Items

  pub data Members : Type 0 where
    no_members : Members
    member : Bytes → Json → Members → Members

-- The tokens of a document, before the tokens that follow it.
unfoldable mutual
  pub tokens : Json → List Token → List Token
  tokens null rest = null_token ∷ rest
  tokens (bool b) rest = bool_token b ∷ rest
  tokens (num n) rest = number_token n ∷ rest
  tokens (text s) rest = text_token s ∷ rest
  tokens (arr xs) rest = begin_array ∷ item_tokens xs (end_array ∷ rest)
  tokens (obj ms) rest = begin_object ∷ member_tokens ms (end_object ∷ rest)

  pub item_tokens : Items → List Token → List Token
  item_tokens no_items rest = rest
  item_tokens (item x xs) rest = tokens x (item_tokens xs rest)

  pub member_tokens : Members → List Token → List Token
  member_tokens no_members rest = rest
  member_tokens (member name v ms) rest = text_token name ∷ tokens v (member_tokens ms rest)

abbrev pub is_index : Option (ℕ × Shape) → ℕ → Bool
is_index none i = false
is_index (some (index, shape)) i = index == i

-- Some member is the property at a position.
unfoldable pub has_member : Properties → Members → ℕ → Bool
unfolding find_property
has_member properties no_members i = false
has_member properties (member name v ms) i =
    is_index (find_property properties name 0) i || has_member properties ms i

unfoldable pub all_present : Properties → List ℕ → Members → Bool
unfolding has_member
all_present properties [] ms = true
all_present properties (i ∷ required) ms =
    has_member properties ms i && all_present properties required ms

abbrev pub member_conforms : Option (ℕ × Shape) → Bool → (Shape → Bool) → Bool
member_conforms none reject test = not reject
member_conforms (some (index, shape)) reject test = test shape

module _ (in_range : Bytes → Bool) where
  -- The document has the shape.
  unfoldable mutual
    unfolding exact_integer find_property all_present

    pub conforms : Shape → Json → Bool
    conforms (object properties required reject) (obj ms) =
        members_conform properties reject ms && all_present properties required ms
    conforms (array items) (arr xs) = items_conform items xs
    conforms string (text s) = true
    conforms boolean (bool b) = true
    conforms (integer int32) (num n) = exact_integer int32 n
    conforms number (num n) = in_range n
    conforms shape v = false

    pub items_conform : Shape → Items → Bool
    items_conform shape no_items = true
    items_conform shape (item x xs) = conforms shape x && items_conform shape xs

    pub members_conform : Properties → Bool → Members → Bool
    members_conform properties reject no_members = true
    members_conform properties reject (member name v ms) =
        member_conforms (find_property properties name 0) reject (λ shape. conforms shape v)
        && members_conform properties reject ms
