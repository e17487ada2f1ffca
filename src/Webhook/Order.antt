-- ===== src/Webhook/Order.antt =====
-- The order in which a caller names the receivers of an event does not matter.
use go_service_template_rest.Base.{
  suc, ◌≡◌, refl, ap, ◌∙◌, true, false, List, [], ◌∷◌, Option, none, some, Bytes, length, arith,
}
use go_service_template_rest.Webhook.{Event, Library}
use go_service_template_rest.Webhook.Manifest.{EndpointManifest}
use go_service_template_rest.Webhook.Dispatcher.{leb_bytes, insert_sorted, sort, prepare}
use mathlib.Core.List.{Perm, Permᴰ}
use mathlib.Core.Logic.{∥∥₁_elim}
use native.Mathlib.Nat.{ℕ_set}

leb_bytes_total : (a b : Bytes) → leb_bytes a b ≡ false → leb_bytes b a ≡ true
unfolding leb_bytes
leb_bytes_total [] b h = cc
leb_bytes_total (c ∷ s) [] h = refl
leb_bytes_total (c ∷ s) (d ∷ t) h = ground (arith, leb_bytes_total s t)

leb_bytes_antisymm : (a b : Bytes) → leb_bytes a b ≡ true → leb_bytes b a ≡ true → a ≡ b
unfolding leb_bytes
leb_bytes_antisymm [] [] h k = refl
leb_bytes_antisymm [] (d ∷ t) h k = cc
leb_bytes_antisymm (c ∷ s) [] h k = cc
leb_bytes_antisymm (c ∷ s) (d ∷ t) h k = ground (arith, leb_bytes_antisymm s t)

leb_bytes_trans :
    (a b c : Bytes) → leb_bytes a b ≡ true → leb_bytes b c ≡ true → leb_bytes a c ≡ true
unfolding leb_bytes
leb_bytes_trans [] b c h k = refl
leb_bytes_trans (x ∷ s) [] c h k = cc
leb_bytes_trans (x ∷ s) (y ∷ t) [] h k = cc
leb_bytes_trans (x ∷ s) (y ∷ t) (z ∷ u) h k = ground (arith, leb_bytes_trans s t u)

insert_sorted_comm :
    (a b : Bytes) (l : List Bytes)
    → insert_sorted a (insert_sorted b l) ≡ insert_sorted b (insert_sorted a l)
unfolding insert_sorted
insert_sorted_comm a b [] = ground (arith, leb_bytes_total a b, leb_bytes_antisymm a b)
insert_sorted_comm a b (x ∷ l) = ground (
  arith,
  leb_bytes_total a b,
  leb_bytes_antisymm a b,
  leb_bytes_trans a b x,
  leb_bytes_trans b a x,
  insert_sorted_comm a b l,
)

sort-Permᴰ : {l m : List Bytes} → Permᴰ l m → sort l ≡ sort m
unfolding sort
sort-Permᴰ Permᴰ.nil = refl
sort-Permᴰ (Permᴰ.cons e p) = λ i. insert_sorted (e i) (sort-Permᴰ p i)
sort-Permᴰ (Permᴰ.swap {a = a} {b = b} {l = l} e f) =
    insert_sorted_comm a b (sort l) ∙ (λ i. insert_sorted (f i) (insert_sorted (e i) (sort l)))
sort-Permᴰ (Permᴰ.trans p q) = sort-Permᴰ p ∙ sort-Permᴰ q

length-Permᴰ : {l m : List Bytes} → Permᴰ l m → length l ≡ length m
length-Permᴰ Permᴰ.nil = refl
length-Permᴰ (Permᴰ.cons e p) = ap suc (length-Permᴰ p)
length-Permᴰ (Permᴰ.swap e f) = refl
length-Permᴰ (Permᴰ.trans p q) = length-Permᴰ p ∙ length-Permᴰ q

bytes_lists_set : IsSet (List Bytes)
bytes_lists_set = hlevel

pub sort-perm : {l m : List Bytes} → Perm l m → sort l ≡ sort m
sort-perm {l} {m} p = ∥∥₁_elim p (bytes_lists_set (sort l) (sort m)) sort-Permᴰ

length-perm : {l m : List Bytes} → Perm l m → length l ≡ length m
length-perm {l} {m} p = ∥∥₁_elim p (ℕ_set (length l) (length m)) length-Permᴰ

-- `Prepare` gives the same deliveries, or the same error, in whatever order the receivers are named:
-- the anchor of the event, the fingerprint and the delivery ids do not depend on it.
pub prepare-perm :
    (lib : Library) (manifest : Option EndpointManifest) (event : Event) (l m : List Bytes)
    → Perm l m
    → prepare lib manifest event l ≡ prepare lib manifest event m
unfolding prepare
prepare-perm lib none event l m p = refl
prepare-perm lib (some manifest) event l m p = rw (length-perm p, sort-perm p) refl
