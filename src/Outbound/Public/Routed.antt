-- ===== src/Outbound/Public/Routed.antt =====
-- What a public address of IPv4 is not: internal/outboundtrust/public_address.go.
use go_service_template_rest.Base.{
  ||-true, List, [], ◌∷◌, ℕ, ◌/◌, ◌^◌, ◌≤◌, ◌<◌, ◌≡◌, ◌≢◌, Bool, true, false, ◌⊎◌, inl, inr, arith,
  not, ◌&&◌, ◌||◌, if◌then◌else◌,
}
use native.Mathlib.Decide.{dec_lt}
use go_service_template_rest.Outbound.{
  Prefix, quad, in_prefix, is_global_unicast_v4, is_private_v4, public_v4, contains_addr,
  globally_reachable_ipv4_special_prefixes, non_public_ipv4_prefixes,
}

-- Below the first address of a range, or from its end on.
abbrev pub Outside : ℕ → ℕ → ℕ → Type 0
Outside low high n = (n < low) ⊎ (high ≤ n)

-- The ranges of IPv4 that are not public: private and shared addresses, loopback, link-local, protocol
-- assignments but two, documentation, benchmarks, the 6to4 relays, multicast and what is reserved.
pub record IsRouted (n : ℕ) : Type 0 where
  pub this_network : quad 1 0 0 0 ≤ n
  pub private_10 : Outside (quad 10 0 0 0) (quad 11 0 0 0) n
  pub shared : Outside (quad 100 64 0 0) (quad 100 128 0 0) n
  pub loopback : Outside (quad 127 0 0 0) (quad 128 0 0 0) n
  pub link_local : Outside (quad 169 254 0 0) (quad 169 255 0 0) n
  pub private_172 : Outside (quad 172 16 0 0) (quad 172 32 0 0) n
  pub protocol :
      Outside (quad 192 0 0 0) (quad 192 0 1 0) n ⊎ ((quad 192 0 0 9 ≤ n) × (n ≤ quad 192 0 0 10))
  pub documentation_1 : Outside (quad 192 0 2 0) (quad 192 0 3 0) n
  pub relays : Outside (quad 192 88 99 0) (quad 192 88 100 0) n
  pub private_192 : Outside (quad 192 168 0 0) (quad 192 169 0 0) n
  pub benchmarks : Outside (quad 198 18 0 0) (quad 198 20 0 0) n
  pub documentation_2 : Outside (quad 198 51 100 0) (quad 198 51 101 0) n
  pub documentation_3 : Outside (quad 203 0 113 0) (quad 203 0 114 0) n
  pub multicast : Outside (quad 224 0 0 0) (2 ^ 32) n

abbrev pub Within : ℕ → ℕ → ℕ → Type 0
Within low high n = (low ≤ n) × (n < high)

outside : (n base free : ℕ) → in_prefix n (base, free) ≡ false → n / 2 ^ free ≢ base / 2 ^ free
unfolding in_prefix
outside n base free h = ground arith

-- What the ladder of tests comes to.
ladder :
    (global private special listed : Bool)
    → (if not global || private then false else if special then true else not listed) ≡ true
    → (global ≡ true) × (private ≡ false) × ((special ≡ true) ⊎ (listed ≡ false))
ladder global private special listed h = ground arith

five :
    (a b c d e : Bool)
    → (not a && not b && not c && not d && not e) ≡ true
    → (c ≡ false) × (d ≡ false) × (e ≡ false)
five a b c d e h = ground arith

three : (a b c : Bool) → (a || b || c) ≡ false → (a ≡ false) × (b ≡ false) × (c ≡ false)
three a b c h = ground arith

-- An address is in a prefix of a list, or in none of them.
abbrev pub Hits : List Prefix → ℕ → Type 0
Hits [] n = ⊥
Hits ((base, free) ∷ ps) n = (n / 2 ^ free ≡ base / 2 ^ free) ⊎ Hits ps n

abbrev pub Misses : List Prefix → ℕ → Type 0
Misses [] n = Unit
Misses ((base, free) ∷ ps) n = (n / 2 ^ free ≢ base / 2 ^ free) × Misses ps n

pub in_prefix-eq :
    (n base free : ℕ) → in_prefix n (base, free) ≡ true → n / 2 ^ free ≡ base / 2 ^ free
unfolding in_prefix
in_prefix-eq n base free h = ground arith

pub contains_addr-Hits : (ps : List Prefix) (n : ℕ) → contains_addr ps n ≡ true → Hits ps n
unfolding contains_addr
contains_addr-Hits [] n h = cc
contains_addr-Hits ((base, free) ∷ ps) n h =
    elim (||-true (in_prefix n (base, free)) (contains_addr ps n) h) [
      | inl this ↦ inl (in_prefix-eq n base free this)
      | inr other ↦ inr (contains_addr-Hits ps n other)
    ]

neither : (a b : Bool) → (a || b) ≡ false → (a ≡ false) × (b ≡ false)
neither a b h = ground arith

pub contains_addr-Misses : (ps : List Prefix) (n : ℕ) → contains_addr ps n ≡ false → Misses ps n
unfolding contains_addr
contains_addr-Misses [] n h = tt
contains_addr-Misses ((base, free) ∷ ps) n h =
    let (this, others) = neither (in_prefix n (base, free)) (contains_addr ps n) h in
    (outside n base free this, contains_addr-Misses ps n others)

pub out : (low high n : ℕ) → (low ≤ n → n < high → ⊥) → Outside low high n
out low high n h = elim (dec_lt n low) [
  | yes p ↦ inl p
  | no p ↦ elim (dec_lt n high) [ yes q ↦ absurd (h (omega arith) q) | no q ↦ inr (omega arith) ]
]

-- The tests of netip on an IPv4 address.
record Tested (n : ℕ) : Type 0 where
  loopback : n / 2 ^ 24 ≢ quad 127 0 0 0 / 2 ^ 24
  multicast : n / 2 ^ 28 ≢ quad 224 0 0 0 / 2 ^ 28
  link_local : n / 2 ^ 16 ≢ quad 169 254 0 0 / 2 ^ 16
  private_10 : n / 2 ^ 24 ≢ quad 10 0 0 0 / 2 ^ 24
  private_172 : n / 2 ^ 20 ≢ quad 172 16 0 0 / 2 ^ 20
  private_192 : n / 2 ^ 16 ≢ quad 192 168 0 0 / 2 ^ 16

tested : (n : ℕ) → is_global_unicast_v4 n ≡ true → is_private_v4 n ≡ false → Tested n
unfolding is_global_unicast_v4 is_private_v4
tested n global private =
    let (loop, multi, link) = five _ _ (in_prefix n (quad 127 0 0 0, 24)) _ _ global in
    let (ten, twelve, sixteen) = three _ _ _ private in
    record {
      loopback = outside n (quad 127 0 0 0) 24 loop;
      multicast = outside n (quad 224 0 0 0) 28 multi;
      link_local = outside n (quad 169 254 0 0) 16 link;
      private_10 = outside n (quad 10 0 0 0) 24 ten;
      private_172 = outside n (quad 172 16 0 0) 20 twelve;
      private_192 = outside n (quad 192 168 0 0) 16 sixteen;
    }

special-IsRouted : (n : ℕ) → quad 192 0 0 9 ≤ n → n ≤ quad 192 0 0 10 → IsRouted n
special-IsRouted n low high = record {
  this_network = omega arith;
  private_10 = inr (omega arith);
  shared = inr (omega arith);
  loopback = inr (omega arith);
  link_local = inr (omega arith);
  private_172 = inr (omega arith);
  protocol = inr (low, high);
  documentation_1 = inl (omega arith);
  relays = inl (omega arith);
  private_192 = inl (omega arith);
  benchmarks = inl (omega arith);
  documentation_2 = inl (omega arith);
  documentation_3 = inl (omega arith);
  multicast = inl (omega arith);
}

listed-IsRouted : (n : ℕ) → Tested n → Misses non_public_ipv4_prefixes n → IsRouted n
unfolding non_public_ipv4_prefixes
listed-IsRouted n t (m1, (m2, (m3, (m4, (m5, (m6, (m7, (m8, (m9, _))))))))) =
    let not_127 = t.loopback in
    let not_224 = t.multicast in
    let not_link = t.link_local in
    let not_10 = t.private_10 in
    let not_172 = t.private_172 in
    let not_192 = t.private_192 in
    record {
      this_network = omega arith;
      private_10 = out _ _ n (λ a b. omega arith);
      shared = out _ _ n (λ a b. omega arith);
      loopback = out _ _ n (λ a b. omega arith);
      link_local = out _ _ n (λ a b. omega arith);
      private_172 = out _ _ n (λ a b. omega arith);
      protocol = inl (out _ _ n (λ a b. omega arith));
      documentation_1 = out _ _ n (λ a b. omega arith);
      relays = out _ _ n (λ a b. omega arith);
      private_192 = out _ _ n (λ a b. omega arith);
      benchmarks = out _ _ n (λ a b. omega arith);
      documentation_2 = out _ _ n (λ a b. omega arith);
      documentation_3 = out _ _ n (λ a b. omega arith);
      multicast = out _ _ n (λ a b. omega arith);
    }

found-IsRouted : (n : ℕ) → Hits globally_reachable_ipv4_special_prefixes n → IsRouted n
unfolding globally_reachable_ipv4_special_prefixes
found-IsRouted n (inl nine) = special-IsRouted n (omega arith) (omega arith)
found-IsRouted n (inr (inl ten)) = special-IsRouted n (omega arith) (omega arith)
found-IsRouted n (inr (inr none)) = absurd none

pub public_v4-IsRouted : (n : ℕ) → public_v4 n ≡ true → IsRouted n
unfolding public_v4
public_v4-IsRouted n h =
    let (global, private, rest) =
      ladder _ _ (contains_addr globally_reachable_ipv4_special_prefixes n) _ h in
    elim rest [
      | inl special ↦
          found-IsRouted n (contains_addr-Hits globally_reachable_ipv4_special_prefixes n special)
      | inr listed ↦
          listed-IsRouted n (tested n global private)
            (contains_addr-Misses non_public_ipv4_prefixes n listed)
    ]
