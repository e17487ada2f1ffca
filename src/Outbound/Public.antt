-- ===== src/Outbound/Public.antt =====
-- What an address that may be connected to is not. Public/Routed has the part of IPv4.
pub mod Routed
use go_service_template_rest.Base.{
  [], ℕ, ◌+◌, ◌*◌, ◌/◌, ◌%◌, ◌^◌, ◌≤◌, ◌<◌, ◌≡◌, Bool, true, false, ◌⊎◌, inl, inr, arith, not, ◌&&◌,
  ◌||◌, if◌then◌else◌,
}
use go_service_template_rest.Outbound.{
  globally_reachable_ipv6_special_prefixes, non_public_ipv6_prefixes, Addr, v4, v6, top32, unmap,
  in_prefix, is_global_unicast_v6, is_private_v6, public_v4, public_v6, public_unmapped,
  public_address, public_nat64_prefix, allocated_global_ipv6_prefix, contains_addr,
}
use go_service_template_rest.Outbound.Public.Routed.{
  Outside, Within, IsRouted, out, Hits, Misses, in_prefix-eq, contains_addr-Hits,
  contains_addr-Misses, public_v4-IsRouted,
}

-- 2000::/3 without protocol assignments but seven, documentation and 6to4.
pub record IsAllocated (n : ℕ) : Type 0 where
  pub allocated : Within (top32 0x20000000) (top32 0x40000000) n
  pub protocol :
      Outside (top32 0x20010000) (top32 0x20010200) n
      ⊎ Within (top32 0x20010001 + 1) (top32 0x20010001 + 4) n
      ⊎ Within (top32 0x20010003) (top32 0x20010004) n
      ⊎ Within (top32 0x20010004 + 0x0112 * 2 ^ 80) (top32 0x20010004 + 0x0113 * 2 ^ 80) n
      ⊎ Within (top32 0x20010020) (top32 0x20010040) n
  pub documentation_1 : Outside (top32 0x20010db8) (top32 0x20010db9) n
  pub six_to_four : Outside (top32 0x20020000) (top32 0x20030000) n
  pub documentation_2 : Outside (top32 0x3fff0000) (top32 0x3fff1000) n

-- Where a connection may go: a routed IPv4 address, also as one embedded by NAT64, and otherwise the
-- public part of IPv6 that is allocated for global unicast, without a zone.
abbrev pub Reachable : Addr → Type 0
Reachable (v4 n) = IsRouted n
Reachable (v6 n zone) =
    (zone ≡ false)
    × (((n / 2 ^ 32 ≡ top32 0x0064ff9b / 2 ^ 32) × IsRouted (n % 2 ^ 32)) ⊎ IsAllocated n)

ladder_v6 :
    (global private zone nat embedded allocated special listed : Bool)
    → (if not global || private
        then false
        else if not zone && nat
        then embedded
        else if not (not zone && allocated)
        then false
        else if special
        then true
        else not listed)
      ≡ true
    → (zone ≡ false)
      × (((nat ≡ true) × (embedded ≡ true))
          ⊎ ((allocated ≡ true) × ((special ≡ true) ⊎ (listed ≡ false))))
ladder_v6 global private zone nat embedded allocated special listed h = ground arith

-- What of the protocol assignments is public.
abbrev Assigned : ℕ → Type 0
Assigned n =
    Within (top32 0x20010001 + 1) (top32 0x20010001 + 4) n
    ⊎ Within (top32 0x20010003) (top32 0x20010004) n
    ⊎ Within (top32 0x20010004 + 0x0112 * 2 ^ 80) (top32 0x20010004 + 0x0113 * 2 ^ 80) n
    ⊎ Within (top32 0x20010020) (top32 0x20010040) n

assigned : (n : ℕ) → top32 0x20010000 ≤ n → n < top32 0x20010200 → Assigned n → IsAllocated n
assigned n low high h = record {
  allocated = (omega arith, omega arith);
  protocol = inr h;
  documentation_1 = inl (omega arith);
  six_to_four = inl (omega arith);
  documentation_2 = inl (omega arith);
}

one_to_three : (n : ℕ) → top32 0x20010001 + 1 ≤ n → n < top32 0x20010001 + 4 → IsAllocated n
one_to_three n low high = assigned n (omega arith) (omega arith) (inl (low, high))

special-IsAllocated : (n : ℕ) → Hits globally_reachable_ipv6_special_prefixes n → IsAllocated n
unfolding globally_reachable_ipv6_special_prefixes
special-IsAllocated n (inl h) = one_to_three n (omega arith) (omega arith)
special-IsAllocated n (inr (inl h)) = one_to_three n (omega arith) (omega arith)
special-IsAllocated n (inr (inr (inl h))) = one_to_three n (omega arith) (omega arith)
special-IsAllocated n (inr (inr (inr (inl h)))) =
    assigned n (omega arith) (omega arith) (inr (inl (omega arith, omega arith)))
special-IsAllocated n (inr (inr (inr (inr (inl h))))) =
    assigned n (omega arith) (omega arith) (inr (inr (inl (omega arith, omega arith))))
special-IsAllocated n (inr (inr (inr (inr (inr (inl h)))))) =
    assigned n (omega arith) (omega arith) (inr (inr (inr (omega arith, omega arith))))
special-IsAllocated n (inr (inr (inr (inr (inr (inr (inl h))))))) =
    assigned n (omega arith) (omega arith) (inr (inr (inr (omega arith, omega arith))))
special-IsAllocated n (inr (inr (inr (inr (inr (inr (inr none))))))) = absurd none

listed-IsAllocated :
    (n : ℕ)
    → n / 2 ^ 125 ≡ top32 0x20000000 / 2 ^ 125
    → Misses non_public_ipv6_prefixes n
    → IsAllocated n
unfolding non_public_ipv6_prefixes
listed-IsAllocated n same (m1, (m2, (m3, (m4, _)))) = record {
  allocated = (omega arith, omega arith);
  protocol = inl (out _ _ n (λ a b. omega arith));
  documentation_1 = out _ _ n (λ a b. omega arith);
  six_to_four = out _ _ n (λ a b. omega arith);
  documentation_2 = out _ _ n (λ a b. omega arith);
}

v6-Reachable : (n : ℕ) (zone : Bool) → public_v6 n zone ≡ true → Reachable (v6 n zone)
unfolding public_v6
v6-Reachable n zone h =
    let (free_of_zone, rest) =
      ladder_v6 (is_global_unicast_v6 n zone) (is_private_v6 n) zone
        (in_prefix n public_nat64_prefix) (public_v4 (n % 2 ^ 32))
        (in_prefix n allocated_global_ipv6_prefix)
        (contains_addr globally_reachable_ipv6_special_prefixes n)
        (contains_addr non_public_ipv6_prefixes n) h in
    (
      free_of_zone,
      elim rest [
        | inl (nat, embedded) ↦
            inl (in_prefix-eq n (top32 0x0064ff9b) 32 nat, public_v4-IsRouted (n % 2 ^ 32) embedded)
        | inr (allocated, public) ↦ inr (elim public [
          | inl special ↦
              special-IsAllocated n
                (contains_addr-Hits globally_reachable_ipv6_special_prefixes n special)
          | inr listed ↦
              listed-IsAllocated n (in_prefix-eq n (top32 0x20000000) 125 allocated)
                (contains_addr-Misses non_public_ipv6_prefixes n listed)
        ])
      ],
    )

unmapped-Reachable : (a : Addr) → public_unmapped a ≡ true → Reachable a
unfolding public_unmapped
unmapped-Reachable (v4 n) h = public_v4-IsRouted n h
unmapped-Reachable (v6 n zone) h = v6-Reachable n zone h

-- An address that may be connected to is, once it is unmapped, a routed IPv4 address, one that NAT64
-- embeds, or an IPv6 address without a zone that is allocated and neither for documentation nor for
-- 6to4 nor a protocol assignment that is not public.
pub public_address-Reachable : (a : Addr) → public_address a ≡ true → Reachable (unmap a)
unfolding public_address
public_address-Reachable a h = unmapped-Reachable (unmap a) h
