-- ===== src/Outbound.antt =====
-- internal/outboundtrust/public_address.go: which addresses may be connected to. Of netip the tests on
-- addresses are written out; an address is a number of 32 or of 128 bits, the latter with or without
-- a zone.
pub mod Public
use go_service_template_rest.Base.{
  ℕ, ◌+◌, ◌-◌, ◌*◌, ◌/◌, ◌%◌, ◌^◌, Bool, true, false, ◌||◌, ◌&&◌, not, List, [], ◌∷◌, if◌then◌else◌,
  ◌==◌, leb,
}

pub data Addr : Type 0 where
  v4 : ℕ → Addr
  v6 : ℕ → Bool → Addr

-- Addr.Unmap: ::ffff:0:0/96 is IPv4.
unfoldable pub unmap : Addr → Addr
unmap (v4 n) = v4 n
unmap (v6 n zone) = if n / 2 ^ 32 == 0xffff then v4 (n % 2 ^ 32) else v6 n zone

-- A dotted quad, and an address or prefix by its first 32 bits.
abbrev pub quad : ℕ → ℕ → ℕ → ℕ → ℕ
quad a b c d = a * 2 ^ 24 + b * 2 ^ 16 + c * 2 ^ 8 + d

abbrev pub top32 : ℕ → ℕ
top32 n = n * 2 ^ 96

-- A prefix: its first address and the number of bits that are free behind it.
abbrev pub Prefix : Type 0
Prefix = ℕ × ℕ

-- Prefix.Contains, on addresses of the prefix's own kind.
unfoldable pub in_prefix : ℕ → Prefix → Bool
in_prefix n (base, free) = n / 2 ^ free == base / 2 ^ free

unfoldable pub contains_addr : List Prefix → ℕ → Bool
unfolding in_prefix
contains_addr [] n = false
contains_addr (p ∷ ps) n = in_prefix n p || contains_addr ps n

unfoldable pub non_public_ipv4_prefixes : List Prefix
non_public_ipv4_prefixes =
    (quad 0 0 0 0, 24)
    ∷ (quad 100 64 0 0, 22)
    ∷ (quad 192 0 0 0, 8)
    ∷ (quad 192 0 2 0, 8)
    ∷ (quad 192 88 99 0, 8)
    ∷ (quad 198 18 0 0, 17)
    ∷ (quad 198 51 100 0, 8)
    ∷ (quad 203 0 113 0, 8)
    ∷ (quad 240 0 0 0, 28)
    ∷ []

unfoldable pub globally_reachable_ipv4_special_prefixes : List Prefix
globally_reachable_ipv4_special_prefixes = (quad 192 0 0 9, 0) ∷ (quad 192 0 0 10, 0) ∷ []

abbrev pub allocated_global_ipv6_prefix : Prefix
allocated_global_ipv6_prefix = (top32 0x20000000, 125)

abbrev pub public_nat64_prefix : Prefix
public_nat64_prefix = (top32 0x0064ff9b, 32)

unfoldable pub non_public_ipv6_prefixes : List Prefix
non_public_ipv6_prefixes =
    (top32 0x20010000, 105)
    ∷ (top32 0x20010db8, 96)
    ∷ (top32 0x20020000, 112)
    ∷ (top32 0x3fff0000, 108)
    ∷ []

unfoldable pub globally_reachable_ipv6_special_prefixes : List Prefix
globally_reachable_ipv6_special_prefixes =
    (top32 0x20010001 + 1, 0)
    ∷ (top32 0x20010001 + 2, 0)
    ∷ (top32 0x20010001 + 3, 0)
    ∷ (top32 0x20010003, 96)
    ∷ (top32 0x20010004 + 0x0112 * 2 ^ 80, 80)
    ∷ (top32 0x20010020, 100)
    ∷ (top32 0x20010030, 100)
    ∷ []

-- Addr.IsGlobalUnicast and Addr.IsPrivate.
unfoldable pub is_global_unicast_v4 : ℕ → Bool
unfolding in_prefix
is_global_unicast_v4 n =
    not (n == 0)
    && not (n == quad 255 255 255 255)
    && not (in_prefix n (quad 127 0 0 0, 24))
    && not (in_prefix n (quad 224 0 0 0, 28))
    && not (in_prefix n (quad 169 254 0 0, 16))

unfoldable pub is_global_unicast_v6 : ℕ → Bool → Bool
unfolding in_prefix
is_global_unicast_v6 n zone =
    not (n == 0 && not zone)
    && not (n == 1)
    && not (in_prefix n (top32 0xff000000, 120))
    && not (in_prefix n (top32 0xfe800000, 118))

unfoldable pub is_private_v4 : ℕ → Bool
unfolding in_prefix
is_private_v4 n =
    in_prefix n (quad 10 0 0 0, 24)
    || in_prefix n (quad 172 16 0 0, 20)
    || in_prefix n (quad 192 168 0 0, 16)

unfoldable pub is_private_v6 : ℕ → Bool
unfolding in_prefix
is_private_v6 n = in_prefix n (top32 0xfc000000, 121)

-- `PublicAddress` of an IPv4 address.
unfoldable pub public_v4 : ℕ → Bool
unfolding is_global_unicast_v4 is_private_v4 contains_addr globally_reachable_ipv4_special_prefixes
    non_public_ipv4_prefixes
public_v4 n =
    if not (is_global_unicast_v4 n) || is_private_v4 n
    then false
    else if contains_addr globally_reachable_ipv4_special_prefixes n
    then true
    else not (contains_addr non_public_ipv4_prefixes n)

-- And of an IPv6 address; an address with a zone is in no prefix.
unfoldable pub public_v6 : ℕ → Bool → Bool
unfolding is_global_unicast_v6 is_private_v6 in_prefix public_v4 contains_addr
    globally_reachable_ipv6_special_prefixes non_public_ipv6_prefixes
public_v6 n zone =
    if not (is_global_unicast_v6 n zone) || is_private_v6 n
    then false
    else if not zone && in_prefix n public_nat64_prefix
    then public_v4 (n % 2 ^ 32)
    else if not (not zone && in_prefix n allocated_global_ipv6_prefix)
    then false
    else if contains_addr globally_reachable_ipv6_special_prefixes n
    then true
    else not (contains_addr non_public_ipv6_prefixes n)

unfoldable pub public_unmapped : Addr → Bool
unfolding public_v4 public_v6
public_unmapped (v4 n) = public_v4 n
public_unmapped (v6 n zone) = public_v6 n zone

-- `PublicAddress`.
unfoldable pub public_address : Addr → Bool
unfolding unmap public_unmapped
public_address address = public_unmapped (unmap address)
