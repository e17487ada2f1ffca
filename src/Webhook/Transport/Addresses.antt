-- ===== src/Webhook/Transport/Addresses.antt =====
-- Which addresses are tried, and in which order.
use go_service_template_rest.Base.{
  ◌/◌, ◌^◌, ◌≡◌, refl, subst, Bool, true, false, ◌||◌, List, [], ◌∷◌, map, Option, none, some, ltb,
  ◌==◌, length, Bool-cases, inl, inr, ◌⊎◌, arith, All, &&-true,
}
use go_service_template_rest.Base.GoError.{Err, ok}
use go_service_template_rest.Outbound.{Addr, v4, v6, unmap, public_address}
use go_service_template_rest.Outbound.Public.{Reachable, public_address-Reachable}
use go_service_template_rest.Webhook.Transport.{
  World, failed, Sent, addr_le, insert_addr, sort_addrs, same_addr, compact_from, compact,
  all_public, admit_destination_addresses, falls_back, try_from,
}

-- Every address but the last one.
abbrev pub AllButLast : (Addr → Type 0) → List Addr → Type 0
AllButLast P [] = Unit
AllButLast P (a ∷ []) = Unit
AllButLast P (a ∷ b ∷ rest) = P a × AllButLast P (b ∷ rest)

abbrev pub last_of : List Addr → Option Addr
last_of [] = none
last_of (a ∷ []) = some a
last_of (a ∷ b ∷ rest) = last_of (b ∷ rest)

-- The request was not built, or it failed before it was written.
abbrev pub Unsent : World → Addr → Type 0
Unsent w a =
    ((e : Err) × (w.request_error ≡ some e))
    ⊎ ((e : Err) × (too_long : Bool) × (tls : Bool) × (w.trip a ≡ failed e false too_long tls))

unmap-unmap : (a : Addr) → unmap (unmap a) ≡ unmap a
unfolding unmap
unmap-unmap (v4 n) = refl
unmap-unmap (v6 n zone) = elim (Bool-cases (n / 2 ^ 32 == 0xffff)) [
  | inl e ↦ rw e refl
  | inr e ↦ rw (e, e) refl
]

module _ (P : Addr → Type 0) where
  insert_addr-All : (a : Addr) (rest : List Addr) → P a → All P rest → All P (insert_addr a rest)
  unfolding insert_addr
  insert_addr-All a [] h hs = (h, tt)
  insert_addr-All a (b ∷ rest) h (first, others) = elim (Bool-cases (addr_le a b)) [
    | inl e ↦ rw e (h, (first, others))
    | inr e ↦ rw e (first, insert_addr-All a rest h others)
  ]

  sort_addrs-All : (rest : List Addr) → All P rest → All P (sort_addrs rest)
  unfolding sort_addrs
  sort_addrs-All [] h = tt
  sort_addrs-All (a ∷ rest) (first, others) =
      insert_addr-All a (sort_addrs rest) first (sort_addrs-All rest others)

  compact_from-All : (a : Addr) (rest : List Addr) → All P rest → All P (compact_from a rest)
  unfolding compact_from
  compact_from-All a [] h = tt
  compact_from-All a (b ∷ rest) (first, others) = elim (Bool-cases (same_addr a b)) [
    | inl e ↦ rw e (compact_from-All b rest others)
    | inr e ↦ rw e (first, compact_from-All b rest others)
  ]

  compact-All : (rest : List Addr) → All P rest → All P (compact rest)
  unfolding compact
  compact-All [] h = tt
  compact-All (a ∷ rest) (first, others) = (first, compact_from-All a rest others)

  cons-AllButLast :
      (Q : Addr → Type 0) (a : Addr) (rest : List Addr)
      → Q a
      → AllButLast Q rest
      → AllButLast Q (a ∷ rest)
  cons-AllButLast Q a [] first h = tt
  cons-AllButLast Q a (b ∷ rest) first h = (first, h)

  cons-last_of :
      (a : Addr) (rest : List Addr) (b : Addr) → last_of rest ≡ some b → last_of (a ∷ rest) ≡ some b
  cons-last_of a [] b h = cc
  cons-last_of a (c ∷ rest) b h = h

  -- Of the addresses that are tried, each was given, and the answer is that of the last.
  pub try_from_lem :
      (send : Addr → Sent) (a : Addr) (rest : List Addr)
      → All P (a ∷ rest)
      → All P (try_from send a rest).1
        × AllButLast (λ b. falls_back (send b) ≡ true) (try_from send a rest).1
        × ((b : Addr) × (last_of (try_from send a rest).1 ≡ some b)
            × ((try_from send a rest).0 ≡ send b))
  unfolding try_from
  try_from_lem sent a [] (first, _) = ((first, tt), tt, (a, refl, refl))
  try_from_lem sent a (b ∷ rest) (first, others) =
      let (all, order, end) = try_from_lem sent b rest others in
      let (last, is_last, same) = end in
      elim (Bool-cases (falls_back (sent a))) [
        | inl e ↦ rw e (
          (first, all),
          cons-AllButLast _ a (try_from sent b rest).1 e order,
          (last, cons-last_of a (try_from sent b rest).1 last is_last, same),
        )
        | inr e ↦ rw e ((first, tt), tt, (a, refl, refl))
      ]

all_public-Reachable :
    (found : List Addr) → all_public found ≡ true → All Reachable (map unmap found)
unfolding all_public
all_public-Reachable [] h = tt
all_public-Reachable (a ∷ found) h =
    let (first, rest) = &&-true (public_address (unmap a)) (all_public found) h in
    (
      subst Reachable (unmap-unmap a) (public_address-Reachable (unmap a) first),
      all_public-Reachable found rest,
    )

-- An address is in a list, and an address is one of a list once that is unmapped.
abbrev pub Listed : Addr → List Addr → Type 0
Listed b [] = ⊥
Listed b (c ∷ rest) = (c ≡ b) ⊎ Listed b rest

abbrev pub From : List Addr → Addr → Type 0
From found a = (b : Addr) × Listed b found × (unmap b ≡ a)

all-From :
    (found rest : List Addr)
    → ((b : Addr) → Listed b rest → Listed b found)
    → All (From found) (map unmap rest)
all-From found [] h = tt
all-From found (a ∷ rest) h =
    ((a, h a (inl refl), refl), all-From found rest (λ b there. h b (inr there)))

-- What holds of all that was found and is public holds of all that is admitted.
admitted-All :
    (P : Addr → Type 0) (found addresses : List Addr)
    → admit_destination_addresses found ≡ ok addresses
    → (all_public found ≡ true → All P (map unmap found))
    → All P addresses
unfolding admit_destination_addresses
admitted-All P found addresses h each =
    elim (Bool-cases (length found == 0 || ltb 64 (length found))) [
      | inl e ↦ let broken = rw e at h in cc broken
      | inr e ↦ elim (Bool-cases (all_public found)) [
        | inl p ↦
            let same : compact (sort_addrs (map unmap found)) ≡ addresses = ground arith in
            subst (All P) same (
              compact-All P (sort_addrs (map unmap found))
                (sort_addrs-All P (map unmap found) (each p)))
        | inr p ↦ let broken = rw (e, p) at h in cc broken
      ]
    ]

pub admitted-Reachable :
    (found addresses : List Addr)
    → admit_destination_addresses found ≡ ok addresses
    → All (λ a. Reachable a × From found a) addresses
admitted-Reachable found addresses h =
    All-both Reachable (From found) addresses
      (admitted-All Reachable found addresses h (all_public-Reachable found))
      (admitted-All (From found) found addresses h (λ _. all-From found found (λ b there. there)))
  where
    All-both : (P Q : Addr → Type 0) (l : List Addr) → All P l → All Q l → All (λ a. P a × Q a) l
    All-both P Q [] ps qs = tt
    All-both P Q (a ∷ l) (p, ps) (q, qs) = ((p, q), All-both P Q l ps qs)
