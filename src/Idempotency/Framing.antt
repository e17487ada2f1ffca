-- ===== src/Idempotency/Framing.antt =====
-- The bytes that `digest` hashes: no two lists of parts have the same stream.
use go_service_template_rest.Base.{
  ℕ, zero, suc, ◌/◌, ◌%◌, ◌^◌, ◌<◌, ◌≡◌, ◌≢◌, refl, sym, ap, ◌∙◌, List, [], ◌∷◌, ◌++◌, Bytes,
  length, length-append, All, arith, append_assoc,
}
use native.Mathlib.Nat.{pow-suc}
use go_service_template_rest.Idempotency.{big_endian, write_part, write_parts}

module _ {ℓ} {A : Type ℓ} where
  -- Prefixes of one length are equal where the whole lists are.
  append-split : (a b x y : List A) → length a ≡ length b → a ++ x ≡ b ++ y → (a ≡ b) × (x ≡ y)
  append-split [] [] x y l e = (refl, e)
  append-split [] (c ∷ b) x y l e = absurd (omega arith)
  append-split (c ∷ a) [] x y l e = absurd (omega arith)
  append-split (c ∷ a) (d ∷ b) x y l e =
      let (same, rest) = append-split a b x y (omega arith) (ground arith) in (ground arith, rest)

length-big_endian : (k n : ℕ) → length (big_endian k n) ≡ k
unfolding big_endian
length-big_endian zero n = refl
length-big_endian (suc k) n =
    omega
      (arith, length-append (big_endian k (n / 256)) (n % 256 ∷ []), length-big_endian k (n / 256))

below_power : (k n : ℕ) → n < 256 ^ suc k → n / 256 < 256 ^ k
below_power k n h = omega (arith, pow-suc 256 k)

abbrev head_of : ℕ → Bytes → ℕ
head_of d [] = d
head_of d (c ∷ s) = c

big_endian-injective :
    (k n m : ℕ) → n < 256 ^ k → m < 256 ^ k → big_endian k n ≡ big_endian k m → n ≡ m
unfolding big_endian
big_endian-injective zero n m hn hm e = omega arith
big_endian-injective (suc k) n m hn hm e =
    let (high, low) =
      append-split (big_endian k (n / 256)) (big_endian k (m / 256)) (n % 256 ∷ []) (m % 256 ∷ [])
        (length-big_endian k (n / 256) ∙ sym (length-big_endian k (m / 256))) e in
    omega (
      arith,
      big_endian-injective k (n / 256) (m / 256) (below_power k n hn) (below_power k m hm) high,
      ap (head_of 0) low,
    )

-- The length of every part fits a uint64.
abbrev pub FitsUint64 : Bytes → Type 0
FitsUint64 part = length part < 256 ^ 8

write_part-injective :
    (a b x y : Bytes)
    → FitsUint64 a
    → FitsUint64 b
    → write_part a ++ x ≡ write_part b ++ y
    → (a ≡ b) × (x ≡ y)
unfolding write_part
write_part-injective a b x y ha hb e =
    let (lengths, rest) =
      append-split (big_endian 8 (length a)) (big_endian 8 (length b)) (a ++ x) (b ++ y)
        (length-big_endian 8 (length a) ∙ sym (length-big_endian 8 (length b)))
        (sym (append_assoc (big_endian 8 (length a)) a x)
          ∙ e
          ∙ append_assoc (big_endian 8 (length b)) b y) in
    append-split a b x y (big_endian-injective 8 (length a) (length b) ha hb lengths) rest

write_part-ne-nil : (a x : Bytes) → write_part a ++ x ≢ []
unfolding write_part
write_part-ne-nil a x e = omega (
  arith,
  ap length e,
  length-append (big_endian 8 (length a) ++ a) x,
  length-append (big_endian 8 (length a)) a,
  length-big_endian 8 (length a),
)

-- Two lists of parts, each shorter than 2^64 bytes, that are written as the same bytes are the same
-- list: no part can run into the next one.
pub write_parts-injective :
    (ps qs : List Bytes)
    → All FitsUint64 ps
    → All FitsUint64 qs
    → write_parts ps ≡ write_parts qs
    → ps ≡ qs
unfolding write_parts
write_parts-injective [] [] hp hq e = refl
write_parts-injective [] (q ∷ qs) hp hq e = absurd (write_part-ne-nil q (write_parts qs) (sym e))
write_parts-injective (p ∷ ps) [] hp hq e = absurd (write_part-ne-nil p (write_parts ps) e)
write_parts-injective (p ∷ ps) (q ∷ qs) hp hq e =
    let (same, rest) = write_part-injective p q (write_parts ps) (write_parts qs) hp.0 hq.0 e in
    let tails = write_parts-injective ps qs hp.1 hq.1 rest in cc
