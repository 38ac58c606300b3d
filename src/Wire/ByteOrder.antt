-- ===== src/Wire/ByteOrder.antt =====
-- htonll and ntohll of nandroid_shared/serialization.cpp, as the daemon is built: on a machine that
-- keeps the least significant byte first. `htonl` is that of <arpa/inet.h>.
use Prim.Native.Nat.{bit_or}
use nandroidfs.Base.{
  ℕ, ◌+◌, ◌*◌, ◌/◌, ◌%◌, ◌^◌, ◌<◌, ◌≡◌, ap, ◌∙◌, sym, arith, [], ◌∷◌, ◌++◌, Bytes,
}
use nandroidfs.Base.Bits.{bit_or_disjoint}
use nandroidfs.Wire.{network32, network64, of_network}

-- The bytes of a number in memory, least significant first.
abbrev pub memory32 : ℕ → Bytes
memory32 v = (v % 256) ∷ (v / 2 ^ 8 % 256) ∷ (v / 2 ^ 16 % 256) ∷ (v / 2 ^ 24 % 256) ∷ []

abbrev pub memory64 : ℕ → Bytes
memory64 v =
    (v % 256)
    ∷ (v / 2 ^ 8 % 256)
    ∷ (v / 2 ^ 16 % 256)
    ∷ (v / 2 ^ 24 % 256)
    ∷ (v / 2 ^ 32 % 256)
    ∷ (v / 2 ^ 40 % 256)
    ∷ (v / 2 ^ 48 % 256)
    ∷ (v / 2 ^ 56 % 256)
    ∷ []

module _ (htonl : ℕ → ℕ) where
  -- `htonl` takes 32 bits.
  unfoldable pub htonll : ℕ → ℕ
  htonll v = bit_or (htonl (v % 2 ^ 32) * 2 ^ 32 % 2 ^ 64) (htonl (v / 2 ^ 32 % 2 ^ 32))

  unfoldable pub ntohll : ℕ → ℕ
  unfolding htonll
  ntohll v = htonll v

  -- What <arpa/inet.h> promises: the result, as it stands in memory, is in network order.
  pub record ToNetwork : Type 0 where
    pub below : (x : ℕ) → x < 2 ^ 32 → htonl x < 2 ^ 32
    pub ordered : (x : ℕ) → x < 2 ^ 32 → memory32 (htonl x) ≡ network32 x

memory64_halves :
    (a b : ℕ) → a < 2 ^ 32 → b < 2 ^ 32 → memory64 (a * 2 ^ 32 + b) ≡ memory32 b ++ memory32 a
memory64_halves a b h k = ground arith

network64_halves : (v : ℕ) → network64 v ≡ network32 (v / 2 ^ 32 % 2 ^ 32) ++ network32 (v % 2 ^ 32)
network64_halves v = ground arith

of_memory : Bytes → ℕ
of_memory [] = 0
of_memory (b ∷ bytes) = b + 256 * of_memory bytes

of_memory-memory64 : (v : ℕ) → v < 2 ^ 64 → of_memory (memory64 v) ≡ v
unfolding of_memory
of_memory-memory64 v h = omega arith

of_network-network64 : (v : ℕ) → v < 2 ^ 64 → of_network (network64 v) 0 ≡ v
of_network-network64 v h = omega arith

-- Network order is memory read backwards.
of_memory-network64 : (v : ℕ) → of_memory (network64 v) ≡ of_network (memory64 v) 0
unfolding of_memory
of_memory-network64 v = omega arith

module _ (htonl : ℕ → ℕ) (law : ToNetwork htonl) where
  htonll_halves :
      (v : ℕ) → htonll htonl v ≡ htonl (v % 2 ^ 32) * 2 ^ 32 + htonl (v / 2 ^ 32 % 2 ^ 32)
  unfolding htonll
  htonll_halves v =
      let high = law.below (v % 2 ^ 32) (omega arith) in
      let low = law.below (v / 2 ^ 32 % 2 ^ 32) (omega arith) in
      ap (λ (t : ℕ). bit_or t (htonl (v / 2 ^ 32 % 2 ^ 32))) (omega arith)
      ∙ bit_or_disjoint 32 (htonl (v % 2 ^ 32)) (htonl (v / 2 ^ 32 % 2 ^ 32)) low

  htonll_below : (v : ℕ) → htonll htonl v < 2 ^ 64
  htonll_below v =
      let high = law.below (v % 2 ^ 32) (omega arith) in
      let low = law.below (v / 2 ^ 32 % 2 ^ 32) (omega arith) in rw (htonll_halves v) (omega arith)

  memory64-htonll : (v : ℕ) → memory64 (htonll htonl v) ≡ network64 v
  memory64-htonll v =
      ap memory64 (htonll_halves v)
      ∙ (memory64_halves (htonl (v % 2 ^ 32)) (htonl (v / 2 ^ 32 % 2 ^ 32))
            (law.below _ (omega arith)) (law.below _ (omega arith))
          ∙ (ap (λ (t : Bytes). t ++ memory32 (htonl (v % 2 ^ 32)))
                (law.ordered (v / 2 ^ 32 % 2 ^ 32) (omega arith))
              ∙ (ap (λ (t : Bytes). network32 (v / 2 ^ 32 % 2 ^ 32) ++ t)
                    (law.ordered (v % 2 ^ 32) (omega arith))
                  ∙ sym (network64_halves v))))

  -- If the result of htonl, below 2 ^ 32 for an argument below 2 ^ 32, stands in memory in network
  -- order, then on a machine that keeps the least significant byte first the result of htonll
  -- stands in memory as the eight bytes of its argument in network order, and ntohll gives the
  -- argument back.
  pub ntohll-htonll :
      (v : ℕ)
      → v < 2 ^ 64
      → (memory64 (htonll htonl v) ≡ network64 v) × (ntohll htonl (htonll htonl v) ≡ v)
  unfolding ntohll
  ntohll-htonll v h = (
    memory64-htonll v,
    sym (of_memory-memory64 (htonll htonl (htonll htonl v)) (htonll_below (htonll htonl v)))
        ∙ (ap of_memory (memory64-htonll (htonll htonl v))
            ∙ (of_memory-network64 (htonll htonl v)
                ∙ (ap (λ (t : Bytes). of_network t 0) (memory64-htonll v)
                    ∙ of_network-network64 v h))),
  )
