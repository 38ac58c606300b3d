-- ===== src/Wire.antt =====
-- What nandroid_shared/serialization.cpp puts on the wire: the fields that `DataWriter` writes
-- and `DataReader` reads, as functions on byte strings. `Serial` refines these by the buffers.
pub mod RoundTrip
pub mod Shrink
pub mod ByteOrder
mod Tests
use nandroidfs.Base.{
  ℕ, zero, suc, ◌+◌, ◌-◌, ◌*◌, ◌/◌, ◌%◌, ◌^◌, ◌≤◌, ◌<◌, Bool, true, false, Option, none, some, List,
  [], ◌∷◌, ◌++◌, Bytes, length, leb, if◌then◌else◌,
}
use mathlib.Core.Bool.{◌&&◌}

abbrev pub IsByte : ℕ → Type 0
IsByte b = b < 256

-- A reader takes its value off the front of the bytes that are still to come. `none` is
-- `EOFException`: the stream ended inside the value.
abbrev pub Get : Type 0 → Type 0
Get A = Bytes → Option (A × Bytes)

infixl 5 ◌>>=◌
abbrev pub ◌>>=◌ : {A B : Type 0} → Get A → (A → Get B) → Get B
◌>>=◌ m f input = elim (m input) [ none ↦ none | some (a, rest) ↦ f a rest ]

abbrev pub pure : {A : Type 0} → A → Get A
pure a input = some (a, input)

abbrev pub with_head : ℕ → Option (Bytes × Bytes) → Option (Bytes × Bytes)
with_head b none = none
with_head b (some (taken, rest)) = some (b ∷ taken, rest)

unfoldable pub read_exact : ℕ → Get Bytes
read_exact zero input = some ([], input)
read_exact (suc n) [] = none
read_exact (suc n) (b ∷ input) = with_head b (read_exact n input)

-- The number that bytes in network order stand for.
abbrev pub of_network : Bytes → ℕ → ℕ
of_network [] acc = acc
of_network (b ∷ bytes) acc = of_network bytes (acc * 256 + b)

abbrev pub first_byte : Bytes → ℕ
first_byte [] = 0
first_byte (b ∷ _) = b

unfoldable pub read_byte : Get ℕ
unfolding read_exact
read_byte = do bytes ← read_exact 1; pure (first_byte bytes)

unfoldable pub read_u16 : Get ℕ
unfolding read_exact
read_u16 = do bytes ← read_exact 2; pure (of_network bytes 0)

unfoldable pub read_u32 : Get ℕ
unfolding read_exact
read_u32 = do bytes ← read_exact 4; pure (of_network bytes 0)

unfoldable pub read_u64 : Get ℕ
unfolding read_exact
read_u64 = do bytes ← read_exact 8; pure (of_network bytes 0)

unfoldable pub read_utf8_string : Get Bytes
read_utf8_string = do n ← read_u16; read_exact n

-- What a sequence of writes adds to the output, and whether none of them threw. A throw keeps
-- what was written before it.
pub record Put : Type 0 where
  pub bytes : Bytes
  pub fits : Bool

infixr 20 ◌⨾◌
abbrev pub ◌⨾◌ : Put → Put → Put
p ⨾ q = record { bytes = if p.fits then p.bytes ++ q.bytes else p.bytes; fits = p.fits && q.fits }

abbrev pub write_exact : Bytes → Put
write_exact b = record { bytes = b; fits = true }

-- The bytes of a number in network order, most significant first.
abbrev pub network16 : ℕ → Bytes
network16 v = (v / 2 ^ 8 % 256) ∷ (v % 256) ∷ []

abbrev pub network32 : ℕ → Bytes
network32 v = (v / 2 ^ 24 % 256) ∷ (v / 2 ^ 16 % 256) ∷ (v / 2 ^ 8 % 256) ∷ (v % 256) ∷ []

abbrev pub network64 : ℕ → Bytes
network64 v =
    (v / 2 ^ 56 % 256)
    ∷ (v / 2 ^ 48 % 256)
    ∷ (v / 2 ^ 40 % 256)
    ∷ (v / 2 ^ 32 % 256)
    ∷ (v / 2 ^ 24 % 256)
    ∷ (v / 2 ^ 16 % 256)
    ∷ (v / 2 ^ 8 % 256)
    ∷ (v % 256)
    ∷ []

unfoldable pub write_byte : ℕ → Put
write_byte b = write_exact (b ∷ [])

unfoldable pub write_u16 : ℕ → Put
write_u16 v = write_exact (network16 v)

unfoldable pub write_u32 : ℕ → Put
write_u32 v = write_exact (network32 v)

unfoldable pub write_u64 : ℕ → Put
write_u64 v = write_exact (network64 v)

-- A string longer than a 16-bit length can say is not written, and throws.
unfoldable pub write_utf8_string : Bytes → Put
write_utf8_string data' =
    if leb (length data') 65535
    then write_u16 (length data') ⨾ write_exact data'
    else record { bytes = []; fits = false }
