-- ===== src/Wire/RoundTrip.antt =====
-- Each field that is written is read back, whatever follows it.
use nandroidfs.Base.{ℕ, ◌^◌, ◌<◌, ◌≡◌, refl, arith, ap, some, [], ◌∷◌, ◌++◌, Bytes, length}
use nandroidfs.Wire.{
  read_exact, read_byte, read_u16, read_u32, read_u64, read_utf8_string, network16, network32,
  network64, ◌>>=◌, write_exact, write_utf8_string, write_u16, with_head,
}

pub read_exact-append :
    (bytes rest : Bytes) → read_exact (length bytes) (bytes ++ rest) ≡ some (bytes, rest)
unfolding read_exact
read_exact-append [] rest = refl
read_exact-append (b ∷ bytes) rest = ap (with_head b) (read_exact-append bytes rest)

pub read_byte_lem : (b : ℕ) (rest : Bytes) → read_byte (b ∷ rest) ≡ some (b, rest)
unfolding read_byte
read_byte_lem b rest = ap (λ n. some (n, rest)) (omega arith)

pub read_u16_lem :
    (v : ℕ) (rest : Bytes) → v < 2 ^ 16 → read_u16 (network16 v ++ rest) ≡ some (v, rest)
unfolding read_u16
read_u16_lem v rest h = ap (λ n. some (n, rest)) (omega arith)

pub read_u32_lem :
    (v : ℕ) (rest : Bytes) → v < 2 ^ 32 → read_u32 (network32 v ++ rest) ≡ some (v, rest)
unfolding read_u32
read_u32_lem v rest h = ap (λ n. some (n, rest)) (omega arith)

pub read_u64_lem :
    (v : ℕ) (rest : Bytes) → v < 2 ^ 64 → read_u64 (network64 v ++ rest) ≡ some (v, rest)
unfolding read_u64
read_u64_lem v rest h = ap (λ n. some (n, rest)) (omega arith)

-- A string of at most 65535 bytes is its length and its bytes.
pub write_utf8_string_lem :
    (s : Bytes) → length s < 2 ^ 16 → write_utf8_string s ≡ write_exact (network16 (length s) ++ s)
unfolding write_utf8_string write_u16
write_utf8_string_lem s h = ground arith

pub read_utf8_string_lem :
    (s rest : Bytes)
    → length s < 2 ^ 16
    → read_utf8_string (network16 (length s) ++ (s ++ rest)) ≡ some (s, rest)
unfolding read_utf8_string
read_utf8_string_lem s rest h =
    rw (read_u16_lem (length s) (s ++ rest) h, ◌>>=◌) (read_exact-append s rest)
