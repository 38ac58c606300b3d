-- ===== src/Wire/Shrink.antt =====
-- A reader takes bytes off the front: what is left is never longer than what was there.
use nandroidfs.Base.{
  ◌+◌, ℕ, zero, suc, ◌≤◌, ◌<◌, ◌≡◌, refl, arith, Option, none, some, [], ◌∷◌, Bytes, length,
}
use nandroidfs.Wire.{
  Get, ◌>>=◌, pure, read_exact, with_head, read_byte, read_u16, read_u32, read_u64,
  read_utf8_string,
}

pub record Shrinks {A : Type 0} (get : Get A) : Type 0 where
  pub at :
      (input : Bytes) (a : A) (rest : Bytes)
      → get input ≡ some (a, rest)
      → length rest ≤ length input

with_head-some :
    (b : ℕ) (o : Option (Bytes × Bytes)) (a rest : Bytes)
    → with_head b o ≡ some (a, rest)
    → (t : Bytes) × (o ≡ some (t, rest)) × (length a ≡ suc (length t))
with_head-some b none a rest h = ground arith
with_head-some b (some (t, r)) a rest h = (t, ground arith, ground arith)

-- `n` bytes are taken, and no others.
pub read_exact_lengths :
    (n : ℕ) (input a rest : Bytes)
    → read_exact n input ≡ some (a, rest)
    → (length a ≡ n) × (length input ≡ n + length rest)
unfolding read_exact
read_exact_lengths zero input a rest h = ground arith
read_exact_lengths (suc n) [] a rest h = ground arith
read_exact_lengths (suc n) (b ∷ input) a rest h =
    let (t, e, l) = with_head-some b (read_exact n input) a rest h in
    omega (arith, read_exact_lengths n input t rest e)

pub length-read_exact :
    (n : ℕ) (input a rest : Bytes) → read_exact n input ≡ some (a, rest) → length a ≡ n
length-read_exact n input a rest h = (read_exact_lengths n input a rest h).0

module _ {A : Type 0} where
  pub Shrinks-pure : (a : A) → Shrinks (pure a)
  Shrinks-pure a = record { at = λ input b rest h. ground arith }

module _ {A B : Type 0} where
  bind-Shrinks :
      (o : Option (A × Bytes)) (f : A → Get B) (n : ℕ) (b : B) (rest : Bytes)
      → ((a : A) (r : Bytes) → o ≡ some (a, r) → length r ≤ n)
      → ((a : A) → Shrinks (f a))
      → ◌≡◌ {A = Option (B × Bytes)} (elim o [ none ↦ none | some (a, r) ↦ f a r ]) (some (b, rest))
      → length rest ≤ n
  bind-Shrinks none f n b rest hm hf e = ground arith
  bind-Shrinks (some (a, r)) f n b rest hm hf e = omega (arith, hm a r refl, (hf a).at r b rest e)

  pub Shrinks-bind :
      (m : Get A) (f : A → Get B) → Shrinks m → ((a : A) → Shrinks (f a)) → Shrinks (m >>= f)
  Shrinks-bind m f hm hf = record {
    at = λ input b rest h. bind-Shrinks (m input) f (length input) b rest (hm.at input) hf h;
  }

pub Shrinks-read_exact : (n : ℕ) → Shrinks (read_exact n)
Shrinks-read_exact n = record {
  at = λ input a rest h. omega (arith, (read_exact_lengths n input a rest h).1);
}

pub Shrinks-read_byte : Shrinks read_byte
unfolding read_byte
Shrinks-read_byte = Shrinks-bind (read_exact 1) _ (Shrinks-read_exact 1) (λ a. Shrinks-pure _)

pub Shrinks-read_u16 : Shrinks read_u16
unfolding read_u16
Shrinks-read_u16 = Shrinks-bind (read_exact 2) _ (Shrinks-read_exact 2) (λ a. Shrinks-pure _)

pub Shrinks-read_u32 : Shrinks read_u32
unfolding read_u32
Shrinks-read_u32 = Shrinks-bind (read_exact 4) _ (Shrinks-read_exact 4) (λ a. Shrinks-pure _)

pub Shrinks-read_u64 : Shrinks read_u64
unfolding read_u64
Shrinks-read_u64 = Shrinks-bind (read_exact 8) _ (Shrinks-read_exact 8) (λ a. Shrinks-pure _)

pub Shrinks-read_utf8_string : Shrinks read_utf8_string
unfolding read_utf8_string
Shrinks-read_utf8_string = Shrinks-bind read_u16 _ Shrinks-read_u16 Shrinks-read_exact

-- A byte that is read is gone.
pub read_byte-shorter :
    (input : Bytes) (b : ℕ) (rest : Bytes)
    → read_byte input ≡ some (b, rest)
    → length rest < length input
unfolding read_byte read_exact
read_byte-shorter [] b rest h = ground arith
read_byte-shorter (x ∷ input) b rest h = ground arith

pub ruleset shrinks_rules = (
  Shrinks-pure, Shrinks-bind, Shrinks-read_byte, Shrinks-read_u32, Shrinks-read_u64,
  Shrinks-read_utf8_string,
)
