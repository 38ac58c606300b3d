-- ===== src/Text/Lines.antt =====
-- The cut of a text into lines.
use nandroidfs.Base.{
  Option-cases, inr, ==_iff, inl, Bool-cases, arith, ==_refl, All, length, ◌++◌, ◌≡◌, ◌==◌, refl, ℕ,
  false, some, List, [], ◌∷◌, Bytes,
}
use nandroidfs.Text.{index_of, newline, Lacks, split_lines, join_lines, prepend}

pub index_of-append :
    (c : ℕ) (line more : Bytes)
    → Lacks c line
    → index_of c (line ++ (c ∷ more)) ≡ some (length line)
unfolding index_of
index_of-append c [] more h = rw (==_refl c)
index_of-append c (b ∷ line) more h = ground (arith, index_of-append c line more)

join_lines-prepend :
    (b : ℕ) (p : List Bytes × Bytes)
    → join_lines (prepend b p).0 (prepend b p).1 ≡ b ∷ join_lines p.0 p.1
join_lines-prepend b ([], rest) = refl
join_lines-prepend b (line ∷ lines, rest) = refl

-- A text cut into lines.
abbrev pub AreLines : List Bytes × Bytes → Type 0
AreLines (lines, rest) = All (Lacks newline) lines × Lacks newline rest

pub Lacks-cons : (c b : ℕ) (text : Bytes) → (b == c) ≡ false → Lacks c text → Lacks c (b ∷ text)
unfolding index_of
Lacks-cons c b text other h = rw (other, h)

prepend-AreLines :
    (b : ℕ) (p : List Bytes × Bytes) → (b == newline) ≡ false → AreLines p → AreLines (prepend b p)
prepend-AreLines b ([], rest) other h = (tt, Lacks-cons newline b rest other h.1)
prepend-AreLines b (line ∷ lines, rest) other h =
    ((Lacks-cons newline b line other h.0.0, h.0.1), h.1)

pub split_lines-AreLines : (text : Bytes) → AreLines (split_lines text)
unfolding split_lines index_of
split_lines-AreLines [] = (tt, refl)
split_lines-AreLines (b ∷ text) = elim (Bool-cases (b == newline)) [
  | inl same ↦ rw same ((refl, (split_lines-AreLines text).0), (split_lines-AreLines text).1)
  | inr other ↦ rw other (prepend-AreLines b (split_lines text) other (split_lines-AreLines text))
]

pub join_lines-split_lines :
    (text : Bytes) → join_lines (split_lines text).0 (split_lines text).1 ≡ text
unfolding split_lines
join_lines-split_lines [] = refl
join_lines-split_lines (b ∷ text) = elim (Bool-cases (b == newline)) [
  | inl same ↦ rw (same, join_lines-split_lines text, (==_iff b newline).0 same)
  | inr other ↦ rw (other, join_lines-prepend b (split_lines text), join_lines-split_lines text)
]

-- More text behind a text continues its unfinished line.
abbrev pub then_lines : List Bytes × Bytes → Bytes → List Bytes × Bytes
then_lines (lines, rest) more =
    (lines ++ (split_lines (rest ++ more)).0, (split_lines (rest ++ more)).1)

prepend-then_lines :
    (b : ℕ) (p : List Bytes × Bytes) (more : Bytes)
    → (b == newline) ≡ false
    → prepend b (then_lines p more) ≡ then_lines (prepend b p) more
unfolding split_lines
prepend-then_lines b ([], rest) more other = rw other
prepend-then_lines b (line ∷ lines, rest) more other = refl

pub split_lines-append :
    (text more : Bytes) → split_lines (text ++ more) ≡ then_lines (split_lines text) more
unfolding split_lines
split_lines-append [] more = refl
split_lines-append (b ∷ text) more = elim (Bool-cases (b == newline)) [
  | inl same ↦ rw (same, split_lines-append text more)
  | inr other ↦
      rw (other, split_lines-append text more) (prepend-then_lines b (split_lines text) more other)
]

pub Lacks-uncons : (c b : ℕ) (text : Bytes) → Lacks c (b ∷ text) → ((b == c) ≡ false) × Lacks c text
unfolding index_of
Lacks-uncons c b text h = elim (Option-cases (index_of c text)) [
  | inl lacks ↦ (ground (arith, h), lacks)
  | inr (i, e) ↦ absurd (ground (arith, h, e))
]

pub split_lines-rest : (text : Bytes) → Lacks newline text → split_lines text ≡ ([], text)
unfolding split_lines
split_lines-rest [] h = refl
split_lines-rest (b ∷ text) h =
    let (other, lacks) = Lacks-uncons newline b text h in rw (other, split_lines-rest text lacks)

pub split_lines-line :
    (line more : Bytes)
    → Lacks newline line
    → split_lines (line ++ (newline ∷ more)) ≡ (line ∷ (split_lines more).0, (split_lines more).1)
unfolding split_lines
split_lines-line [] more h = refl
split_lines-line (b ∷ line) more h =
    let (other, lacks) = Lacks-uncons newline b line h in
    rw (other, split_lines-line line more lacks)
