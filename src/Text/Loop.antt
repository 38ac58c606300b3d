-- ===== src/Text/Loop.antt =====
-- What the loop over the newlines does, in terms of the lines of the text.
use nandroidfs.Base.{
  sym, drop, length-append, append_assoc, ◌∙◌, arith, drop-append_exact, length, ◌++◌, ◌≡◌, refl,
  ap, ℕ, zero, suc, ◌+◌, ◌≤◌, ◌<◌, none, some, List, [], ◌∷◌, Bytes,
}
use nandroidfs.Text.{find, newline, Lacks, split_lines, join_lines, for_newlines}
use nandroidfs.Text.Lines.{index_of-append, AreLines, split_lines-AreLines, join_lines-split_lines}

find_line :
    (before line more : Bytes)
    → Lacks newline line
    → find newline (length before) (before ++ (line ++ (newline ∷ more)))
      ≡ some (length before + length line)
unfolding find
find_line before line more h = rw (
  drop-append_exact (length before) before (line ++ (newline ∷ more)) refl,
  index_of-append newline line more h,
)

find-none :
    (before rest : Bytes)
    → Lacks newline rest
    → find newline (length before) (before ++ rest) ≡ none
unfolding find
find-none before rest h = rw (drop-append_exact (length before) before rest refl, h)

abbrev pub visit : {V : Type 0} → (Bytes → V → V) → List Bytes → V → V
visit f [] v = v
visit f (line ∷ lines) v = visit f lines (f line v)

-- Where the last newline of the lines stands, behind `start`.
abbrev pub behind : ℕ → List Bytes → ℕ
behind start [] = start
behind start (line ∷ lines) = behind (suc (start + length line)) lines

-- The start of the next line.
length-step :
    (before line : Bytes)
    → length (before ++ (line ++ (newline ∷ []))) ≡ suc (length before + length line)
length-step before line =
    omega (arith, length-append before (line ++ (newline ∷ [])), length-append line (newline ∷ []))

join-step :
    (before line more : Bytes)
    → before ++ (line ++ (newline ∷ more)) ≡ (before ++ (line ++ (newline ∷ []))) ++ more
join-step before line more =
    rw (append_assoc before (line ++ (newline ∷ [])) more, append_assoc line (newline ∷ []) more)

drop-behind :
    (before : Bytes) (lines : List Bytes) (rest : Bytes)
    → drop (behind (length before) lines) (before ++ join_lines lines rest) ≡ rest
drop-behind before [] rest = drop-append_exact (length before) before rest refl
drop-behind before (line ∷ lines) rest =
    rw (join-step before line (join_lines lines rest), ← length-step before line)
      (drop-behind (before ++ (line ++ (newline ∷ []))) lines rest)

length-lines : (lines : List Bytes) (rest : Bytes) → length lines ≤ length (join_lines lines rest)
length-lines [] rest = omega arith
length-lines (line ∷ lines) rest =
    omega (arith, length-lines lines rest, length-append line (newline ∷ join_lines lines rest))

-- A body that does `f` to what `view` shows of the state, for every line.
module _ {S V : Type 0} (body : Bytes → ℕ → ℕ → S → S) (view : S → V) (f : Bytes → V → V) where
  abbrev pub DoesLine : Type 0
  DoesLine =
      (before line more : Bytes) (s : S)
      → Lacks newline line
      → view (
          body (before ++ (line ++ (newline ∷ more))) (length before) (length before + length line)
            s)
        ≡ f line (view s)

  abbrev Goal : Bytes → ℕ → Bytes → List Bytes → S → Type 0
  Goal text fuel before lines s =
      (end : S) × (view end ≡ visit f lines (view s))
      × (for_newlines (body text) text fuel (length before) s
          ≡ some (end, behind (length before) lines))

  for_newlines_from :
      (fuel : ℕ) (lines : List Bytes) (before rest text : Bytes) (s : S)
      → DoesLine
      → AreLines (lines, rest)
      → length lines < fuel
      → text ≡ before ++ join_lines lines rest
      → Goal text fuel before lines s
  unfolding for_newlines
  for_newlines_from zero lines before rest text s does h enough e = absurd (omega arith)
  for_newlines_from (suc fuel) [] before rest text s does h enough e =
      let last : find newline (length before) text ≡ none = rw e (find-none before rest h.1) in
      (s, refl, rw (for_newlines, last))
  for_newlines_from (suc fuel) (line ∷ lines) before rest text s does h enough e =
      let more = join_lines lines rest in
      let next = before ++ (line ++ (newline ∷ [])) in
      let s' = body text (length before) (length before + length line) s in
      let (end, shown, found) =
        for_newlines_from fuel lines next rest text s' does ((h.0.1), h.1) (omega (arith, enough))
          (e ∙ join-step before line more) in
      let found_line : find newline (length before) text ≡ some (length before + length line) =
        rw e (find_line before line more h.0.0) in
      (
        end,
        shown ∙ ap (visit f lines) (rw e (does before line more s h.0.0)),
        rw (for_newlines, found_line) (rw (← length-step before line) found),
      )

  pub for_newlines_lem :
      (text : Bytes) (s : S)
      → DoesLine
      → (end : S) × (start : ℕ) × (view end ≡ visit f (split_lines text).0 (view s))
        × (for_newlines (body text) text (suc (length text)) 0 s ≡ some (end, start))
        × (drop start text ≡ (split_lines text).1)
  for_newlines_lem text s does =
      let lines = (split_lines text).0 in
      let rest = (split_lines text).1 in
      let joined = join_lines-split_lines text in
      let (end, shown, found) =
        for_newlines_from (suc (length text)) lines [] rest text s does (split_lines-AreLines text)
          (omega (arith, length-lines lines rest, ap length joined)) (sym joined) in
      (
        end,
        behind 0 lines,
        shown,
        found,
        ap (drop (behind 0 lines)) (sym joined) ∙ drop-behind [] lines rest,
      )
