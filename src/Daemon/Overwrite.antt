-- ===== src/Daemon/Overwrite.antt =====
-- A file's bytes as a write changes them.
use nandroidfs.Base.{
  drop-drop, length-take, ℕ, ◌+◌, ◌-◌, ◌≤◌, ◌≡◌, refl, sym, ap, ◌∙◌, arith, [], ◌∷◌, ◌++◌, Bytes,
  length, take, drop, append-nil, append_assoc, length-append, length-replicate, take-append_exact,
  drop-append_exact, replicate,
}

-- `bytes` put at `offset`; a gap behind the end is filled with zeros.
abbrev pub splice : ℕ → Bytes → Bytes → Bytes
splice offset bytes content =
    take offset (content ++ replicate (offset - length content) 0)
    ++ (bytes ++ drop (offset + length bytes) content)

-- No bytes leave a file as it is.
abbrev pub overwrite : ℕ → Bytes → Bytes → Bytes
overwrite offset [] content = content
overwrite offset (b ∷ bytes) content = splice offset (b ∷ bytes) content

length-front :
    (offset : ℕ) (content zeros : Bytes)
    → zeros ≡ replicate (offset - length content) 0
    → length (take offset (content ++ zeros)) ≡ offset
length-front offset content zeros e =
    let count : length zeros ≡ offset - length content =
      rw e (length-replicate (offset - length content) 0) in
    omega (arith, length-take offset (content ++ zeros), length-append content zeros, count)

-- What `take` and `drop` find of a splice behind its bytes.
front_of_splice :
    (n : ℕ) (front bytes back zeros : Bytes)
    → n ≡ length front + length bytes
    → take n ((front ++ (bytes ++ back)) ++ zeros) ≡ front ++ bytes
front_of_splice n front bytes back zeros e =
    rw (← append_assoc front bytes back, append_assoc (front ++ bytes) back zeros)
      (take-append_exact n (front ++ bytes) (back ++ zeros)
        (omega (arith, e, length-append front bytes)))

back_of_splice :
    (n m : ℕ) (front bytes back : Bytes)
    → n ≡ length front + length bytes
    → drop (n + m) (front ++ (bytes ++ back)) ≡ drop m back
back_of_splice n m front bytes back e =
    rw (← append_assoc front bytes back, ← drop-drop n m ((front ++ bytes) ++ back))
      (ap (drop m)
        (drop-append_exact n (front ++ bytes) back (omega (arith, e, length-append front bytes))))

splice-splice :
    (offset : ℕ) (a b content : Bytes)
    → splice (offset + length a) b (splice offset a content) ≡ splice offset (a ++ b) content
splice-splice offset a b content =
    let zeros : Bytes = replicate (offset - length content) 0 in
    let front : Bytes = take offset (content ++ zeros) in
    let back = drop (offset + length a) content in
    let size : length front ≡ offset = length-front offset content zeros refl in
    let behind : offset + length (a ++ b) ≡ (offset + length a) + length b =
      omega (arith, length-append a b) in
    rw
      (
        front_of_splice (offset + length a) front a back
            (replicate ((offset + length a) - length (splice offset a content)) 0)
            (omega (arith, size)),
        back_of_splice (offset + length a) (length b) front a back (omega (arith, size)),
        behind,
        drop-drop (offset + length a) (length b) content,
      )
      (join front a b (drop ((offset + length a) + length b) content))
  where
    join : (w x y z : Bytes) → (w ++ x) ++ (y ++ z) ≡ w ++ ((x ++ y) ++ z)
    join w x y z = rw (append_assoc w x (y ++ z), append_assoc x y z)

-- Two writes, one behind the other.
overwrite-overwrite :
    (offset : ℕ) (a b content : Bytes)
    → overwrite (offset + length a) b (overwrite offset a content)
      ≡ overwrite offset (a ++ b) content
overwrite-overwrite offset [] b content = ap (λ (n : ℕ). overwrite n b content) (omega arith)
overwrite-overwrite offset (x ∷ a) [] content = rw (append-nil a)
overwrite-overwrite offset (x ∷ a) (y ∷ b) content = splice-splice offset (x ∷ a) (y ∷ b) content

pub overwrite-take :
    (offset k : ℕ) (bytes rest content : Bytes)
    → k ≤ length bytes
    → overwrite (offset + k) rest (overwrite offset (take k bytes) content)
      ≡ overwrite offset (take k bytes ++ rest) content
overwrite-take offset k bytes rest content le =
    let size : length (take k bytes) ≡ k = omega (arith, le, length-take k bytes) in
    ap (λ (n : ℕ). overwrite (offset + n) rest (overwrite offset (take k bytes) content)) (sym size)
    ∙ overwrite-overwrite offset (take k bytes) rest content
