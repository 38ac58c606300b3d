-- ===== src/Text.antt =====
-- std::string as nandroidfs/Nandroid.cpp and nandroidfs/DeviceTracker.cpp use it to cut a text
-- into lines, and the cut that is meant. `npos` is `none`.
pub mod Lines
pub mod Loop
use nandroidfs.Base.{
  ltb, ◌+◌, ◌/◌, ◌%◌, ℕ, zero, suc, Bool, true, false, Option, none, some, List, [], ◌∷◌, Bytes,
  if◌then◌else◌, ◌==◌, ◌&&◌, take, drop, ◌++◌, map, ◌≡◌,
}
use Prim.Native.Char.{code}
use Prim.Native.String.{String}

-- A literal, as its bytes.
abbrev pub codes : String → Bytes
codes String.[] = []
codes (String.◌∷◌ c s) = code c ∷ codes s

-- A number as `std::format` and `std::to_string` print it; the fuel counts the digits behind the
-- first.
unfoldable pub digits_of : ℕ → ℕ → Bytes
digits_of zero n = (b'0' + n % 10) ∷ []
digits_of (suc fuel) n =
    let front = digits_of fuel (n / 10) in
    if ltb n 10 then (b'0' + n) ∷ [] else front ++ ((b'0' + n % 10) ∷ [])

-- A `uint16_t` has at most five digits.
abbrev pub decimal16 : ℕ → Bytes
decimal16 = digits_of 4

abbrev pub newline : ℕ
newline = b'\n'

abbrev pub carriage_return : ℕ
carriage_return = b'\r'

abbrev pub shift : ℕ → Option ℕ → Option ℕ
shift n none = none
shift n (some i) = some (n + i)

unfoldable pub index_of : ℕ → Bytes → Option ℕ
index_of c [] = none
index_of c (b ∷ s) = let i = index_of c s in if b == c then some 0 else shift 1 i

-- `text.find(c, from)`
unfoldable pub find : ℕ → ℕ → Bytes → Option ℕ
unfolding index_of
find c from text = shift from (index_of c (drop from text))

-- `text.substr(from, count)`
abbrev pub substr : ℕ → ℕ → Bytes → Bytes
substr from count text = take count (drop from text)

-- `text.starts_with(prefix)`
unfoldable pub starts_with : Bytes → Bytes → Bool
starts_with text [] = true
starts_with [] (p ∷ prefix) = false
starts_with (b ∷ text) (p ∷ prefix) = b == p && starts_with text prefix

-- The loop from one newline to the next, on fuel; `start` stands for the position behind the last
-- newline, which is 0 at first. `none` means that the fuel ran out.
module _ {S : Type 0} (body : ℕ → ℕ → S → S) (text : Bytes) where
  unfoldable pub for_newlines : ℕ → ℕ → S → Option (S × ℕ)
  unfolding find
  for_newlines zero start s = none
  for_newlines (suc fuel) start s = elim (find newline start text) [
    | none ↦ some (s, start)
    | some next ↦ for_newlines fuel (suc next) (body start next s)
  ]

-- The bytes up to each newline, and those behind the last.
abbrev prepend : ℕ → List Bytes × Bytes → List Bytes × Bytes
prepend b ([], rest) = ([], b ∷ rest)
prepend b (line ∷ lines, rest) = ((b ∷ line) ∷ lines, rest)

abbrev close_line : List Bytes × Bytes → List Bytes × Bytes
close_line (lines, rest) = ([] ∷ lines, rest)

unfoldable pub split_lines : Bytes → List Bytes × Bytes
split_lines [] = ([], [])
split_lines (b ∷ text) =
    let after = split_lines text in if b == newline then close_line after else prepend b after

abbrev pub join_lines : List Bytes → Bytes → Bytes
join_lines [] rest = rest
join_lines (line ∷ lines) rest = line ++ (newline ∷ join_lines lines rest)

abbrev pub Lacks : ℕ → Bytes → Type 0
Lacks c text = index_of c text ≡ none
