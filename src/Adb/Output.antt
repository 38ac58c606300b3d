-- ===== src/Adb/Output.antt =====
-- nandroidfs/Adb.cpp: what a command of adb gives back, and that the path is found once.
use nandroidfs.Adb.{
  invoke_process_capture_output, Windows, Adb, capture, append_output, invoke_throw_on_nonzero,
  find_adb_path, invoke_adb_with_serial, with_serial,
}
use nandroidfs.Base.{
  append_assoc, append-nil, All, ◌≡◌, arith, sym, ◌∙◌, ◌++◌, true, Option, none, some, List, [],
  ◌∷◌, Bytes, map,
}
use nandroidfs.Exec.{ok}
use nandroidfs.Conversion.{WideString}
use nandroidfs.Nandroid.Output.{concat}

-- The reads that end the loop.
pub data IsEnd : List (Option Bytes) → Type 0 where
  at_end : IsEnd []
  failing : {reads : List (Option Bytes)} → IsEnd (none ∷ reads)
  empty : {reads : List (Option Bytes)} → IsEnd (some [] ∷ reads)

abbrev pub NonEmpty : Bytes → Type 0
NonEmpty [] = ⊥
NonEmpty (b ∷ chunk) = Unit

capture-append :
    (chunks : List Bytes) (reads : List (Option Bytes)) (before : Bytes)
    → All NonEmpty chunks
    → IsEnd reads
    → capture append_output (map some chunks ++ reads) before ≡ before ++ concat chunks
unfolding capture
capture-append [] _ before h at_end = sym (append-nil before)
capture-append [] _ before h failing = sym (append-nil before)
capture-append [] _ before h empty = sym (append-nil before)
capture-append ([] ∷ chunks) reads before h end = absurd h.0
capture-append ((b ∷ chunk) ∷ chunks) reads before h end =
    capture-append chunks reads (before ++ (b ∷ chunk)) h.1 end
    ∙ append_assoc before (b ∷ chunk) (concat chunks)

-- Once a path is found, it stays, whatever happens to the installations.
find_adb_path-find_adb_path :
    (w later : Windows) (a : Adb) (path : WideString)
    → (find_adb_path w a).0 ≡ ok path
    → find_adb_path later (find_adb_path w a).1 ≡ (ok path, (find_adb_path w a).1)
unfolding find_adb_path
find_adb_path-find_adb_path w later a path h = ground (arith, h)

invoke_throw_lem :
    (w : Windows) (command_line : WideString) (chunks : List Bytes) (reads : List (Option Bytes))
    → w.creates_pipe ≡ true
    → w.create_process command_line
      ≡ some (record { output = map some chunks ++ reads; exit_code = some 0 })
    → All NonEmpty chunks
    → IsEnd reads
    → invoke_throw_on_nonzero w command_line ≡ ok (concat chunks)
unfolding invoke_throw_on_nonzero invoke_process_capture_output
invoke_throw_lem w command_line chunks reads pipe process h end =
    rw (pipe, process, capture-append chunks reads [] h end)

-- If adb is found and its process for the command ends with 0, the command returns all that the
-- process printed, whatever the chunks of its output, up to a read that fails or gives nothing.
pub invoke_adb_with_serial_lem :
    (w : Windows) (a : Adb) (path serial args : WideString) (chunks : List Bytes)
    (reads : List (Option Bytes))
    → (find_adb_path w a).0 ≡ ok path
    → w.creates_pipe ≡ true
    → w.create_process (with_serial path serial args)
      ≡ some (record { output = map some chunks ++ reads; exit_code = some 0 })
    → All NonEmpty chunks
    → IsEnd reads
    → invoke_adb_with_serial w serial args a ≡ (ok (concat chunks), (find_adb_path w a).1)
unfolding invoke_adb_with_serial
invoke_adb_with_serial_lem w a path serial args chunks reads found pipe process h end =
    rw (found, invoke_throw_lem w (with_serial path serial args) chunks reads pipe process h end)
