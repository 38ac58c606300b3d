-- ===== src/Logger/Tests.antt =====
-- A logger at concrete values.
use nandroidfs.Base.{refl, Bytes, List, ◌≡◌, none, some, [], ◌∷◌, ◌++◌}
use nandroidfs.Text.{codes}
use nandroidfs.Logger.{LogLevel, debug, info, level_value, ContextLogger}
use nandroidfs.Logger.Derived.{
  Derive, add, derive_all, log_all, lines_from, joined, last_level, log_all-derive_all,
}

abbrev root_logger : ContextLogger
root_logger = record { min_level = debug; context = codes "Main" }

abbrev steps : List Derive
steps = add (codes "Tracker") (some info) ∷ add (codes "Connection") none ∷ []

abbrev messages : List (LogLevel × Bytes)
messages = (debug, codes "a") ∷ (info, codes "b") ∷ []

log_all-derive_all_example :
    (log_all (derive_all root_logger steps) messages (record { output = [] })).output
    ≡ [] ++ lines_from (level_value (last_level debug steps)) (joined (codes "Main") steps) messages
log_all-derive_all_example = log_all-derive_all root_logger steps messages (record { output = [] })

printed :
    lines_from 2 (codes "Main, Tracker, Connection") messages
    ≡ codes "[INF(Main, Tracker, Connection)] b" ++ (10 ∷ [])
unfolding level_value
printed = refl
