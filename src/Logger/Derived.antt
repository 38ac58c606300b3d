-- ===== src/Logger/Derived.antt =====
-- What a logger prints that was derived from another, level by level.
use nandroidfs.Base.{
  ap, Bool, true, false, inr, ◌∙◌, inl, Bool-cases, append_assoc, append-nil, ℕ, Option, none, some,
  List, [], ◌∷◌, ◌++◌, Bytes, leb, if◌then◌else◌, ◌≡◌, refl,
}
use nandroidfs.Text.{codes, newline}
use nandroidfs.Logger.{
  LogLevel, level_value, get_log_level_name, StdOutSink, sink_log, ContextLogger, with_context,
  replace_context, log,
}

-- A logger is derived by adding to its context or by replacing it, with a new level or none.
pub data Derive : Type 0 where
  add replace : Bytes → Option LogLevel → Derive

abbrev pub derive_all : ContextLogger → List Derive → ContextLogger
derive_all logger [] = logger
derive_all logger (add context level ∷ steps) = derive_all (with_context logger context level) steps
derive_all logger (replace context level ∷ steps) =
    derive_all (replace_context logger context level) steps

abbrev pub log_all : ContextLogger → List (LogLevel × Bytes) → StdOutSink → StdOutSink
log_all logger [] sink = sink
log_all logger ((level, message) ∷ messages) sink =
    log_all logger messages (log logger level message sink)

-- The context, from the last step on: what was added since the last replacement, behind it.
abbrev pub joined : Bytes → List Derive → Bytes
joined first [] = first
joined first (add context level ∷ steps) = joined (first ++ (codes ", " ++ context)) steps
joined first (replace context level ∷ steps) = joined context steps

-- The level that was given last.
abbrev pub last_level : LogLevel → List Derive → LogLevel
last_level first [] = first
last_level first (add context none ∷ steps) = last_level first steps
last_level first (add context (some level) ∷ steps) = last_level level steps
last_level first (replace context none ∷ steps) = last_level first steps
last_level first (replace context (some level) ∷ steps) = last_level level steps

-- The lines of the messages of a level at least.
abbrev pub lines_from : ℕ → Bytes → List (LogLevel × Bytes) → Bytes
lines_from least context [] = []
lines_from least context ((level, message) ∷ messages) =
    let line =
      codes "["
      ++ (get_log_level_name level
          ++ (codes "(" ++ (context ++ (codes ")] " ++ (message ++ (newline ∷ [])))))) in
    let rest = lines_from least context messages in
    if leb least (level_value level) then line ++ rest else rest

derive_all_lem :
    (logger : ContextLogger) (steps : List Derive)
    → derive_all logger steps ≡ record {
      min_level = last_level logger.min_level steps;
      context = joined logger.context steps;
    }
unfolding with_context replace_context
derive_all_lem logger [] = refl
derive_all_lem logger (add context none ∷ steps) =
    rw (← append_assoc) (derive_all_lem (with_context logger context none) steps)
derive_all_lem logger (add context (some level) ∷ steps) =
    rw (← append_assoc) (derive_all_lem (with_context logger context (some level)) steps)
derive_all_lem logger (replace context none ∷ steps) =
    derive_all_lem (replace_context logger context none) steps
derive_all_lem logger (replace context (some level) ∷ steps) =
    derive_all_lem (replace_context logger context (some level)) steps

abbrev enabled : ContextLogger → LogLevel → Bool
enabled logger level = leb (level_value logger.min_level) (level_value level)

log_at_level :
    (logger : ContextLogger) (level : LogLevel) (message : Bytes) (sink : StdOutSink)
    → enabled logger level ≡ true
    → log logger level message sink ≡ sink_log level logger.context message sink
unfolding log
log_at_level logger level message sink e = rw e refl

log_below_level :
    (logger : ContextLogger) (level : LogLevel) (message : Bytes) (sink : StdOutSink)
    → enabled logger level ≡ false
    → log logger level message sink ≡ sink
unfolding log
log_below_level logger level message sink e = rw e refl

log_all_lem :
    (logger : ContextLogger) (messages : List (LogLevel × Bytes)) (sink : StdOutSink)
    → (log_all logger messages sink).output
      ≡ sink.output ++ lines_from (level_value logger.min_level) logger.context messages
unfolding sink_log
log_all_lem logger [] sink = rw append-nil refl
log_all_lem logger ((level, message) ∷ messages) sink = elim (Bool-cases (enabled logger level)) [
  | inl e ↦
      ap (λ (s : StdOutSink). (log_all logger messages s).output)
        (log_at_level logger level message sink e)
      ∙ (log_all_lem logger messages (sink_log level logger.context message sink)
          ∙ rw (e, append_assoc) refl)
  | inr e ↦
      ap (λ (s : StdOutSink). (log_all logger messages s).output)
        (log_below_level logger level message sink e)
      ∙ (log_all_lem logger messages sink ∙ rw e refl)
]

-- A logger that was derived from another by any calls of with_context and replace_context prints,
-- behind what was printed, one line for each message of at least the level that was given last, or
-- of the first logger's if none was, in their order, with the level's name, and with the context
-- given at the last replacement, or the first logger's, and all that was added since.
pub log_all-derive_all :
    (logger : ContextLogger) (steps : List Derive) (messages : List (LogLevel × Bytes))
    (sink : StdOutSink)
    → (log_all (derive_all logger steps) messages sink).output
      ≡ sink.output
        ++ lines_from
            (level_value (last_level logger.min_level steps))
            (joined logger.context steps)
            messages
log_all-derive_all logger steps messages sink =
    rw (derive_all_lem logger steps) (log_all_lem _ messages sink)
