-- ===== src/Logger.antt =====
-- nandroidfs/Logger.cpp and Logger.hpp. A message comes formatted; `StdOutSink` is what has gone to
-- std::cout, and its mutex makes each line one step.
pub mod Derived
mod Tests
use nandroidfs.Base.{◌+◌, ℕ, Option, none, some, List, [], ◌∷◌, ◌++◌, Bytes, leb, if◌then◌else◌}
use nandroidfs.Text.{codes, newline}

pub data LogLevel : Type 0 where
  trace debug info warn error : LogLevel
  unknown_level : ℕ → LogLevel

-- The value of the enum; `unknown_level n` stands for n + 5.
unfoldable pub level_value : LogLevel → ℕ
level_value trace = 0
level_value debug = 1
level_value info = 2
level_value warn = 3
level_value error = 4
level_value (unknown_level n) = 5 + n

abbrev pub get_log_level_name : LogLevel → Bytes
get_log_level_name trace = codes "TCE"
get_log_level_name debug = codes "DBG"
get_log_level_name info = codes "INF"
get_log_level_name warn = codes "WAR"
get_log_level_name error = codes "ERR"
get_log_level_name (unknown_level n) = codes "UNK"

pub record StdOutSink : Type 0 where
  pub output : Bytes

-- StdOutSink::log.
unfoldable pub sink_log : LogLevel → Bytes → Bytes → StdOutSink → StdOutSink
sink_log level context message sink = record {
  output =
      sink.output
      ++ (codes "["
          ++ (get_log_level_name level
              ++ (codes "(" ++ (context ++ (codes ")] " ++ (message ++ (newline ∷ [])))))));
}

pub record ContextLogger : Type 0 where
  pub min_level : LogLevel
  pub context : Bytes

abbrev value_or : Option LogLevel → LogLevel → LogLevel
value_or none level = level
value_or (some new_level) level = new_level

unfoldable pub with_context : ContextLogger → Bytes → Option LogLevel → ContextLogger
with_context logger new_context new_min_level = record {
  min_level = value_or new_min_level logger.min_level;
  context = (logger.context ++ codes ", ") ++ new_context;
}

unfoldable pub replace_context : ContextLogger → Bytes → Option LogLevel → ContextLogger
replace_context logger context new_min_level = record {
  min_level = value_or new_min_level logger.min_level;
  context = context;
}

-- ContextLogger::log; `trace` to `error` are it at one level.
unfoldable pub log : ContextLogger → LogLevel → Bytes → StdOutSink → StdOutSink
log logger level message sink =
    if leb (level_value logger.min_level) (level_value level)
    then sink_log level logger.context message sink
    else sink
