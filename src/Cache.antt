-- ===== src/Cache.antt =====
-- nandroidfs/TimedCache.hpp: a map from paths to data that are good for a while. A clock reading
-- is an argument, in the clock's ticks; the locks make each operation one step.
pub mod Assoc
pub mod History
pub mod Stat
mod Tests
use nandroidfs.Base.{
  ℕ, ◌+◌, ◌-◌, Bool, true, false, Option, none, some, List, [], ◌∷◌, Bytes, ltb, leb, if◌then◌else◌,
}
use nandroidfs.Cache.Assoc.{Map, lookup, insert, erase}

pub record Cached {ℓ} (T : Type ℓ) : Type ℓ where
  pub datum : T
  pub fetched_at : ℕ

pub record TimedCache {ℓ} (T : Type ℓ) : Type ℓ where
  pub cache_scan_interval : ℕ
  pub cached_item_valid_for : ℕ
  pub total_cache_hits : ℕ
  pub total_data_fetched : ℕ
  pub last_cache_scan : ℕ
  pub cached_data : Map (Cached T)

pub record CacheStatistics : Type 0 where
  pub total_cache_hits : ℕ
  pub total_data_fetched : ℕ

module _ {ℓ} {T : Type ℓ} where
  -- The loop over the entries, which erases those that are out of date.
  unfoldable pub clean_data : ℕ → ℕ → Map (Cached T) → Map (Cached T)
  clean_data valid_for now [] = []
  clean_data valid_for now ((path, c) ∷ entries) =
      let rest = clean_data valid_for now entries in
      if ltb valid_for (now - c.fetched_at) then rest else (path, c) ∷ rest

  unfoldable pub clean_cache : ℕ → TimedCache T → TimedCache T
  clean_cache now c = record c {
    cached_data = clean_data c.cached_item_valid_for now c.cached_data;
  }

  unfoldable pub new_cache : ℕ → ℕ → ℕ → TimedCache T
  new_cache cache_scan_interval cached_item_valid_for now = record {
    cache_scan_interval = cache_scan_interval;
    cached_item_valid_for = cached_item_valid_for;
    total_cache_hits = 0;
    total_data_fetched = 0;
    last_cache_scan = now;
    cached_data = [];
  }

  -- The entry that is there, if it is not out of date.
  abbrev pub fresh : ℕ → ℕ → Option (Cached T) → Option T
  fresh valid_for now none = none
  fresh valid_for now (some c) = if leb (now - c.fetched_at) valid_for then some c.datum else none

  abbrev count_hit : Option T → TimedCache T → TimedCache T
  count_hit none c = c
  count_hit (some datum) c = record c { total_cache_hits = c.total_cache_hits + 1 }

  unfoldable pub get_cached : Bytes → ℕ → TimedCache T → Option T × TimedCache T
  get_cached file_path now c =
      let found = fresh c.cached_item_valid_for now (lookup file_path c.cached_data) in
      (found, count_hit found (record c { total_data_fetched = c.total_data_fetched + 1 }))

  -- `now` is the reading of `cache`, and `scan_now` that of `clean_cache` if it is called.
  unfoldable pub cache : Bytes → T → ℕ → ℕ → TimedCache T → TimedCache T
  unfolding clean_cache
  cache file_path datum now scan_now c =
      let added = record c {
        cached_data = insert file_path (record { datum = datum; fetched_at = now }) c.cached_data;
      } in
      if ltb c.cache_scan_interval (now - c.last_cache_scan)
      then clean_cache scan_now (record added { last_cache_scan = now })
      else added

  unfoldable pub invalidate : Bytes → TimedCache T → TimedCache T
  invalidate file_path c = record c { cached_data = erase file_path c.cached_data }

  unfoldable pub get_cache_statistics : TimedCache T → CacheStatistics
  get_cache_statistics c = record {
    total_cache_hits = c.total_cache_hits;
    total_data_fetched = c.total_data_fetched;
  }
