-- ===== src/Cache/Stat.antt =====
-- nandroidfs/StatCache.cpp, an older TimedCache that no build file names: its look-up erases what is
-- out of date. Its header is gone; its members are those of `TimedCache` under other names.
use nandroidfs.Base.{
  inr, inl, Option-cases, Bool-cases, ℕ, ◌+◌, ◌-◌, ◌≤◌, ◌≡◌, refl, arith, Option, none, some, List,
  [], ◌∷◌, Bytes, ltb, leb, bytes_eq→eq, if◌then◌else◌, sym, ◌∙◌,
}
use nandroidfs.Cache.Assoc.{Map, lookup, insert, erase, lookup-erase, erase-IsUnique}
use nandroidfs.Cache.{
  Cached, TimedCache, clean_cache, new_cache, fresh, get_cached, cache, invalidate,
}
use nandroidfs.Cache.History.{
  Event, cached, invalidated, looked_up, run, Until, Agrees, cache-Agrees, invalidate-Agrees,
  get_cached-latest,
}

module _ {T : Type 0} where
  -- What follows the test for the path.
  abbrev checked : Bytes → ℕ → Option (Cached T) → TimedCache T → Option T × TimedCache T
  checked file_path now none c = (none, c)
  checked file_path now (some e) c =
      if leb (now - e.fetched_at) c.cached_item_valid_for
      then (some e.datum, record c { total_cache_hits = c.total_cache_hits + 1 })
      else (none, record c { cached_data = erase file_path c.cached_data })

  unfoldable pub get_cached_stat : Bytes → ℕ → TimedCache T → Option T × TimedCache T
  get_cached_stat file_path now c =
      checked file_path now (lookup file_path c.cached_data)
        (record c { total_data_fetched = c.total_data_fetched + 1 })

  unfoldable pub cache_stat : Bytes → T → ℕ → ℕ → TimedCache T → TimedCache T
  cache_stat file_path stat now scan_now c =
      let added = record c {
        cached_data = insert file_path (record { datum = stat; fetched_at = now }) c.cached_data;
      } in
      if ltb c.cache_scan_interval (now - c.last_cache_scan)
      then clean_cache scan_now (record added { last_cache_scan = now })
      else added

  abbrev erase_found : Bytes → Option (Cached T) → TimedCache T → TimedCache T
  erase_found file_path none c = c
  erase_found file_path (some e) c = record c { cached_data = erase file_path c.cached_data }

  unfoldable pub invalidate_stat : Bytes → TimedCache T → TimedCache T
  invalidate_stat file_path c = erase_found file_path (lookup file_path c.cached_data) c

  abbrev pub after_stat : Event T → TimedCache T → TimedCache T
  after_stat (cached path datum now scan_now) c = cache_stat path datum now scan_now c
  after_stat (invalidated path) c = invalidate_stat path c
  after_stat (looked_up path now) c = (get_cached_stat path now c).1

  -- The same calls on the older cache.
  abbrev pub run_stat : ℕ → ℕ → ℕ → List (Event T) → TimedCache T
  run_stat interval valid_for start [] = new_cache interval valid_for start
  run_stat interval valid_for start (e ∷ es) = after_stat e (run_stat interval valid_for start es)

  cache_stat_lem :
      (path : Bytes) (datum : T) (t scan : ℕ) (c : TimedCache T)
      → cache_stat path datum t scan c ≡ cache path datum t scan c
  unfolding cache_stat cache
  cache_stat_lem path datum t scan c = refl

  erase_missing : (path : Bytes) (m : Map (Cached T)) → lookup path m ≡ none → erase path m ≡ m
  unfolding lookup erase
  erase_missing path [] e = refl
  erase_missing path ((j, v) ∷ m) e = ground (arith, erase_missing path m)

  invalidate_stat_lem :
      (path : Bytes) (c : TimedCache T) → invalidate_stat path c ≡ invalidate path c
  unfolding invalidate_stat invalidate
  invalidate_stat_lem path c = elim (Option-cases (lookup path c.cached_data)) [
    | inl e ↦ rw (e, erase_missing path c.cached_data e) refl
    | inr (x, e) ↦ rw e refl
  ]

  checked-Agrees :
      (valid_for now : ℕ) (p : Bytes) (es : List (Event T)) (c : TimedCache T)
      (o : Option (Cached T))
      → lookup p c.cached_data ≡ o
      → Agrees valid_for now es c
      → Agrees valid_for now (looked_up p now ∷ es) (checked p now o c).1
  checked-Agrees valid_for now p es c none e a = record {
    period = a.period;
    unique = a.unique;
    shows = a.shows;
  }
  checked-Agrees valid_for now p es c (some x) e a =
      elim (Bool-cases (leb (now - x.fetched_at) c.cached_item_valid_for)) [
        | inl young ↦ rw young (record { period = a.period; unique = a.unique; shows = a.shows })
        | inr old ↦ rw old (record {
          period = a.period;
          unique = erase-IsUnique p c.cached_data a.unique;
          shows = λ path later le. ground (
            arith,
            lookup-erase p path c.cached_data,
            a.shows path later le,
            bytes_eq→eq p path,
            a.period,
            e,
            old,
          );
        })
      ]

  get_cached_stat-Agrees :
      (valid_for now : ℕ) (p : Bytes) (es : List (Event T)) (c : TimedCache T)
      → Agrees valid_for now es c
      → Agrees valid_for now (looked_up p now ∷ es) (get_cached_stat p now c).1
  unfolding get_cached_stat
  get_cached_stat-Agrees valid_for now p es c a =
      checked-Agrees valid_for now p es (record c { total_data_fetched = c.total_data_fetched + 1 })
        (lookup p c.cached_data) refl
        (record { period = a.period; unique = a.unique; shows = a.shows })

  get_cached_stat_lem :
      (p : Bytes) (now : ℕ) (c : TimedCache T)
      → (get_cached_stat p now c).0 ≡ fresh c.cached_item_valid_for now (lookup p c.cached_data)
  unfolding get_cached_stat
  get_cached_stat_lem p now c = elim (Option-cases (lookup p c.cached_data)) [
    | inl e ↦ rw e refl
    | inr (x, e) ↦ rw e (ground arith)
  ]

  -- A later reading shows no more.
  later_on :
      (valid_for now later : ℕ) (es : List (Event T)) (c : TimedCache T)
      → now ≤ later
      → Agrees valid_for now es c
      → Agrees valid_for later es c
  later_on valid_for now later es c h a = record {
    period = a.period;
    unique = a.unique;
    shows = λ path t le. a.shows path t (omega (arith, h, le));
  }

  run_stat-Agrees :
      (interval valid_for start now : ℕ) (es : List (Event T))
      → Until now es
      → Agrees valid_for now es (run_stat interval valid_for start es)
  run_stat-Agrees interval valid_for start now [] h =
      unfold new_cache in
      record { period = refl; unique = tt; shows = λ path later le. unfold lookup in refl }
  run_stat-Agrees interval valid_for start now (cached p datum t scan ∷ es) h =
      rw (cache_stat_lem p datum t scan (run_stat interval valid_for start es)) (
        cache-Agrees valid_for t scan now p datum es _ h.0 h.1
          (run_stat-Agrees interval valid_for start t es h.2))
  run_stat-Agrees interval valid_for start now (invalidated p ∷ es) h =
      rw (invalidate_stat_lem p (run_stat interval valid_for start es))
        (invalidate-Agrees valid_for now p es _ (run_stat-Agrees interval valid_for start now es h))
  run_stat-Agrees interval valid_for start now (looked_up p t ∷ es) h =
      later_on valid_for t now (looked_up p t ∷ es) _ h.0 (
        get_cached_stat-Agrees valid_for t p es _
          (run_stat-Agrees interval valid_for start t es h.1))

  -- After any calls under a clock that never runs backwards, a look-up in the older cache of
  -- StatCache.cpp, which erases what is out of date, gives what one in a TimedCache gives after
  -- the same calls.
  pub get_cached_stat-get_cached :
      (interval valid_for start now : ℕ) (es : List (Event T)) (path : Bytes)
      → Until now es
      → (get_cached_stat path now (run_stat interval valid_for start es)).0
        ≡ (get_cached path now (run interval valid_for start es)).0
  get_cached_stat-get_cached interval valid_for start now es path h =
      let agrees = run_stat-Agrees interval valid_for start now es h in
      get_cached_stat_lem path now (run_stat interval valid_for start es)
      ∙ (rw agrees.period (agrees.shows path now (omega arith))
          ∙ sym (get_cached-latest interval valid_for start now es path h))
