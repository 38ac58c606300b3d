-- ===== src/Cache/History.antt =====
-- The cache against the history of the calls made on it: what a look-up may return.
use nandroidfs.Base.{
  bytes_eq→eq, ℕ, ◌-◌, ◌≤◌, Option, none, some, List, [], ◌∷◌, Bytes, ◌≡◌, refl, arith, bytes_eq,
  if◌then◌else◌, ltb, Bool-cases, inl, inr, ◌∙◌,
}
use nandroidfs.Cache.Assoc.{
  Map, lookup, lookup-insert, lookup-erase, IsUnique, insert-IsUnique, insert, erase-IsUnique,
}
use nandroidfs.Cache.{
  Cached, TimedCache, clean_data, new_cache, fresh, get_cached, cache, invalidate,
}

-- A call that was made, with the clock readings of that call.
pub data Event {ℓ} (T : Type ℓ) : Type ℓ where
  cached : Bytes → T → ℕ → ℕ → Event T
  invalidated : Bytes → Event T
  looked_up : Bytes → ℕ → Event T

module _ {ℓ} {T : Type ℓ} where
  abbrev pub after : Event T → TimedCache T → TimedCache T
  after (cached path datum now scan_now) c = cache path datum now scan_now c
  after (invalidated path) c = invalidate path c
  after (looked_up path now) c = (get_cached path now c).1

  -- The history has its newest call first.
  abbrev pub run : ℕ → ℕ → ℕ → List (Event T) → TimedCache T
  run interval valid_for start [] = new_cache interval valid_for start
  run interval valid_for start (e ∷ es) = after e (run interval valid_for start es)

  -- The last datum cached for a path, unless the path was invalidated since.
  abbrev pub latest : Bytes → List (Event T) → Option (Cached T)
  latest path [] = none
  latest path (cached p datum now scan_now ∷ es) =
      if bytes_eq p path then some (record { datum = datum; fetched_at = now }) else latest path es
  latest path (invalidated p ∷ es) = if bytes_eq p path then none else latest path es
  latest path (looked_up p now ∷ es) = latest path es

  -- The clock never runs backwards.
  abbrev pub Until : ℕ → List (Event T) → Type 0
  Until now [] = Unit
  Until now (cached p datum t scan ∷ es) = (t ≤ scan) × (scan ≤ now) × Until t es
  Until now (invalidated p ∷ es) = Until now es
  Until now (looked_up p t ∷ es) = (t ≤ now) × Until t es

  abbrev keep : ℕ → ℕ → Option (Cached T) → Option (Cached T)
  keep valid_for now none = none
  keep valid_for now (some c) = if ltb valid_for (now - c.fetched_at) then none else some c

  lookup-clean :
      (valid_for now : ℕ) (j : Bytes) (m : Map (Cached T))
      → IsUnique m
      → lookup j (clean_data valid_for now m) ≡ keep valid_for now (lookup j m)
  unfolding lookup clean_data
  lookup-clean valid_for now j [] h = refl
  lookup-clean valid_for now j ((i, c) ∷ m) h =
      ground (arith, lookup-clean valid_for now j m h.1, bytes_eq→eq i j, h.0)

  clean-IsUnique :
      (valid_for now : ℕ) (m : Map (Cached T)) → IsUnique m → IsUnique (clean_data valid_for now m)
  unfolding clean_data
  clean-IsUnique valid_for now [] h = h
  clean-IsUnique valid_for now ((i, c) ∷ m) h =
      elim (Bool-cases (ltb valid_for (now - c.fetched_at))) [
        | inl old ↦ rw old (clean-IsUnique valid_for now m h.1)
        | inr young ↦ rw young (
          ground (arith, lookup-clean valid_for now i m h.1, h.0),
          clean-IsUnique valid_for now m h.1,
        )
      ]

  -- What is out of date stays out of date.
  fresh-keep :
      (valid_for now later : ℕ) (o : Option (Cached T))
      → now ≤ later
      → fresh valid_for later (keep valid_for now o) ≡ fresh valid_for later o
  fresh-keep valid_for now later none h = refl
  fresh-keep valid_for now later (some c) h = ground arith

  -- The state of the cache shows what the history says.
  pub record Agrees (valid_for now : ℕ) (es : List (Event T)) (c : TimedCache T) : Type ℓ where
    pub period : c.cached_item_valid_for ≡ valid_for
    pub unique : IsUnique c.cached_data
    pub shows :
        (path : Bytes) (later : ℕ)
        → now ≤ later
        → fresh valid_for later (lookup path c.cached_data) ≡ fresh valid_for later (latest path es)

  pub cache-Agrees :
      (valid_for t scan now : ℕ) (p : Bytes) (datum : T) (es : List (Event T)) (c : TimedCache T)
      → t ≤ scan
      → scan ≤ now
      → Agrees valid_for t es c
      → Agrees valid_for now (cached p datum t scan ∷ es) (cache p datum t scan c)
  unfolding cache
  cache-Agrees valid_for t scan now p datum es c h k a =
      elim (Bool-cases (ltb c.cache_scan_interval (t - c.last_cache_scan))) [
        | inl due ↦ rw due (record {
          period = a.period;
          unique = clean-IsUnique c.cached_item_valid_for scan entries entries-IsUnique;
          shows = λ path later le.
              rw (a.period, lookup-clean valid_for scan path entries entries-IsUnique)
                (fresh-keep valid_for scan later (lookup path entries) (omega arith)
                  ∙ inserted path later (omega arith));
        })
        | inr early ↦ rw early (record {
          period = a.period;
          unique = entries-IsUnique;
          shows = λ path later le. inserted path later (omega arith);
        })
      ]
    where
      new : Cached T
      new = record { datum = datum; fetched_at = t }

      entries : Map (Cached T)
      entries = insert p new c.cached_data

      entries-IsUnique : IsUnique entries
      entries-IsUnique = insert-IsUnique p new c.cached_data a.unique

      inserted :
          (path : Bytes) (later : ℕ)
          → t ≤ later
          → fresh valid_for later (lookup path entries)
            ≡ fresh valid_for later (latest path (cached p datum t scan ∷ es))
      inserted path later le =
          ground (arith, lookup-insert p path new c.cached_data, a.shows path later le)

  pub invalidate-Agrees :
      (valid_for now : ℕ) (p : Bytes) (es : List (Event T)) (c : TimedCache T)
      → Agrees valid_for now es c
      → Agrees valid_for now (invalidated p ∷ es) (invalidate p c)
  unfolding invalidate
  invalidate-Agrees valid_for now p es c a = record {
    period = a.period;
    unique = erase-IsUnique p c.cached_data a.unique;
    shows = λ path later h. ground (arith, lookup-erase p path c.cached_data, a.shows path later h);
  }

  get_cached-keeps :
      (p : Bytes) (now : ℕ) (c : TimedCache T)
      → ((get_cached p now c).1.cached_data ≡ c.cached_data)
        × ((get_cached p now c).1.cached_item_valid_for ≡ c.cached_item_valid_for)
  unfolding get_cached
  get_cached-keeps p now c = ground arith

  run-Agrees :
      (interval valid_for start now : ℕ) (es : List (Event T))
      → Until now es
      → Agrees valid_for now es (run interval valid_for start es)
  run-Agrees interval valid_for start now [] h =
      unfold new_cache in
      record { period = refl; unique = tt; shows = λ path later le. unfold lookup in refl }
  run-Agrees interval valid_for start now (cached p datum t scan ∷ es) h =
      cache-Agrees valid_for t scan now p datum es _ h.0 h.1
        (run-Agrees interval valid_for start t es h.2)
  run-Agrees interval valid_for start now (invalidated p ∷ es) h =
      invalidate-Agrees valid_for now p es _ (run-Agrees interval valid_for start now es h)
  run-Agrees interval valid_for start now (looked_up p t ∷ es) h =
      let before = run-Agrees interval valid_for start t es h.1 in
      let (data_same, period_same) = get_cached-keeps p t (run interval valid_for start es) in
      record {
        period = period_same ∙ before.period;
        unique = rw data_same before.unique;
        shows = λ path later le. rw data_same (before.shows path later (omega (arith, h.0)));
      }

  -- After any calls under a clock that never runs backwards, a look-up in a TimedCache gives the
  -- datum cached last for its path, if the path was not invalidated since and the datum is not
  -- older than the period, and else nothing.
  pub get_cached-latest :
      (interval valid_for start now : ℕ) (es : List (Event T)) (path : Bytes)
      → Until now es
      → (get_cached path now (run interval valid_for start es)).0
        ≡ fresh valid_for now (latest path es)
  unfolding get_cached
  get_cached-latest interval valid_for start now es path h =
      let agrees = run-Agrees interval valid_for start now es h in
      rw agrees.period (agrees.shows path now (omega arith))
