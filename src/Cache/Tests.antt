-- ===== src/Cache/Tests.antt =====
-- A cache through a short history.
use nandroidfs.Cache.Stat.{get_cached_stat-get_cached, run_stat, get_cached_stat}
use nandroidfs.Base.{ℕ, ◌≡◌, arith, List, [], ◌∷◌}
use nandroidfs.Cache.{get_cached, fresh}
use nandroidfs.Cache.History.{Event, cached, invalidated, looked_up, run, latest, get_cached-latest}

abbrev history : List (Event ℕ)
history =
    cached (b'b' ∷ []) 5 700 700
    ∷ looked_up (b'a' ∷ []) 650
    ∷ cached (b'a' ∷ []) 4 600 601
    ∷ invalidated (b'a' ∷ [])
    ∷ cached (b'a' ∷ []) 3 500 500
    ∷ []

get_cached-latest_example :
    (get_cached (b'a' ∷ []) 790 (run 50 200 0 history)).0
    ≡ fresh 200 790 (latest (b'a' ∷ []) history)
get_cached-latest_example = get_cached-latest 50 200 0 790 history (b'a' ∷ []) (
  omega arith,
  omega arith,
  (omega arith, (omega arith, omega arith, (omega arith, omega arith, tt))),
)

get_cached_stat-get_cached_example :
    (get_cached_stat (b'a' ∷ []) 790 (run_stat 50 200 0 history)).0
    ≡ (get_cached (b'a' ∷ []) 790 (run 50 200 0 history)).0
get_cached_stat-get_cached_example = get_cached_stat-get_cached 50 200 0 790 history (b'a' ∷ []) (
  omega arith,
  omega arith,
  (omega arith, (omega arith, omega arith, (omega arith, omega arith, tt))),
)
