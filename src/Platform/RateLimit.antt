-- ===== src/Platform/RateLimit.antt =====
-- `createRateLimiter`: the calls of each caller on each route within a sliding window.
use remote_subagent_protocol.Prelude.{
  ℕ, ◌-◌, ◌<◌, String, ◌≡◌, Bool, true, false, not, Option, some, List, [], ◌∷◌, ◌++◌, arith,
  length, filter_by, max, number_or, truthy_number, or_default, if◌then◌else◌, leb, ltb, eq_iff,
  eq_refl, ◌==◌,
}
use remote_subagent_protocol.Prelude.Dict.{Dict, get, put, get-put}

-- `Math.max(1000, config.windowMs || DEFAULT_RATE_LIMIT_WINDOW_MS)`
abbrev pub window_of : Option ℕ → ℕ
window_of window_ms = max 1000 (number_or window_ms 60000)

-- The calls that count at a time.
abbrev pub active_calls : ℕ → ℕ → Option (List ℕ) → List ℕ
active_calls now window bucket = filter_by (λ t. ltb (now - t) window) (or_default bucket [])

-- `allow`; `key` is the route and the identity, and a route without a limit, or with 0, is free.
unfoldable pub allow : ℕ → Option ℕ → Option ℕ → String → Dict (List ℕ) → Dict (List ℕ) × Bool
allow now window_ms limit key counters =
    let active = active_calls now (window_of window_ms) (get counters key) in
    if not (truthy_number limit)
    then (counters, true)
    else if leb (or_default limit 0) (length active)
    then (put counters key active, false)
    else (put counters key (active ++ now ∷ []), true)

-- Under a limit, whatever the counters were: a call is let through exactly if fewer calls than the
-- limit count in the window, and it then counts itself; a refused call counts for nothing; and no
-- other bucket is touched.
pub allow_within_limit :
    (now : ℕ) (window_ms : Option ℕ) (limit : ℕ) (key other : String) (counters : Dict (List ℕ))
    → 0 < limit
    → (other == key) ≡ false
    → let active = active_calls now (window_of window_ms) (get counters key) in
      let (after, ok) = allow now window_ms (some limit) key counters in
      (ok ≡ ltb (length active) limit)
      × (get after key ≡ some (if ok then active ++ now ∷ [] else active))
      × (get after other ≡ get counters other)
unfolding allow
allow_within_limit now window_ms limit key other counters positive apart =
    let active = active_calls now (window_of window_ms) (get counters key) in
    ground (
      arith,
      get-put counters key key active,
      get-put counters key key (active ++ now ∷ []),
      get-put counters key other active,
      get-put counters key other (active ++ now ∷ []),
      eq_refl key,
      eq_iff key other,
      eq_iff other key,
    )
