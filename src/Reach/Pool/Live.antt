-- ===== src/Reach/Pool/Live.antt =====
-- When the reaper of internal/adapters/reachability/pool.go closes a tunnel that nobody uses.
use ray_mcp.Prelude.{
  ℕ, zero, suc, ◌+◌, ◌*◌, ◌-◌, ◌/◌, ◌≤◌, ◌<◌, ◌≡◌, ◌∙◌, ◌⊎◌, inl, inr, refl, String, true, false,
  Option, none, some, List, [], ◌∷◌, arith, Bool-cases, leb,
}
use ray_mcp.Errors.{Result, ok, err}
use ray_mcp.Reach.Pool.{
  PoolKey, Entry, Tunnels, Pool, Answers, Call, get_endpoint, tick_at, close_pool, key_eq, find,
  delete, tick_time, handles, fresh, expired, pooled, dial_pod, endpoint_at, endpoint, reap, tick,
  close, step, run, is_idle,
}
use ray_mcp.Reach.Pool.Slots.{count, count-append}
use ray_mcp.Reach.Pool.Returned.{endpoint_at_keeps_others}

-- No call of the history looks up the key.
abbrev pub Untouched : PoolKey → List Call → Type 0
Untouched k [] = Unit {0}
Untouched k (get_endpoint j port a ∷ cs) = (key_eq j k ≡ false) × Untouched k cs
Untouched k (tick_at now ∷ cs) = Untouched k cs
Untouched k (close_pool ∷ cs) = Untouched k cs

-- The reaper ticks at the instant or later.
abbrev pub TicksFrom : ℕ → List Call → Type 0
TicksFrom t [] = ⊥
TicksFrom t (get_endpoint j port a ∷ cs) = TicksFrom t cs
TicksFrom t (tick_at now ∷ cs) = (t ≤ now) ⊎ TicksFrom t cs
TicksFrom t (close_pool ∷ cs) = TicksFrom t cs

pooled-closed :
    (k : PoolKey) (now : ℕ) (r : Result ℕ) (p : Pool)
    → ((pooled k now r p).1.closed ≡ p.closed) × ((pooled k now r p).1.done ≡ p.done)
unfolding pooled
pooled-closed k now (err e) p = (refl, refl)
pooled-closed k now (ok local) p = (refl, refl)

dial_pod-closed :
    (k : PoolKey) (port : ℕ) (a : Answers) (r : Result String) (p : Pool)
    → ((dial_pod k port a r p).1.closed ≡ p.closed) × ((dial_pod k port a r p).1.done ≡ p.done)
unfolding dial_pod
dial_pod-closed k port a (err e) p = (refl, refl)
dial_pod-closed k port a (ok pod) p = pooled-closed k a.now (a.dial k.namespace pod port) p

endpoint_at-closed :
    (h : ℕ) (k : PoolKey) (port : ℕ) (a : Answers) (o : Option Entry) (p : Pool)
    → (count h p.closed ≤ count h (endpoint_at k port a o p).1.closed)
      × ((endpoint_at k port a o p).1.done ≡ p.done)
unfolding endpoint_at
endpoint_at-closed h k port a none p = ground (arith, dial_pod-closed k port a a.pod p)
endpoint_at-closed h k port a (some e) p =
    let q = record p { tunnels = delete k p.tunnels; closed = e.handle ∷ p.closed } in
    ground (arith, dial_pod-closed k port a a.pod q)

step-closed : (h idle : ℕ) (c : Call) (p : Pool) → count h p.closed ≤ count h (step idle c p).closed
unfolding step endpoint tick reap close
step-closed h idle (get_endpoint k port a) p =
    (endpoint_at-closed h k port a (find k p.tunnels) p).0
step-closed h idle (tick_at now) p =
    ground (arith, count-append h (expired idle now p.tunnels) p.closed)
step-closed h idle close_pool p = omega (arith, count-append h (handles p.tunnels) p.closed)

run-closed :
    (h idle : ℕ) (cs : List Call) (p : Pool) → count h p.closed ≤ count h (run idle cs p).closed
unfolding run
run-closed h idle [] p = omega arith
run-closed h idle (c ∷ cs) p =
    omega (arith, step-closed h idle c p, run-closed h idle cs (step idle c p))

find-handles :
    (k : PoolKey) (e : Entry) (ts : Tunnels) → find k ts ≡ some e → 1 ≤ count e.handle (handles ts)
unfolding find handles
find-handles k e [] f = ground arith
find-handles k e ((j, d) ∷ ts) f = ground (arith, find-handles k e ts)

find-expired :
    (idle now : ℕ) (k : PoolKey) (e : Entry) (ts : Tunnels)
    → find k ts ≡ some e
    → ((is_idle idle now e ≡ true) × (1 ≤ count e.handle (expired idle now ts)))
      ⊎ ((is_idle idle now e ≡ false) × (find k (fresh idle now ts) ≡ some e))
unfolding find expired fresh
find-expired idle now k e [] f = ground arith
find-expired idle now k e ((j, d) ∷ ts) f = ground (arith, find-expired idle now k e ts)

tick_open : (idle now : ℕ) (p : Pool) → p.done ≡ false → tick idle now p ≡ (reap idle now p).1
unfolding tick
tick_open idle now p d = ground arith

-- A tick closes an idle tunnel and keeps another.
tick_sweeps :
    (idle now : ℕ) (k : PoolKey) (p : Pool) (e : Entry)
    → p.done ≡ false
    → find k p.tunnels ≡ some e
    → (1 ≤ count e.handle (tick idle now p).closed)
      ⊎ ((now < e.last_used + idle)
          × (find k (tick idle now p).tunnels ≡ some e)
          × ((tick idle now p).done ≡ false))
unfolding reap
tick_sweeps idle now k p e d f =
    rw (tick_open idle now p d) (elim (find-expired idle now k e p.tunnels f) [
      | inl (i, c) ↦
          inl (omega (arith, count-append e.handle (expired idle now p.tunnels) p.closed, c))
      | inr (i, g) ↦ inr (ground arith, g, d)
    ])

module _ (idle : ℕ) (k : PoolKey) where
  pub idle_closed :
      (cs : List Call) (p : Pool) (e : Entry)
      → p.done ≡ false
      → find k p.tunnels ≡ some e
      → Untouched k cs
      → TicksFrom (e.last_used + idle) cs
      → 1 ≤ count e.handle (run idle cs p).closed
  unfolding run step endpoint close
  idle_closed [] p e d f u t = elim t [ ]
  idle_closed (get_endpoint j port a ∷ cs) p e d f u t =
      let o = find j p.tunnels in
      idle_closed cs (endpoint_at j port a o p).1 e
        ((endpoint_at-closed e.handle j port a o p).1 ∙ d)
        (endpoint_at_keeps_others k j port a o p u.0 ∙ f) u.1 t
  idle_closed (tick_at now ∷ cs) p e d f u t = elim (tick_sweeps idle now k p e d f) [
    | inl c ↦ omega (arith, run-closed e.handle idle cs (tick idle now p), c)
    | inr (early, g, open_still) ↦ idle_closed cs (tick idle now p) e open_still g u (later early t)
  ]
    where
      later : {n m : ℕ} {P : Type 0} → n < m → (m ≤ n) ⊎ P → P
      later lt (inl le) = absurd (omega arith)
      later lt (inr q) = q
  idle_closed (close_pool ∷ cs) p e d f u t = omega (
    arith,
    run-closed e.handle idle cs (close p),
    count-append e.handle (handles p.tunnels) p.closed,
    find-handles k e p.tunnels f,
  )

-- A positive multiple of `half` stands in each interval of that length.
multiple_near : (half d : ℕ) → 0 < half → (n : ℕ) × (0 < n) × (d ≤ n * half) × (n * half ≤ d + half)
multiple_near half zero h = (1, omega arith, omega arith, omega arith)
multiple_near half (suc d) h =
    let (n, some_n, lo, hi) = multiple_near half d h in
    elim (Bool-cases (leb (suc d) (n * half))) [
      | inl e ↦ (n, some_n, ground arith, omega arith)
      | inr e ↦ (suc n, omega arith, ground arith, ground arith)
    ]

-- The reaper ticks at the instant.
abbrev pub TicksAt : ℕ → List Call → Type 0
TicksAt t [] = ⊥
TicksAt t (get_endpoint j port a ∷ cs) = TicksAt t cs
TicksAt t (tick_at now ∷ cs) = (now ≡ t) ⊎ TicksAt t cs
TicksAt t (close_pool ∷ cs) = TicksAt t cs

at-TicksFrom : (m n : ℕ) (cs : List Call) → m ≤ n → TicksAt n cs → TicksFrom m cs
at-TicksFrom m n [] le t = t
at-TicksFrom m n (get_endpoint j port a ∷ cs) le t = at-TicksFrom m n cs le t
at-TicksFrom m n (tick_at now ∷ cs) le (inl t) = inl (omega arith)
at-TicksFrom m n (tick_at now ∷ cs) le (inr t) = inr (at-TicksFrom m n cs le t)
at-TicksFrom m n (close_pool ∷ cs) le t = at-TicksFrom m n cs le t

-- For an idle time of at least two nanoseconds and a reaper that started no later than the idle time
-- after the last use: a tunnel of an open pool is closed by the end of every history in which no
-- call asks for its key and which has each tick of the reaper, one each half of the idle time, up to
-- one and a half times the idle time after the last use.
pub closed_in_time :
    (idle start : ℕ) (k : PoolKey) (p : Pool) (e : Entry) (cs : List Call)
    → 2 ≤ idle
    → start ≤ e.last_used + idle
    → p.done ≡ false
    → find k p.tunnels ≡ some e
    → Untouched k cs
    → ((n : ℕ)
        → 0 < n
        → tick_time idle start n ≤ e.last_used + idle + idle / 2
        → TicksAt (tick_time idle start n) cs)
    → 1 ≤ count e.handle (run idle cs p).closed
closed_in_time idle start k p e cs two after d f u ticks =
    let (n, some_n, lo, hi) = multiple_near (idle / 2) (e.last_used + idle - start) (omega arith) in
    idle_closed idle k cs p e d f u (
      at-TicksFrom (e.last_used + idle) (tick_time idle start n) cs (omega arith)
        (ticks n some_n (omega arith)))
