-- ===== src/Watcher/Monitor.antt =====
-- event_work/event_work_monitor.py: the thread that releases the invocations whose work is done.
-- Invocation contexts are numbered.
use nora_fleet.Common.{
  ℕ, suc, ◌+◌, ◌≤◌, ◌≡◌, refl, Bool, true, false, not, ◌||◌, List, [], ◌∷◌, ◌++◌, nat_eq,
  if◌then◌else◌, arith, inl, inr, ◌⊎◌, Bool-cases,
}

-- What `sync_q.get_nowait()` does: it gives a context or the final item, or raises `Empty`, where the
-- queue may be closed, or `SyncQueueShutDown`.
pub data Polled : Type 0 where
  context : ℕ → Polled
  final_item : Polled
  empty : Bool → Polled
  shut_down : Polled

pub record EventWorkMonitor : Type 0 where
  pub invocation_context_pool : List ℕ
  -- the contexts whose `done_with_work` was called, in order
  pub released : List ℕ
  pub queue_closed : Bool
  pub returned : Bool

unfoldable pub new_monitor : EventWorkMonitor
new_monitor = record {
  invocation_context_pool = [];
  released = [];
  queue_closed = false;
  returned = false;
}

unfoldable pub member : ℕ → List ℕ → Bool
member c [] = false
member c (x ∷ xs) = nat_eq x c || member c xs

-- `pool.add(context)`
unfoldable pub pool_add : ℕ → List ℕ → List ℕ
unfolding member
pool_add c pool = if member c pool then pool else pool ++ c ∷ []

unfoldable pub those : (ℕ → Bool) → List ℕ → List ℕ
those test [] = []
those test (x ∷ xs) = let rest = those test xs in if test x then x ∷ rest else rest

-- `process_pool`; `done` tells whose event is set
unfoldable pub process_pool : (ℕ → Bool) → EventWorkMonitor → EventWorkMonitor
unfolding those
process_pool done m = record m {
  invocation_context_pool = those (λ c. not (done c)) m.invocation_context_pool;
  released = m.released ++ those done m.invocation_context_pool;
}

-- What one iteration of `run` meets: whether the thread is to keep running, the queue, and the
-- contexts that are done.
pub record Tick : Type 0 where
  pub keep_running : Bool
  pub polled : Polled
  pub done : ℕ → Bool

-- The rest of an iteration, after the poll.
unfoldable pub poll : (ℕ → Bool) → Polled → EventWorkMonitor → EventWorkMonitor
unfolding process_pool pool_add
poll done (context c) m =
    process_pool done (record m { invocation_context_pool = pool_add c m.invocation_context_pool })
poll done final_item m = record m { queue_closed = true; returned = true }
poll done (empty true) m = record m { returned = true }
poll done (empty false) m = process_pool done m
poll done shut_down m = record m { returned = true }

unfoldable pub monitor_step : Tick → EventWorkMonitor → EventWorkMonitor
unfolding poll
monitor_step tick m =
    if tick.keep_running then poll tick.done tick.polled m else record m { returned = true }

-- `run`
unfoldable pub run_monitor : List Tick → EventWorkMonitor → EventWorkMonitor
unfolding monitor_step
run_monitor [] m = m
run_monitor (tick ∷ ticks) m =
    let rest = run_monitor ticks (monitor_step tick m) in if m.returned then m else rest

-- The contexts that the monitor takes from the queue.
abbrev pub taken_with : Polled → List ℕ → List ℕ
taken_with (context c) rest = c ∷ rest
taken_with final_item rest = []
taken_with (empty true) rest = []
taken_with (empty false) rest = rest
taken_with shut_down rest = []

abbrev pub taken : List Tick → List ℕ
taken [] = []
taken (tick ∷ ticks) =
    let rest = taken_with tick.polled (taken ticks) in if tick.keep_running then rest else []

abbrev pub count : ℕ → List ℕ → ℕ
count c [] = 0
count c (x ∷ xs) = let rest = count c xs in if nat_eq x c then suc rest else rest

count-append : (c : ℕ) (xs ys : List ℕ) → count c (xs ++ ys) ≡ count c xs + count c ys
count-append c [] ys = omega arith
count-append c (x ∷ xs) ys = ground (arith, count-append c xs ys)

nat_eq→eq : (x c : ℕ) → nat_eq x c ≡ true → x ≡ c
nat_eq→eq x c h = ground arith

count-those :
    (c : ℕ) (test : ℕ → Bool) (xs : List ℕ)
    → count c (those test xs) ≡ (if test c then count c xs else 0)
unfolding those
count-those c test [] = ground arith
count-those c test (x ∷ xs) = elim (Bool-cases (nat_eq x c)) [
  | inl same ↦ rw (nat_eq→eq x c same) (ground (arith, count-those c test xs))
  | inr other ↦ ground (arith, other, count-those c test xs)
]

member-count : (c : ℕ) (xs : List ℕ) → member c xs ≡ true → 1 ≤ count c xs
unfolding member
member-count c [] h = cc
member-count c (x ∷ xs) h = ground (arith, member-count c xs)

-- How often a context is released or in the pool.
abbrev held : ℕ → EventWorkMonitor → ℕ
held c m = count c m.released + count c m.invocation_context_pool

held-process_pool :
    (c : ℕ) (done : ℕ → Bool) (m : EventWorkMonitor) → held c (process_pool done m) ≡ held c m
unfolding process_pool
held-process_pool c done m = ground (
  arith,
  count-append c m.released (those done m.invocation_context_pool),
  count-those c done m.invocation_context_pool,
  count-those c (λ c. not (done c)) m.invocation_context_pool,
)

count-pool_add :
    (c x : ℕ) (pool : List ℕ)
    → member x pool ≡ false
    → count c (pool_add x pool) ≡ count c pool + count c (x ∷ [])
unfolding pool_add
count-pool_add c x pool h = rw h (count-append c pool (x ∷ []))

-- No context is taken while it is held, or twice.
AtMostOnce : EventWorkMonitor → List ℕ → Type 0
AtMostOnce m items = (c : ℕ) → held c m + count c items ≤ 1

held-context :
    (c x : ℕ) (done : ℕ → Bool) (m : EventWorkMonitor) (items : List ℕ)
    → AtMostOnce m (x ∷ items)
    → held c (poll done (context x) m) ≡ held c m + count c (x ∷ [])
unfolding AtMostOnce poll
held-context c x done m items once =
    let adding = record m { invocation_context_pool = pool_add x m.invocation_context_pool } in
    elim (Bool-cases (member x m.invocation_context_pool)) [
      | inl pooled ↦ ground (arith, once x, member-count x m.invocation_context_pool pooled)
      | inr new ↦
          omega (
            arith,
            held-process_pool c done adding,
            count-pool_add c x m.invocation_context_pool new,
          )
    ]

run_monitor-returned :
    (ticks : List Tick) (m : EventWorkMonitor) → m.returned ≡ true → run_monitor ticks m ≡ m
unfolding run_monitor
run_monitor-returned [] m h = refl
run_monitor-returned (tick ∷ ticks) m h = rw h refl

run_monitor-cons :
    (tick : Tick) (ticks : List Tick) (m : EventWorkMonitor)
    → m.returned ≡ false
    → run_monitor (tick ∷ ticks) m ≡ run_monitor ticks (monitor_step tick m)
unfolding run_monitor
run_monitor-cons tick ticks m h = ground (arith, h)

-- The monitor that has run on over some ticks holds what it held and what it has taken.
Holds : List Tick → Type 0
Holds ticks =
    (m : EventWorkMonitor)
    → m.returned ≡ false
    → AtMostOnce m (taken ticks)
    → (c : ℕ) → held c (run_monitor ticks m) ≡ held c m + count c (taken ticks)

poll-held :
    (ticks : List Tick)
    → Holds ticks
    → (polled : Polled) (done : ℕ → Bool) (m : EventWorkMonitor) → m.returned ≡ false
    → AtMostOnce m (taken_with polled (taken ticks))
    → (c : ℕ)
    → held c (run_monitor ticks (poll done polled m))
      ≡ held c m + count c (taken_with polled (taken ticks))
unfolding Holds AtMostOnce poll
poll-held ticks ih (context x) done m running once c =
    let held_now = λ (d : ℕ). held-context d x done m (taken ticks) once in
    omega (
      arith,
      held_now c,
      ih (poll done (context x) m) running
          (λ d. omega (arith, once d, held_now d, count-append d (x ∷ []) (taken ticks))) c,
      count-append c (x ∷ []) (taken ticks),
    )
poll-held ticks ih final_item done m running once c =
    rw (run_monitor-returned ticks (record m { queue_closed = true; returned = true }) refl)
      (omega arith)
poll-held ticks ih (empty true) done m running once c =
    rw (run_monitor-returned ticks (record m { returned = true }) refl) (omega arith)
poll-held ticks ih (empty false) done m running once c = omega (
  arith,
  held-process_pool c done m,
  ih (process_pool done m) running (λ d. omega (arith, once d, held-process_pool d done m)) c,
)
poll-held ticks ih shut_down done m running once c =
    rw (run_monitor-returned ticks (record m { returned = true }) refl) (omega arith)

run_monitor-held : (ticks : List Tick) → Holds ticks
unfolding monitor_step Holds AtMostOnce
run_monitor-held [] m running once c = unfold run_monitor in omega arith
run_monitor-held (tick ∷ ticks) m running once c =
    rw (run_monitor-cons tick ticks m running) (elim (Bool-cases tick.keep_running) [
      | inr stop ↦
          rw (stop, run_monitor-returned ticks (record m { returned = true }) refl) (omega arith)
      | inl go ↦ rw go (
          poll-held ticks (run_monitor-held ticks) tick.polled tick.done m running (rw go at once)
            c)
    ])

run_monitor-last :
    (ticks : List Tick) (tick : Tick) (m : EventWorkMonitor)
    → (run_monitor (ticks ++ tick ∷ []) m).returned ≡ false
    → run_monitor (ticks ++ tick ∷ []) m ≡ monitor_step tick (run_monitor ticks m)
unfolding run_monitor
run_monitor-last [] tick m h = ground arith
run_monitor-last (t ∷ ticks) tick m h = elim (Bool-cases m.returned) [
  | inl stopped ↦ ground (arith, stopped)
  | inr running ↦ ground (arith, running, run_monitor-last ticks tick (monitor_step t m))
]

poll-settled :
    (done : ℕ → Bool) (polled : Polled) (m : EventWorkMonitor) (c : ℕ)
    → done c ≡ true
    → (poll done polled m).returned ≡ false
    → count c (poll done polled m).invocation_context_pool ≡ 0
unfolding poll process_pool
poll-settled done (context x) m c set h =
    rw (count-those c (λ d. not (done d)) (pool_add x m.invocation_context_pool), set) refl
poll-settled done final_item m c set h = cc
poll-settled done (empty true) m c set h = cc
poll-settled done (empty false) m c set h =
    rw (count-those c (λ d. not (done d)) m.invocation_context_pool, set) refl
poll-settled done shut_down m c set h = cc

monitor_step-settled :
    (tick : Tick) (m : EventWorkMonitor) (c : ℕ)
    → tick.done c ≡ true
    → (monitor_step tick m).returned ≡ false
    → count c (monitor_step tick m).invocation_context_pool ≡ 0
unfolding monitor_step
monitor_step-settled tick m c set h = ground (arith, poll-settled tick.done tick.polled m c set)

run_monitor-settled :
    (ticks : List Tick) (tick : Tick) (m : EventWorkMonitor) (c : ℕ)
    → tick.done c ≡ true
    → (run_monitor (ticks ++ tick ∷ []) m).returned ≡ false
    → count c (run_monitor (ticks ++ tick ∷ []) m).invocation_context_pool ≡ 0
run_monitor-settled ticks tick m c set h =
    let last = run_monitor-last ticks tick m h in
    rw last (monitor_step-settled tick (run_monitor ticks m) c set (rw last at h))

-- Where no context is on the queue twice, however the iterations of the monitor go: a context that it
-- has taken from the queue was either released once or is still in the pool, and no other was; and
-- unless the monitor has returned, no context that was done in the last iteration is in the pool.
pub run_monitor_lem :
    (ticks : List Tick) (tick : Tick) (c : ℕ)
    → ((d : ℕ) → count d (taken (ticks ++ tick ∷ [])) ≤ 1)
    → let m = run_monitor (ticks ++ tick ∷ []) new_monitor in
      (count c m.released + count c m.invocation_context_pool
        ≡ count c (taken (ticks ++ tick ∷ [])))
      × ((m.returned ≡ true) ⊎ ((tick.done c ≡ false) ⊎ (count c m.invocation_context_pool ≡ 0)))
unfolding Holds AtMostOnce new_monitor
run_monitor_lem ticks tick c once = (
  omega (
    arith,
    run_monitor-held (ticks ++ tick ∷ []) new_monitor refl (λ d. omega (arith, once d)) c,
  ),
  elim (Bool-cases (run_monitor (ticks ++ tick ∷ []) new_monitor).returned) [
    | inl stopped ↦ inl stopped
    | inr running ↦ elim (Bool-cases (tick.done c)) [
      | inr busy ↦ inr (inl busy)
      | inl set ↦ inr (inr (run_monitor-settled ticks tick new_monitor c set running))
    ]
  ],
)
