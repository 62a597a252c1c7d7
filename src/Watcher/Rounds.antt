-- ===== src/Watcher/Rounds.antt =====
-- The iterations of the thread's loop, over the readings of the clock.
use nora_fleet.Common.{
  ℕ, suc, ◌<◌, ◌≡◌, refl, ap, Option, some, List, [], ◌∷◌, ◌++◌, length, length-append, ltb, ltb→lt,
  if◌then◌else◌, arith, inl, inr, none, ◌⊎◌, Bool-cases, true, false, Dict, Value,
}
use mathlib.Core.List.{append_assoc}
use nora_fleet.Watcher.{
  Cron, returns, AgentInteraction, Upcoming, add_upcoming, firing_at, in_future, kept_time,
  update_one, update_loop, update_next_firing, interaction_at, figure_which_to_fire, iteration,
  set_up_agent_interactions, set_up, none_scheduled, iterations, run,
}
use nora_fleet.Watcher.Advance.{IsIncreasing, First, First-after, advance-First}

module _ (cron : Cron) where
  open cron use {Iter}

  -- What becomes of the interactions, from an index on, and of their next firings: one that is after
  -- `now` is kept, and any other is the iterator's first time after `now`.
  pub data Updated (now : ℕ) (old : List (ℕ × ℕ))
      : ℕ
        → List (AgentInteraction cron)
        → List (AgentInteraction cron)
        → List (ℕ × ℕ)
        → Type 0 where
    none_left : {index : ℕ} → Updated now old index [] [] []
    keeps :
        {index t : ℕ} {a : AgentInteraction cron} {items moved : List (AgentInteraction cron)}
        {next : List (ℕ × ℕ)}
        → firing_at index old ≡ some t
        → now < t
        → Updated now old (suc index) items moved next
        → Updated now old index (a ∷ items) (a ∷ moved) ((index, t) ∷ next)
    moves :
        {index t : ℕ} {k : Iter} {a : AgentInteraction cron}
        {items moved : List (AgentInteraction cron)} {next : List (ℕ × ℕ)}
        → in_future now (firing_at index old) ≡ false
        → First cron now a.cron_iter t k
        → Updated now old (suc index) items moved next
        → Updated now old index (a ∷ items) (record a { cron_iter = k } ∷ moved) ((index, t) ∷ next)

  -- Each interaction has a next firing after `now`, by its index.
  pub data IsScheduled (now : ℕ) : ℕ → List (AgentInteraction cron) → List (ℕ × ℕ) → Type 0 where
    none_left : {index : ℕ} → IsScheduled now index [] []
    scheduled :
        {index t : ℕ} {a : AgentInteraction cron} {items : List (AgentInteraction cron)}
        {next : List (ℕ × ℕ)}
        → now < t
        → IsScheduled now (suc index) items next
        → IsScheduled now index (a ∷ items) ((index, t) ∷ next)

  Updated-IsScheduled :
      {now : ℕ} {old : List (ℕ × ℕ)} {index : ℕ} {next : List (ℕ × ℕ)}
      {items moved : List (AgentInteraction cron)}
      → Updated now old index items moved next
      → IsScheduled now index moved next
  Updated-IsScheduled none_left = none_left
  Updated-IsScheduled (keeps e h u) = scheduled h (Updated-IsScheduled u)
  Updated-IsScheduled (moves e f u) = scheduled (First-after cron f) (Updated-IsScheduled u)

  -- The interactions whose next firing is before `now`.
  abbrev pub due : ℕ → List (AgentInteraction cron) → List (ℕ × ℕ) → List (AgentInteraction cron)
  due now [] next = []
  due now (a ∷ items) [] = []
  due now (a ∷ items) ((index, t) ∷ next) =
      let rest = due now items next in if ltb t now then a ∷ rest else rest

  interaction_at-length :
      (front : List (AgentInteraction cron)) (a : AgentInteraction cron)
      (items : List (AgentInteraction cron))
      → interaction_at cron (length front) (front ++ a ∷ items) ≡ some a
  unfolding interaction_at
  interaction_at-length [] a items = refl
  interaction_at-length (b ∷ front) a items = interaction_at-length front a items

  figure-due :
      (start : ℕ) {now index : ℕ} (front : List (AgentInteraction cron))
      {items : List (AgentInteraction cron)} {next : List (ℕ × ℕ)}
      → index ≡ length front
      → IsScheduled now index items next
      → figure_which_to_fire cron start (front ++ items) next ≡ some (due start items next)
  unfolding figure_which_to_fire
  figure-due start front e none_left = refl
  figure-due start front e (scheduled {a = a} {items = items} h s) =
      let others =
        figure-due start (front ++ a ∷ []) (omega (arith, e, length-append front (a ∷ []))) s in
      rw
        (
          ap (λ n. interaction_at cron n (front ++ a ∷ items)) e,
          interaction_at-length front a items,
          (rw (append_assoc front (a ∷ []) items) at others),
        )
        (ground arith)

  in_future-cases :
      (now : ℕ) (o : Option ℕ)
      → ((t : ℕ) × (o ≡ some t) × (now < t) × (in_future now o ≡ true) × (kept_time o ≡ t))
        ⊎ (in_future now o ≡ false)
  unfolding in_future kept_time
  in_future-cases now none = inr refl
  in_future-cases now (some t) = elim (Bool-cases (ltb now t)) [
    | inl h ↦ inl (t, refl, ltb→lt now t h, h, refl)
    | inr h ↦ inr h
  ]

  update_loop-Updated :
      (time : Iter → ℕ)
      → IsIncreasing cron time
      → (now closest index : ℕ) (old : List (ℕ × ℕ)) (items : List (AgentInteraction cron))
      → (u : Upcoming cron) × (update_loop cron now old closest index items ≡ returns u)
        × Updated now old index items u.interactions u.next_firing
  unfolding update_loop update_one
  update_loop-Updated time inc now closest index old [] = (_, refl, none_left)
  update_loop-Updated time inc now closest index old (a ∷ items) =
      let (u, e, h) = update_loop-Updated time inc now closest (suc index) old items in
      elim (in_future-cases now (firing_at index old)) [
        | inl (t, p, lt, q, r) ↦ (add_upcoming cron a index t u, rw (q, r, e) refl, keeps p lt h)
        | inr past ↦
            let (t, k, q, f) = advance-First cron time inc now a.cron_iter in
            (
              add_upcoming cron (record a { cron_iter = k }) index t u,
              rw (past, q, e) refl,
              moves past f h,
            )
      ]

  -- Where an iterator always has a next time, later than the one at which it stands, the update of the
  -- next firings returns. It keeps the next firing of an interaction that is after `now`, and gives
  -- any other interaction the first time of its iterator that is after `now`.
  pub update_next_firing_lem :
      (time : Iter → ℕ)
      → IsIncreasing cron time
      → (datetime_max now : ℕ) (u : Upcoming cron)
      → (v : Upcoming cron) × (update_next_firing cron datetime_max now u ≡ returns v)
        × Updated now u.next_firing 0 u.interactions v.interactions v.next_firing
  unfolding update_next_firing
  update_next_firing_lem time inc datetime_max now u =
      update_loop-Updated time inc now _ 0 u.next_firing u.interactions

  -- Where moreover each interaction has a next firing, an iteration of the loop returns. It fires,
  -- once each and in their order, the interactions whose next firing is before the reading of the
  -- clock, and then updates the next firings: an interaction whose next firing is the reading itself
  -- is not fired, and gets a later one.
  pub iteration_lem :
      (time : Iter → ℕ)
      → IsIncreasing cron time
      → (datetime_max before start : ℕ) (u : Upcoming cron)
      → IsScheduled before 0 u.interactions u.next_firing
      → (v : Upcoming cron) × (iteration cron datetime_max start u
          ≡ returns (due start u.interactions u.next_firing, v))
        × Updated start u.next_firing 0 u.interactions v.interactions v.next_firing
  unfolding iteration
  iteration_lem time inc datetime_max before start u s =
      let (v, e, h) = update_next_firing_lem time inc datetime_max start u in
      (v, rw (figure-due start [] refl s, e) refl, h)

  abbrev pub last_reading : ℕ → List ℕ → ℕ
  last_reading now [] = now
  last_reading now (start ∷ starts) = last_reading start starts

  iterations-return :
      (time : Iter → ℕ)
      → IsIncreasing cron time
      → (datetime_max now : ℕ) (starts : List ℕ) (u : Upcoming cron)
      → IsScheduled now 0 u.interactions u.next_firing
      → (fired : List (List (AgentInteraction cron))) × (v : Upcoming cron) × (iterations cron
            datetime_max starts u
          ≡ returns (fired, v))
        × IsScheduled (last_reading now starts) 0 v.interactions v.next_firing
  unfolding iterations
  iterations-return time inc datetime_max now [] u s = ([], u, refl, s)
  iterations-return time inc datetime_max now (start ∷ starts) u s =
      let (v, e, h) = iteration_lem time inc datetime_max now start u s in
      let (fired, w, q, s') =
        iterations-return time inc datetime_max start starts v (Updated-IsScheduled h) in
      (due start u.interactions u.next_firing ∷ fired, w, rw (e, q) refl, s')

  -- Where an iterator always has a next time, later than the one at which it stands, and the
  -- interactions can be set up, the thread raises no exception and no iteration of its loop is
  -- without an end. After any number of them each interaction has a next firing after the last
  -- reading of the clock.
  pub run-returns :
      (time : Iter → ℕ)
      → IsIncreasing cron time
      → (datetime_max now : ℕ) (starts : List ℕ) (configs : Dict (Dict Value))
        (items : List (AgentInteraction cron))
      → set_up_agent_interactions cron now configs ≡ some items
      → (fired : List (List (AgentInteraction cron))) × (v : Upcoming cron) × (run cron datetime_max
            now starts configs
          ≡ returns (fired, v))
        × IsScheduled (last_reading now starts) 0 v.interactions v.next_firing
  unfolding run set_up
  run-returns time inc datetime_max now starts configs items e =
      let (u, p, h) =
        update_next_firing_lem time inc datetime_max now (none_scheduled cron datetime_max items) in
      let (fired, v, q, s) =
        iterations-return time inc datetime_max now starts u (Updated-IsScheduled h) in
      (fired, v, rw (e, p) q, s)
