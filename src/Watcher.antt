-- ===== src/Watcher.antt =====
-- nora_fleet/service/watcher: the thread that fires the periodic agents (event_initiator) and the one
-- that waits for their work to be done (event_work). Times are whole ticks.
pub mod Advance
pub mod Rounds
pub mod Requests
pub mod Monitor
use nora_fleet.Common.{
  ℕ, zero, suc, ◌+◌, min, String, Bool, true, false, not, Option, none, some, List, [], ◌∷◌, ◌++◌,
  map, if◌then◌else◌, ltb, leb, nat_eq, ◌==◌, Dict, get, put, contains, Value, Items, Fields, null,
  bool, str, obj, arr, end, field, elements, entries, from_entries, ◌>>=◌,
}
use nora_fleet.Redactor.{truthy}
use nora_fleet.Messages.{or_null, value_at, is_null}

-- croniter, which is passed in: `CronIter(cron_schedule, start_time, second_at_beginning=...)` and
-- `get_next(datetime)`, which moves the iterator on and may raise (`none`).
pub record Cron : Type 1 where
  pub Iter : Type 0
  pub new_iter : Value → ℕ → Value → Option Iter
  pub get_next : Iter → Option (ℕ × Iter)

-- What a call does: it returns, raises, or was given too little fuel for its loop.
pub data Outcome {ℓ} (A : Type ℓ) : Type ℓ where
  returns : A → Outcome A
  raises : Outcome A
  out_of_fuel : Outcome A

infixl 5 ◌>>>◌
abbrev pub ◌>>>◌ {ℓ κ} : {A : Type ℓ} {B : Type κ} → Outcome A → (A → Outcome B) → Outcome B
returns a >>> f = f a
raises >>> f = raises
out_of_fuel >>> f = out_of_fuel

abbrev pub or_raises {ℓ} : {A : Type ℓ} → Option A → Outcome A
or_raises none = raises
or_raises (some a) = returns a

-- `next_firing`, by the index of an interaction
unfoldable pub firing_at : ℕ → List (ℕ × ℕ) → Option ℕ
firing_at index [] = none
firing_at index ((i, t) ∷ rest) = if nat_eq i index then some t else firing_at index rest

-- `PeriodicManifestDictConfigFilter.DEFAULT_CRON_SCHEDULE`
abbrev pub default_cron_schedule : Value
default_cron_schedule = str "*/1 * * * * 0"

or_default : Value → Option Value → Value
or_default v none = v
or_default v (some w) = w

-- the dictionaries that a loop over `periodic_config.get("interactions", [])` meets; what else is
-- iterated has elements without a `get`, and raises
interactions_in : List Value → Option (List (Dict Value))
interactions_in [] = some []
interactions_in (obj fs ∷ vs) = do rest ← interactions_in vs; some (entries fs ∷ rest)
interactions_in (_ ∷ vs) = none

unfoldable pub interactions_of : Option Value → Option (List (Dict Value))
unfolding interactions_in
interactions_of none = some []
interactions_of (some (arr items)) = interactions_in (elements items)
interactions_of (some (str s)) = if s == "" then some [] else none
interactions_of (some (obj end)) = some []
interactions_of (some _) = none

-- `next_firing_time is not None` and `next_firing_time > now`
unfoldable pub in_future : ℕ → Option ℕ → Bool
in_future now none = false
in_future now (some t) = ltb now t

unfoldable pub kept_time : Option ℕ → ℕ
kept_time none = 0
kept_time (some t) = t

module _ (cron : Cron) where
  open cron use {Iter, new_iter, get_next}

  pub record AgentInteraction : Type 0 where
    pub agent_network : String
    pub interaction : Dict Value
    pub cron_iter : Iter

  -- the loops of `set_up_agent_interactions`
  unfoldable pub set_up_interactions :
      ℕ → String → List (Dict Value) → Option (List AgentInteraction)
  unfolding truthy or_default
  set_up_interactions start agent_network [] = some []
  set_up_interactions start agent_network (d ∷ ds) =
      let others = set_up_interactions start agent_network ds in
      if truthy (or_default (bool true) (get "enable" d))
      then (do
        i ←
            new_iter (or_default default_cron_schedule (get "cron_schedule" d)) start
              (or_default (bool false) (get "second_at_beginning" d))
        rest ← others
        some (record { agent_network = agent_network; interaction = d; cron_iter = i } ∷ rest))
      else others

  unfoldable pub set_up_agent_interactions : ℕ → Dict (Dict Value) → Option (List AgentInteraction)
  unfolding interactions_of
  set_up_agent_interactions start [] = some []
  set_up_agent_interactions start ((agent_network, config) ∷ configs) = do
    ds ← interactions_of (get "interactions" config)
    here ← set_up_interactions start agent_network ds
    rest ← set_up_agent_interactions start configs
    some (here ++ rest)

  -- The next time of an iterator, and the loop of `update_next_firing` that skips those which are not
  -- after `now`.
  unfoldable pub skip_past : ℕ → ℕ → ℕ → Iter → Outcome (ℕ × Iter)
  skip_past now zero t i = if leb t now then out_of_fuel else returns (t, i)
  skip_past now (suc fuel) t i =
      let rest = or_raises (get_next i) >>> λ next. skip_past now fuel next.0 next.1 in
      if leb t now then rest else returns (t, i)

  -- The fuel is one more than the present tick.
  unfoldable pub advance : ℕ → Iter → Outcome (ℕ × Iter)
  advance now i = or_raises (get_next i) >>> λ next. skip_past now (suc now) next.0 next.1

  -- what `update_next_firing` gives, with the interactions whose iterators it has moved on
  pub record Upcoming : Type 0 where
    pub interactions : List AgentInteraction
    pub next_firing : List (ℕ × ℕ)
    pub closest_firing : ℕ

  abbrev pub add_upcoming : AgentInteraction → ℕ → ℕ → Upcoming → Upcoming
  add_upcoming a index t u = record {
    interactions = a ∷ u.interactions;
    next_firing = (index, t) ∷ u.next_firing;
    closest_firing = min t u.closest_firing;
  }

  -- the next firing of one interaction
  unfoldable pub update_one : ℕ → Option ℕ → AgentInteraction → Outcome (ℕ × AgentInteraction)
  unfolding kept_time
  update_one now scheduled a =
      if in_future now scheduled
      then returns (kept_time scheduled, a)
      else (advance now a.cron_iter >>> λ next. returns (next.0, record a { cron_iter = next.1 }))

  -- its loop
  unfoldable pub update_loop : ℕ → List (ℕ × ℕ) → ℕ → ℕ → List AgentInteraction → Outcome Upcoming
  update_loop now next_firing closest index [] =
      returns (record { interactions = []; next_firing = []; closest_firing = closest })
  update_loop now next_firing closest index (a ∷ rest) =
      update_one now (firing_at index next_firing) a >>> λ next.
      update_loop now next_firing closest (suc index) rest >>> λ u.
      returns (add_upcoming next.1 index next.0 u)

  -- `datetime_max` is `datetime.max`
  unfoldable pub update_next_firing : ℕ → ℕ → Upcoming → Outcome Upcoming
  update_next_firing datetime_max now u =
      update_loop now u.next_firing
        (if ltb u.closest_firing now then datetime_max else u.closest_firing) 0 u.interactions

  -- `agent_interaction_list[index]`
  unfoldable pub interaction_at : ℕ → List AgentInteraction → Option AgentInteraction
  interaction_at index [] = none
  interaction_at zero (a ∷ rest) = some a
  interaction_at (suc index) (a ∷ rest) = interaction_at index rest

  unfoldable pub figure_which_to_fire :
      ℕ → List AgentInteraction → List (ℕ × ℕ) → Option (List AgentInteraction)
  figure_which_to_fire now interactions [] = some []
  figure_which_to_fire now interactions ((index, t) ∷ rest) =
      let others = figure_which_to_fire now interactions rest in
      if ltb t now
      then (do a ← interaction_at index interactions; fired ← others; some (a ∷ fired))
      else others

  abbrev pub none_scheduled : ℕ → List AgentInteraction → Upcoming
  none_scheduled datetime_max interactions = record {
    interactions = interactions;
    next_firing = [];
    closest_firing = datetime_max;
  }

  -- what `run` does before its loop
  unfoldable pub set_up : ℕ → ℕ → Dict (Dict Value) → Outcome Upcoming
  set_up datetime_max now configs =
      or_raises (set_up_agent_interactions now configs) >>> λ interactions.
      update_next_firing datetime_max now (none_scheduled datetime_max interactions)

  -- one iteration of the loop of `run`: what it fires, and the state that it leaves
  unfoldable pub iteration : ℕ → ℕ → Upcoming → Outcome (List AgentInteraction × Upcoming)
  iteration datetime_max start u =
      or_raises (figure_which_to_fire start u.interactions u.next_firing) >>> λ fired.
      update_next_firing datetime_max start u >>> λ u'. returns (fired, u')

  -- its loop, over the readings of the clock, with what each iteration fires
  unfoldable pub iterations :
      ℕ → List ℕ → Upcoming → Outcome (List (List AgentInteraction) × Upcoming)
  iterations datetime_max [] u = returns ([], u)
  iterations datetime_max (start ∷ starts) u = iteration datetime_max start u >>> λ next.
      iterations datetime_max starts next.1 >>> λ last. returns (next.0 ∷ last.0, last.1)

  -- `run`
  unfoldable pub run :
      ℕ → ℕ → List ℕ → Dict (Dict Value) → Outcome (List (List AgentInteraction) × Upcoming)
  run datetime_max now starts configs =
      set_up datetime_max now configs >>> iterations datetime_max starts
