-- ===== src/Tests/Watchers.antt =====
-- A schedule of every five ticks, a monitor of two invocations, and a request.
use nora_fleet.Common.{
  ℕ, ◌+◌, ◌≤◌, String, ◌≡◌, put, entries-from_entries, ◌⊎◌, refl, Bool, true, false, Option, some,
  List, [], ◌∷◌, Dict, get, Value, str, obj, arr, end, field, nil, cons, entries, nat_eq, arith,
}
use nora_fleet.Redactor.{truthy}
use nora_fleet.Network.{Extract}
use nora_fleet.Messages.{value_at, is_null}
use nora_fleet.Watcher.{
  Cron, returns, AgentInteraction, Upcoming, iteration, run, set_up_agent_interactions,
  set_up_interactions, interactions_of,
}
use nora_fleet.Watcher.Advance.{IsIncreasing}
use nora_fleet.Watcher.Rounds.{
  Updated, IsScheduled, none_left, scheduled, due, iteration_lem, run-returns,
}
use nora_fleet.Watcher.Requests.{
  metadata_of, with_user, get_or, event_request, initiate_event, session_input, FollowsDots,
  input_of, initiate_event_lem,
}
use nora_fleet.Watcher.Monitor.{
  Tick, context, taken, count, run_monitor, new_monitor, run_monitor_lem,
}

abbrev every_five : Cron
every_five = record {
  Iter = ℕ;
  new_iter = λ schedule start second_at_beginning. some start;
  get_next = λ i. some (i + 5, i + 5);
}

every_five-IsIncreasing : IsIncreasing every_five (λ i. i)
every_five-IsIncreasing i = (i + 5, i + 5, refl, omega arith, refl)

abbrev interaction : String → ℕ → AgentInteraction every_five
interaction name t = record { agent_network = name; interaction = []; cron_iter = t }

-- One firing was missed, one is at the reading of the clock, and one is to come.
abbrev upcoming : Upcoming every_five
upcoming = record {
  interactions = interaction "a" 8 ∷ interaction "b" 10 ∷ interaction "c" 12 ∷ [];
  next_firing = (0, 8) ∷ (1, 10) ∷ (2, 12) ∷ [];
  closest_firing = 8;
}

upcoming-due : due every_five 10 upcoming.interactions upcoming.next_firing ≡ interaction "a" 8 ∷ []
upcoming-due = refl

iteration_lem_example :
    (v : Upcoming every_five) × (iteration every_five 1000 10 upcoming
      ≡ returns (due every_five 10 upcoming.interactions upcoming.next_firing, v))
    × Updated every_five 10 upcoming.next_firing 0 upcoming.interactions v.interactions
        v.next_firing
iteration_lem_example =
    iteration_lem every_five (λ i. i) every_five-IsIncreasing 1000 7 10 upcoming
      (scheduled (omega arith) (scheduled (omega arith) (scheduled (omega arith) none_left)))

abbrev periodic_configs : Dict (Dict Value)
periodic_configs = ("a", ("interactions", arr (cons (obj end) nil)) ∷ []) ∷ []

run-returns_example :
    (fired : List (List (AgentInteraction every_five))) × (v : Upcoming every_five) × (run
        every_five 1000 3
        (4 ∷ 9 ∷ [])
        periodic_configs
      ≡ returns (fired, v))
    × IsScheduled every_five 9 0 v.interactions v.next_firing
unfolding set_up_agent_interactions set_up_interactions interactions_of truthy get
run-returns_example =
    run-returns every_five (λ i. i) every_five-IsIncreasing 1000 3 (4 ∷ 9 ∷ []) periodic_configs
      (record { agent_network = "a"; interaction = []; cron_iter = 3 } ∷ []) refl

-- Context 1 is done at once, and context 2 is not.
abbrev tick : ℕ → Tick
tick c = record { keep_running = true; polled = context c; done = λ d. nat_eq d 1 }

taken-once : (d : ℕ) → count d (taken (tick 1 ∷ tick 2 ∷ [])) ≤ 1
taken-once d = ground arith

run_monitor_lem_example :
    let m = run_monitor (tick 1 ∷ tick 2 ∷ []) new_monitor in
    (count 1 m.released + count 1 m.invocation_context_pool ≡ 1)
    × ((m.returned ≡ true) ⊎ ((true ≡ false) ⊎ (count 1 m.invocation_context_pool ≡ 0)))
run_monitor_lem_example = run_monitor_lem (tick 1 ∷ []) (tick 2) 1 taken-once

-- An extractor that follows one dot.
after_dot : Option Value → Value → Value
after_dot (some (obj fs)) default = get_or default "text" (entries fs)
after_dot _ default = default

abbrev one_dot : Extract
one_dot = λ v key default. elim v [
  | obj fs ↦ after_dot (get "user_message" (entries fs)) default
  | _ ↦ default
]

one_dot-FollowsDots : FollowsDots one_dot
unfolding after_dot get_or
one_dot-FollowsDots request message text default e e' =
    rw (entries-from_entries request, e, entries-from_entries message, get_or, e') refl

-- The private data of an interaction, which its session does not see.
abbrev with_sly_data : Dict Value
with_sly_data = ("text", str "go") ∷ ("sly_data", obj (field "key" (str "secret") end)) ∷ []

abbrev system_user : Dict Value
system_user = ("user_id", str "system") ∷ []

abbrev allow : String → Dict Value → Bool × Bool
allow name metadata = (true, true)

initiate_event_lem_example :
    (allow "a" system_user ≡ (true, true))
    × (is_null (value_at "user_id" system_user) ≡ false)
    × (session_input one_dot (event_request with_sly_data) ≡ input_of with_sly_data)
unfolding initiate_event metadata_of with_user truthy get value_at is_null put
initiate_event_lem_example =
    initiate_event_lem one_dot allow "a" with_sly_data (event_request with_sly_data) system_user
      one_dot-FollowsDots refl
