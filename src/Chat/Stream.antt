-- ===== src/Chat/Stream.antt =====
-- Any interleaving of the producers' calls and the consumer's.
use nora_fleet.Common.{
  ◌≡◌, refl, sym, ap, length, All, All-append, ◌⊎◌, inl, inr, Bool, true, false, List, [], ◌∷◌,
  ◌++◌, get, Value, ℕ, suc, zero,
}
use mathlib.Core.List.{append-nil, append_assoc}
use nora_fleet.Chat.{
  AsyncCollatingQueue, new_queue, end_message, is_not_none, is_final_item, put_item, put_final_item,
  Next, message, stop_async_iteration, blocked, take_next, next,
}

pub data Call : Type 0 where
  put : Value → Call
  put_final : Call
  anext : Call

-- The queue, the messages that the consumer has received, and how often its iteration was stopped.
pub record Run : Type 0 where
  pub state : AsyncCollatingQueue
  pub received : List Value
  pub stops : ℕ

abbrev pub receive : Next → AsyncCollatingQueue → Run → Run
receive (message item) q r = record {
  state = q;
  received = r.received ++ item ∷ [];
  stops = r.stops;
}
receive stop_async_iteration q r = record { state = q; received = r.received; stops = suc r.stops }
receive blocked q r = record { state = q; received = r.received; stops = r.stops }

abbrev pub step : Call → Run → Run
step (put item) r = record {
  state = put_item item true r.state;
  received = r.received;
  stops = r.stops;
}
step put_final r = record { state = put_final_item r.state; received = r.received; stops = r.stops }
step anext r = receive (next r.state).1 (next r.state).0 r

abbrev pub run : List Call → Run → Run
run [] r = r
run (call ∷ calls) r = run calls (step call r)

abbrev pub start : Run
start = record { state = new_queue; received = []; stops = 0 }

-- What the producers put before the first final item.
abbrev pub sent : List Call → List Value
sent [] = []
sent (put item ∷ calls) = item ∷ sent calls
sent (put_final ∷ calls) = []
sent (anext ∷ calls) = sent calls

abbrev pub finals : List Call → ℕ
finals [] = 0
finals (put item ∷ calls) = finals calls
finals (put_final ∷ calls) = 1
finals (anext ∷ calls) = finals calls

-- No producer puts a final item by `put`.
abbrev pub IsPlain : List Call → Type 0
IsPlain [] = Unit
IsPlain (put item ∷ calls) = (is_final_item item ≡ false) × IsPlain calls
IsPlain (put_final ∷ calls) = IsPlain calls
IsPlain (anext ∷ calls) = IsPlain calls

abbrev pub AllPlain : List Value → Type 0
AllPlain = All (λ v. is_final_item v ≡ false)

abbrev pub running : List Value → Bool → List Value → ℕ → Run
running queue sent received stops = record {
  state = record { queue = queue; last_item_sent = sent };
  received = received;
  stops = stops;
}

-- What is left of a stream onto which the producers have put the items `all`: it is open, with what
-- is still to be received on the queue; or closed, with the final item at the queue's end; or the
-- consumer, who has received all, was stopped, and the queue is empty.
abbrev pub IsOpen : List Value → Run → Type 0
IsOpen all r =
    (queue : List Value) × (received : List Value) × (r ≡ running queue false received 0)
    × (received ++ queue ≡ all)
    × AllPlain queue

abbrev pub IsClosing : List Value → Run → Type 0
IsClosing all r =
    (rest : List Value) × (received : List Value) × (r
      ≡ running (rest ++ end_message ∷ []) true received 0)
    × (received ++ rest ≡ all)
    × AllPlain rest

abbrev pub IsStopped : List Value → Run → Type 0
IsStopped all r = r ≡ running [] true all 1

abbrev pub Outcome : ℕ → List Value → Run → Type 0
Outcome zero all r = IsOpen all r
Outcome (suc n) all r = IsClosing all r ⊎ IsStopped all r

run_at : List Call → List Value → Bool → List Value → ℕ → Run
run_at calls queue sent received stops = run calls (running queue sent received stops)

run-IsStopped :
    (calls : List Call) (received : List Value)
    → IsStopped received (run_at calls [] true received 1)
unfolding run_at put_item put_final_item next take_next
run-IsStopped [] received = refl
run-IsStopped (put item ∷ calls) received = run-IsStopped calls received
run-IsStopped (put_final ∷ calls) received = run-IsStopped calls received
run-IsStopped (anext ∷ calls) received = run-IsStopped calls received

run-end :
    (calls : List Call) (received : List Value)
    → run_at (anext ∷ calls) (end_message ∷ []) true received 0 ≡ run_at calls [] true received 1
unfolding run_at next take_next is_final_item is_not_none get
run-end calls received = refl

run-next :
    (calls : List Call) (item : Value) (rest received : List Value) (sent : Bool) (n : ℕ)
    → is_final_item item ≡ false
    → run_at (anext ∷ calls) (item ∷ rest) sent received n
      ≡ run_at calls rest sent (received ++ item ∷ []) n
unfolding run_at next take_next
run-next calls item rest received sent n plain = rw plain

run-closing :
    (calls : List Call) (rest received : List Value)
    → AllPlain rest
    → Outcome 1 (received ++ rest) (run_at calls (rest ++ end_message ∷ []) true received 0)
unfolding run_at put_item put_final_item next take_next
run-closing [] rest received plain = inl (rest, received, refl, refl, plain)
run-closing (put item ∷ calls) rest received plain = run-closing calls rest received plain
run-closing (put_final ∷ calls) rest received plain = run-closing calls rest received plain
run-closing (anext ∷ calls) [] received plain =
    rw (run-end calls received, append-nil received) (inr (run-IsStopped calls received))
run-closing (anext ∷ calls) (item ∷ rest) received plain =
    rw
      (
        run-next calls item (rest ++ end_message ∷ []) received true 0 plain.0,
        ← append_assoc received (item ∷ []) rest,
      )
      (run-closing calls rest (received ++ item ∷ []) plain.1)

run-open :
    (calls : List Call) (queue received : List Value)
    → AllPlain queue
    → IsPlain calls
    → Outcome
        (finals calls)
        (received ++ (queue ++ sent calls))
        (run_at calls queue false received 0)
unfolding run_at put_item put_final_item next take_next
run-open [] queue received plain p =
    (queue, received, refl, ap (λ l. received ++ l) (sym (append-nil queue)), plain)
run-open (put item ∷ calls) queue received plain p =
    rw (← append_assoc queue (item ∷ []) (sent calls))
      (run-open calls (queue ++ item ∷ []) received (All-append _ queue _ plain (p.0, tt)) p.1)
run-open (put_final ∷ calls) queue received plain p =
    rw (append-nil queue) (run-closing calls queue received plain)
run-open (anext ∷ calls) [] received plain p = run-open calls [] received tt p
run-open (anext ∷ calls) (item ∷ queue) received plain p =
    rw
      (
        run-next calls item queue received false 0 plain.0,
        ← append_assoc received (item ∷ []) (queue ++ sent calls),
      )
      (run-open calls queue (received ++ item ∷ []) plain.1 p)

-- Whatever the order of the producers' and the consumer's calls on a new queue, where no item put is
-- final by itself: the consumer has received, in order, a beginning of the items put before the
-- first final one and the rest of them is on the queue; unless a final item was put the queue is
-- open and the consumer was not stopped; and otherwise the queue is closed with one final item at
-- its end, or the consumer was stopped once, having received all these items, and the queue is empty.
pub stream_lem :
    (calls : List Call) → IsPlain calls → Outcome (finals calls) (sent calls) (run calls start)
unfolding run_at new_queue
stream_lem calls p = run-open calls [] [] tt p

abbrev pub anexts : ℕ → List Call
anexts zero = []
anexts (suc n) = anext ∷ anexts n

drain :
    (rest received : List Value)
    → AllPlain rest
    → IsStopped
        (received ++ rest)
        (run_at (anexts (suc (length rest))) (rest ++ end_message ∷ []) true received 0)
drain [] received plain = rw (run-end [] received, append-nil received) (run-IsStopped [] received)
drain (item ∷ rest) received plain =
    rw
      (
        run-next (anexts (suc (length rest))) item (rest ++ end_message ∷ []) received true 0
            plain.0,
        ← append_assoc received (item ∷ []) rest,
      )
      (drain rest (received ++ item ∷ []) plain.1)

-- Once a final item was put, the consumer reaches the end: where it goes on until the queue is
-- empty, it has received just the items put before the first final one, and is stopped.
pub stream-ends :
    (calls : List Call)
    → IsPlain calls
    → finals calls ≡ 1
    → (n : ℕ) × IsStopped (sent calls) (run (anexts n) (run calls start))
unfolding run_at
stream-ends calls p once = elim (rw once at (stream_lem calls p)) [
  | inr stopped ↦ (0, stopped)
  | inl (rest, received, same, items, plain) ↦
      (suc (length rest), rw (same, ← items) (drain rest received plain))
]
