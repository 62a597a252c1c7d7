-- ===== src/Chat.antt =====
-- nora_fleet/internals/chat/async_collating_queue.py: the stream of messages from the agents that
-- serve a request to the consumer of its answers. The two sides of the janus queue, synchronous and
-- asynchronous, are one queue. What `put` returns without a put, and a `__anext__` that blocks on an
-- empty queue, leave the state as it is.
pub mod Stream
pub mod History
use nora_fleet.Common.{
  Bool, true, false, not, ◌&&◌, Option, none, some, List, [], ◌∷◌, ◌++◌, if◌then◌else◌, Dict, get,
  Value, Items, Fields, null, bool, num, str, arr, obj, end, field, entries,
}

pub record AsyncCollatingQueue : Type 0 where
  pub queue : List Value
  pub last_item_sent : Bool

unfoldable pub new_queue : AsyncCollatingQueue
new_queue = record { queue = []; last_item_sent = false }

-- `END_MESSAGE`
abbrev pub end_message : Value
end_message = obj (field "end" (bool true) end)

unfoldable pub is_not_none : Option Value → Bool
is_not_none none = false
is_not_none (some null) = false
is_not_none (some _) = true

unfoldable pub is_final_item : Value → Bool
unfolding is_not_none
is_final_item (obj fs) = is_not_none (get "end" (entries fs))
is_final_item _ = false

-- `put`, with the flag `check_last_item_sent`
unfoldable pub put_item : Value → Bool → AsyncCollatingQueue → AsyncCollatingQueue
put_item item check q =
    if check && q.last_item_sent
    then q
    else record { queue = q.queue ++ item ∷ []; last_item_sent = q.last_item_sent }

unfoldable pub put_final_item : AsyncCollatingQueue → AsyncCollatingQueue
unfolding put_item
put_final_item q =
    if q.last_item_sent
    then q
    else put_item end_message false (record { queue = q.queue; last_item_sent = true })

unfoldable pub reset : AsyncCollatingQueue → AsyncCollatingQueue
reset q = record { queue = q.queue; last_item_sent = false }

-- What `__anext__` does: it returns a message, raises StopAsyncIteration, or blocks.
pub data Next : Type 0 where
  message : Value → Next
  stop_async_iteration : Next
  blocked : Next

unfoldable pub take_next : List Value → Bool → AsyncCollatingQueue × Next
unfolding is_final_item
take_next [] sent = (record { queue = []; last_item_sent = sent }, blocked)
take_next (item ∷ rest) sent = (
  record { queue = rest; last_item_sent = sent },
  if is_final_item item then stop_async_iteration else message item,
)

unfoldable pub next : AsyncCollatingQueue → AsyncCollatingQueue × Next
unfolding take_next
next q = take_next q.queue q.last_item_sent
