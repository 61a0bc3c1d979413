-- ===== src/Event/Broker.antt =====
-- apps/server/src/event/broker.ts: the subscriptions of a conversation, each with a bounded buffer.
-- A read that waits is the flag `waiter`; resolving it is the notification that an operation returns.
pub mod Delivery
use formation_chat_core.Prelude.{
  ℕ, Bool, true, false, not, ◌&&◌, Option, none, some, List, [], ◌∷◌, ◌++◌, map, Result, ok, err,
  ltb, ◌==◌, if◌then◌else◌, length, select,
}
use formation_chat_core.Event.{EventView}

pub data Notification : Type 0 where
  event : EventView → Notification
  overflow closed : Notification

pub record Subscription : Type 0 where
  pub buffer_size : ℕ
  pub queue : List Notification
  pub waiter : Bool
  pub terminal : Bool
  -- Whether the broker still publishes to it; `detach` clears it.
  pub attached : Bool

pub data SubscriptionError : Type 0 where
  pending_read : SubscriptionError

unfoldable pub open_subscription : ℕ → Subscription
open_subscription buffer_size = record {
  buffer_size = buffer_size;
  queue = [];
  waiter = false;
  terminal = false;
  attached = true;
}

unfoldable pub push : EventView → Subscription → Subscription × Option Notification
push e s =
    if s.terminal
    then (s, none)
    else if s.waiter
    then (record s { waiter = false }, some (event e))
    else if ltb (length s.queue) s.buffer_size
    then (record s { queue = s.queue ++ event e ∷ [] }, none)
    else (record s { queue = overflow ∷ []; terminal = true; attached = false }, none)

-- The read of a queue: its first notification, or the end, or a wait.
unfoldable pub next_from :
    List Notification → Subscription → Result SubscriptionError (Subscription × Option Notification)
next_from (n ∷ rest) s = ok (record s { queue = rest }, some n)
next_from [] s =
    if s.terminal
    then ok (s, some closed)
    else if s.waiter
    then err pending_read
    else ok (record s { waiter = true }, none)

unfoldable pub next : Subscription → Result SubscriptionError (Subscription × Option Notification)
next s = next_from s.queue s

unfoldable pub close : Subscription → Subscription × Option Notification
close s = if s.terminal && not s.waiter then (s, none) else (
  record s { queue = []; terminal = true; attached = false; waiter = false },
  if s.waiter then some closed else none,
)

-- The broker's map of sets, as one list in the order of subscription: each entry is a subscription
-- under its conversation. A set that runs empty leaves the map, which the list shows by itself.
pub record Entry : Type 0 where
  pub conversation_id : ℕ
  pub subscription : Subscription

abbrev pub Broker : Type 0
Broker = List Entry

unfoldable pub subscribe : ℕ → ℕ → Broker → Broker
subscribe subscriber_buffer_size conversation_id broker =
    broker
    ++ record {
      conversation_id = conversation_id;
      subscription = open_subscription subscriber_buffer_size;
    }
      ∷ []

unfoldable pub push_entry : EventView → Entry → Entry
push_entry e entry =
    if entry.conversation_id == e.conversation_id
    then record entry { subscription = (push e entry.subscription).0 }
    else entry

-- Publishing pushes to every subscription of the conversation; those that overflow are detached.
unfoldable pub publish : EventView → Broker → Broker
publish e broker = select (λ entry. entry.subscription.attached) (map (push_entry e) broker)
