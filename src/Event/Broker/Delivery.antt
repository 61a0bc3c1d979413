-- ===== src/Event/Broker/Delivery.antt =====
-- apps/server/src/event/broker.ts: what a subscription delivers.
use formation_chat_core.Prelude.{
  ℕ, zero, suc, ◌+◌, ◌≤◌, ◌<◌, ◌≡◌, refl, ◌⊎◌, inl, inr, true, false, Option, none, some, List, [],
  ◌∷◌, ◌++◌, map, ap, ◌∙◌, not, arith, Result, ok, err, ltb, length, Bool-cases, length-append,
}
use mathlib.Core.List.{append-nil, append_assoc}
use formation_chat_core.Event.{EventView}
use formation_chat_core.Event.Broker.{
  Notification, event, overflow, closed, Subscription, SubscriptionError, open_subscription, push,
  next_from, next, close,
}

-- The buffer is within its size, and a read waits only where nothing is there to be read.
pub record IsValid (s : Subscription) : Type 0 where
  pub size : 0 < s.buffer_size
  pub bounded : length s.queue ≤ s.buffer_size
  pub waits : (s.waiter ≡ false) ⊎ ((s.queue ≡ []) × (s.terminal ≡ false))
  pub ended : s.attached ≡ not s.terminal

open_subscription-IsValid : (n : ℕ) → 0 < n → IsValid (open_subscription n)
unfolding open_subscription
open_subscription-IsValid n h = ground arith

push-IsValid : (e : EventView) (s : Subscription) → IsValid s → IsValid (push e s).0
unfolding push
push-IsValid e s v = ground (arith, length-append s.queue (event e ∷ []))

close-IsValid : (s : Subscription) → IsValid s → IsValid (close s).0
unfolding close
close-IsValid s v = ground arith

-- The operations of a reader and the broker on one subscription.
pub data Operation : Type 0 where
  pushes : EventView → Operation
  reads closes : Operation

-- The subscription behind a read; a second read while one waits throws and changes nothing.
abbrev after_read :
    Subscription → Result SubscriptionError (Subscription × Option Notification) → Subscription
after_read s (ok (t, _)) = t
after_read s (err _) = s

unfoldable pub step : Operation → Subscription → Subscription
step (pushes e) s = (push e s).0
step reads s = after_read s (next s)
step closes s = (close s).0

read-IsValid :
    (q : List Notification) (s : Subscription)
    → s.queue ≡ q
    → IsValid s
    → IsValid (after_read s (next_from q s))
unfolding next_from
read-IsValid [] s e v = ground (arith, e)
read-IsValid (n ∷ rest) s e v = ground (arith, e)

step-IsValid : (o : Operation) (s : Subscription) → IsValid s → IsValid (step o s)
unfolding step next
step-IsValid (pushes e) s v = push-IsValid e s v
step-IsValid reads s v = read-IsValid s.queue s refl v
step-IsValid closes s v = close-IsValid s v

unfoldable pub run : List Operation → Subscription → Subscription
run [] s = s
run (o ∷ os) s = run os (step o s)

run-keeps : (os : List Operation) (s : Subscription) → IsValid s → IsValid (run os s)
unfolding run
run-keeps [] s v = v
run-keeps (o ∷ os) s v = run-keeps os (step o s) (step-IsValid o s v)

-- Whatever is published, read and closed, in any order: the buffer never exceeds its size, a read
-- waits only while nothing is buffered, and a subscription is detached exactly when it has ended.
pub run-IsValid : (n : ℕ) (os : List Operation) → 0 < n → IsValid (run os (open_subscription n))
run-IsValid n os h = run-keeps os (open_subscription n) (open_subscription-IsValid n h)

-- Publishing one event after the other, with no read between.
unfoldable pub push_all : List EventView → Subscription → Subscription
push_all [] s = s
push_all (e ∷ es) s = push_all es (push e s).0

-- What a read yields, with the reads that follow it; one that waits yields nothing more.
abbrev received :
    (Subscription → List Notification)
    → Result SubscriptionError (Subscription × Option Notification)
    → List Notification
received rest (ok (t, some n)) = n ∷ rest t
received rest (ok (t, none)) = []
received rest (err _) = []

-- The notifications of at most k reads.
unfoldable pub read_all : ℕ → Subscription → List Notification
unfolding next
read_all zero s = []
read_all (suc k) s = received (read_all k) (next s)

buffered : ℕ → List Notification → Subscription
buffered n q = record {
  buffer_size = n;
  queue = q;
  waiter = false;
  terminal = false;
  attached = true;
}

overflowed : ℕ → Subscription
overflowed n = record {
  buffer_size = n;
  queue = overflow ∷ [];
  waiter = false;
  terminal = true;
  attached = false;
}

push-buffered :
    (n : ℕ) (q : List Notification) (e : EventView)
    → length q < n
    → (push e (buffered n q)).0 ≡ buffered n (q ++ event e ∷ [])
unfolding push buffered
push-buffered n q e h = ground arith

push-full :
    (n : ℕ) (q : List Notification) (e : EventView)
    → n ≤ length q
    → (push e (buffered n q)).0 ≡ overflowed n
unfolding push buffered overflowed
push-full n q e h = ground arith

push_all-overflowed : (n : ℕ) (es : List EventView) → push_all es (overflowed n) ≡ overflowed n
unfolding push_all push overflowed
push_all-overflowed n [] = refl
push_all-overflowed n (e ∷ es) = push_all-overflowed n es

push_all-buffered :
    (n : ℕ) (q : List Notification) (es : List EventView)
    → length q + length es ≤ n
    → push_all es (buffered n q) ≡ buffered n (q ++ map event es)
unfolding push_all
push_all-buffered n q [] h = rw append-nil
push_all-buffered n q (e ∷ es) h = rw (push-buffered n q e (omega arith)) (
    push_all-buffered n (q ++ event e ∷ []) es (omega (arith, length-append q (event e ∷ [])))
    ∙ ap (buffered n) (append_assoc q (event e ∷ []) (map event es)))

push_all-full :
    (n : ℕ) (q : List Notification) (es : List EventView)
    → length q ≤ n
    → n < length q + length es
    → push_all es (buffered n q) ≡ overflowed n
unfolding push_all
push_all-full n q [] h k = absurd (omega arith)
push_all-full n q (e ∷ es) h k = elim (Bool-cases (ltb (length q) n)) [
  | inl room ↦ rw (push-buffered n q e (ground arith)) (
      push_all-full n (q ++ event e ∷ []) es (ground (arith, length-append q (event e ∷ [])))
        (omega (arith, length-append q (event e ∷ []))))
  | inr full ↦ rw (push-full n q e (ground arith)) (push_all-overflowed n es)
]

read_all-buffered :
    (n k : ℕ) (es : List EventView)
    → length es ≤ k
    → read_all k (buffered n (map event es)) ≡ map event es
unfolding read_all next_from buffered
read_all-buffered n zero [] h = refl
read_all-buffered n zero (e ∷ es) h = absurd (omega arith)
read_all-buffered n (suc k) [] h = refl
read_all-buffered n (suc k) (e ∷ es) h =
    ap (λ r. event e ∷ r) (read_all-buffered n k es (omega arith))

-- Events published to a subscription that is read too late are delivered in order, none left out, as
-- long as they fit its buffer.
pub read_all-push_all :
    (n k : ℕ) (es : List EventView)
    → length es ≤ n
    → length es ≤ k
    → read_all k (push_all es (open_subscription n)) ≡ map event es
unfolding open_subscription buffered
read_all-push_all n k es h read =
    ap (read_all k) (push_all-buffered n [] es (omega arith)) ∙ read_all-buffered n k es read

-- With one event more than the buffer holds the reader gets the overflow, and then the end.
pub read_all-overflow :
    (n : ℕ) (es : List EventView)
    → n < length es
    → read_all 2 (push_all es (open_subscription n)) ≡ overflow ∷ closed ∷ []
unfolding open_subscription buffered
read_all-overflow n es h = ap (read_all 2) (push_all-full n [] es (omega arith) (omega arith)) ∙ two
  where
    two : read_all 2 (overflowed n) ≡ overflow ∷ closed ∷ []
    two = unfold read_all next_from overflowed in refl
