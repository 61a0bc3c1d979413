-- ===== src/Event/Stream.antt =====
-- apps/server/src/event/route.ts: the events that a connection is sent, first those of the replay and
-- then those of its subscription, which was made before the replay was read.
use formation_chat_core.Prelude.{
  ℕ, zero, suc, ◌≤◌, ◌<◌, ◌≡◌, refl, some, List, [], ◌∷◌, ◌++◌, map, arith, leb, ltb, if◌then◌else◌,
  Bool-cases, inl, inr, select, take, drop, last?, All, All-map, IsAscending, select-drop_overlap,
  take-append-drop, select_above, Option-cases, drop-IsAscending, last?-none,
}
use formation_chat_core.Event.{EventView, EventReplay, events, sync}
use formation_chat_core.Event.Broker.{Notification, event, overflow, closed}

-- The loop over the notifications. The list ends where the connection is gone or a read waits; an
-- overflow is answered by the request to synchronise.
unfoldable pub stream_from : ℕ → EventView → List Notification → List EventView
stream_from last sync_event [] = []
stream_from last sync_event (closed ∷ rest) = []
stream_from last sync_event (overflow ∷ rest) = sync_event ∷ []
stream_from last sync_event (event e ∷ rest) =
    let skipped = stream_from last sync_event rest in
    let written = stream_from e.sequence sync_event rest in
    if leb e.sequence last then skipped else e ∷ written

-- `lastSequence` after the events of the replay are written.
unfoldable pub last_sequence : ℕ → List EventView → ℕ
last_sequence last [] = last
last_sequence last (e ∷ es) = last_sequence e.sequence es

unfoldable pub stream : EventReplay → EventView → List Notification → List EventView
stream (sync e) sync_event notifications = e ∷ []
stream (events es) sync_event notifications =
    es ++ stream_from (last_sequence 0 es) sync_event notifications

abbrev pub seq : EventView → ℕ
seq e = e.sequence

-- Over events in ascending order the loop writes those above the last sequence.
stream_from-select :
    (last : ℕ) (s : EventView) (es : List EventView)
    → IsAscending seq es
    → stream_from last s (map event es) ≡ select (λ e. ltb last e.sequence) es
unfolding stream_from select
stream_from-select last s [] h = refl
stream_from-select last s (e ∷ es) (h, hs) = elim (Bool-cases (leb e.sequence last)) [
  | inl old ↦ ground (arith, old, stream_from-select last s es hs)
  | inr new ↦ ground (
    arith,
    new,
    stream_from-select e.sequence s es hs,
    select_above seq e.sequence es h,
    select_above seq last es
        (All-map {Q = λ y. last < y.sequence} (λ y lt. ground (arith, new, lt)) es h),
  )
]

last_sequence-last? :
    (n : ℕ) (es : List EventView) (e : EventView)
    → last? es ≡ some e
    → last_sequence n es ≡ e.sequence
unfolding last_sequence last?
last_sequence-last? n [] e h = ground arith
last_sequence-last? n (x ∷ []) e h = ground arith
last_sequence-last? n (x ∷ y ∷ es) e h = last_sequence-last? x.sequence (y ∷ es) e h

-- Nothing is replayed of no events, or of a replay of length 0, which the subscription covers whole.
replay_empty :
    (j k : ℕ) (all : List EventView)
    → j ≤ k
    → take k all ≡ []
    → All (λ e. 0 < e.sequence) all
    → select (λ e. ltb 0 e.sequence) (drop j all) ≡ all
unfolding take drop
replay_empty zero k all le e pos = select_above seq 0 all pos
replay_empty (suc j) zero all le e pos = absurd (omega arith)
replay_empty (suc j) (suc k) [] le e pos = unfold select in refl
replay_empty (suc j) (suc k) (x ∷ xs) le e pos = ground arith

-- A connection subscribes before it reads the replay, so the two overlap: of the conversation's
-- events in order, the replay holds those up to the k-th and the subscription those from the j-th
-- on. The connection is sent every event once, in order.
pub stream_once :
    (j k : ℕ) (all : List EventView) (sync_event : EventView)
    → j ≤ k
    → IsAscending seq all
    → All (λ e. 0 < e.sequence) all
    → stream (events (take k all)) sync_event (map event (drop j all)) ≡ all
unfolding stream
stream_once j k all s le h pos =
    rw
      (stream_from-select (last_sequence 0 (take k all)) s (drop j all)
        (drop-IsAscending seq j all h))
      (elim (Option-cases (last? (take k all))) [
        | inr (e, there) ↦
            rw (last_sequence-last? 0 (take k all) e there)
              (rw (select-drop_overlap seq j k all e h le there) (take-append-drop k all))
        | inl missing ↦
            let none_sent = last?-none (take k all) missing in
            rw none_sent (unfold last_sequence in replay_empty j k all le none_sent pos)
      ])
