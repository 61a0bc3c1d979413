-- ===== src/Browser/Streams.antt =====
-- packages/browser-client/src/client.ts: the streams that are open at one time.
use formation_chat_core.Prelude.{
  ℕ, ◌-◌, ◌≡◌, refl, sym, ◌∙◌, subst, Bool, true, false, not, Option, none, some, List, [], ◌∷◌,
  ◌++◌, arith, ◌==◌, if◌then◌else◌, select, update_where, length, Bool-cases, inl, inr, ◌⊎◌,
}
use formation_chat_core.Client.Types.{ChatClientError}
use formation_chat_core.Browser.{
  Machine, Connection, abort, abort_at, abort_stream, has_connection_id, connect, open_stream,
  schedule_reconnect, session_bootstrapped, destroy, dispatch, created, schedule_renewal,
}
use formation_chat_core.Browser.Steps.{Reach}
use formation_chat_core.Browser.Effects.{Wire, wire, Effect, Step-effect}

abbrev is_open : Connection → Bool
is_open c = not c.aborted

unfoldable pub open_connections : Machine → List Connection
open_connections m = select is_open m.connections

-- No stream is open, or one, which is the one that the client holds.
abbrev pub HasOneStream : List Connection → Option ℕ → Type 0
HasOneStream connections stream =
    (select is_open connections ≡ [])
    ⊎ ((c : Connection) × (select is_open connections ≡ c ∷ []) × (stream ≡ some c.connection_id))

abbrev pub IsTidy : Machine → Type 0
IsTidy m = HasOneStream m.connections m.stream

abbrev Tidy : Wire → Type 0
Tidy w = HasOneStream w.connections w.stream

select-abort :
    (id : ℕ) (cs : List Connection)
    → select is_open (update_where (has_connection_id id) abort cs)
      ≡ select (λ c. not (c.connection_id == id)) (select is_open cs)
unfolding select update_where
select-abort id [] = refl
select-abort id (c ∷ cs) = ground (arith, select-abort id cs)

-- Aborting the stream that the client holds leaves none open.
select-abort_at :
    (stream : Option ℕ) (cs : List Connection)
    → HasOneStream cs stream
    → select is_open (abort_at stream cs) ≡ []
select-abort_at none cs (inl closed) = closed
select-abort_at none cs (inr (c, one, same)) = ground arith
select-abort_at (some id) cs (inl closed) =
    rw (select-abort id cs) (rw closed (unfold select in refl))
select-abort_at (some id) cs (inr (c, one, same)) =
    rw (select-abort id cs) (rw one (unfold select in ground arith))

select-append :
    (cs ds : List Connection) → select is_open (cs ++ ds) ≡ select is_open cs ++ select is_open ds
unfolding select
select-append [] ds = refl
select-append (c ∷ cs) ds = ground (arith, select-append cs ds)

if-IsTidy : (b : Bool) (m n : Machine) → IsTidy m → IsTidy n → IsTidy (if b then m else n)
if-IsTidy true m n h k = h
if-IsTidy false m n h k = k

if_holds : {A : Type 0} (b : Bool) (x y : A) → b ≡ true → (if b then x else y) ≡ x
if_holds true x y e = refl
if_holds false x y e = cc

if_fails : {A : Type 0} (b : Bool) (x y : A) → b ≡ false → (if b then x else y) ≡ y
if_fails true x y e = cc
if_fails false x y e = refl

-- A client that is destroyed and has no open stream and no reconnection ahead.
abbrev pub IsQuiet : Machine → Type 0
IsQuiet m = (m.destroyed ≡ true) × (select is_open m.connections ≡ []) × (m.reconnect_timer ≡ none)

abbrev Quiet : Wire → Type 0
Quiet w = (w.destroyed ≡ true) × (select is_open w.connections ≡ []) × (w.reconnect_timer ≡ none)

module _ (locale_le : ℕ → ℕ → Bool) where
  pub abort_stream-IsTidy : (m : Machine) → IsTidy m → IsTidy (abort_stream m)
  unfolding abort_stream
  abort_stream-IsTidy m h = inl (select-abort_at m.stream m.connections h)

  connect-IsTidy :
      (conversation : Option ℕ) (m : Machine) → IsTidy m → IsTidy (connect locale_le conversation m)
  unfolding connect
  connect-IsTidy none m h = h
  connect-IsTidy (some conversation) m h = elim (Bool-cases m.destroyed) [
    | inl gone ↦ rw gone h
    | inr alive ↦ rw alive (
        inr (
          record {
            connection_id = length m.connections;
            aborted = false;
            conversation_id = conversation;
            last_event_id = m.state.last_event_id;
          },
          select-append (abort_at m.stream m.connections) _
              ∙ (rw (select-abort_at m.stream m.connections h) (unfold select in refl)),
          refl,
        ))
  ]

  open_stream-IsTidy : (m : Machine) → IsTidy m → IsTidy (open_stream locale_le m)
  unfolding open_stream
  open_stream-IsTidy m h = connect-IsTidy m.state.conversation m h

  schedule_reconnect-IsTidy :
      (cause : Option ChatClientError) (m : Machine)
      → IsTidy m
      → IsTidy (schedule_reconnect locale_le cause m)
  unfolding schedule_reconnect dispatch
  schedule_reconnect-IsTidy none m h = if-IsTidy m.destroyed m _ h h
  schedule_reconnect-IsTidy (some cause) m h = if-IsTidy m.destroyed m _ h h

  Effect-IsTidy : (m n : Machine) → Effect locale_le m n → IsTidy m → IsTidy n
  Effect-IsTidy m n (Effect.kept e) h = subst Tidy (sym e) h
  Effect-IsTidy m n (Effect.opened k e f) h =
      subst IsTidy (sym f) (open_stream-IsTidy k (subst Tidy (sym e) h))
  Effect-IsTidy m n (Effect.opened_late k e f) h =
      subst IsTidy (sym f) (open_stream-IsTidy k (subst Tidy (sym e) h))
  Effect-IsTidy m n (Effect.aborted e) h = subst Tidy (sym e) (abort_stream-IsTidy m h)
  Effect-IsTidy m n (Effect.reopened k e f) h =
      subst IsTidy (sym f) (open_stream-IsTidy k (subst Tidy (sym e) (abort_stream-IsTidy m h)))
  Effect-IsTidy m n (Effect.scheduled cause f) h =
      subst IsTidy (sym f) (schedule_reconnect-IsTidy cause m h)
  Effect-IsTidy m n (Effect.ended f) h =
      subst IsTidy (sym f) (unfold destroy in abort_stream-IsTidy m h)

  -- Whatever happens to a client, in whatever order, at most one of its streams is open, and it is
  -- the one that the client holds.
  pub Reach-IsTidy : {m : Machine} → Reach locale_le created m → IsTidy m
  unfolding created
  Reach-IsTidy Reach.here = inl (unfold select in refl)
  Reach-IsTidy (Reach.next r st) = Effect-IsTidy _ _ (Step-effect locale_le st) (Reach-IsTidy r)

  -- What a client that is not destroyed opens: one stream, for its conversation and its cursor.
  pub open_stream-opens :
      (conversation : ℕ) (m : Machine)
      → m.destroyed ≡ false
      → m.state.conversation ≡ some conversation
      → IsTidy m
      → (c : Connection) × (open_connections (open_stream locale_le m) ≡ c ∷ [])
        × (c.conversation_id ≡ conversation)
        × (c.last_event_id ≡ m.state.last_event_id)
        × ((open_stream locale_le m).saved ≡ m.saved)
  unfolding open_stream open_connections connect
  open_stream-opens conversation m alive held tidy = go m.state.conversation held
    where
      go :
          (o : Option ℕ)
          → o ≡ some conversation
          → (c : Connection) × (select is_open (connect locale_le o m).connections ≡ c ∷ [])
            × (c.conversation_id ≡ conversation)
            × (c.last_event_id ≡ m.state.last_event_id)
            × ((connect locale_le o m).saved ≡ m.saved)
      go none e = ground arith
      go (some found) e =
          let c : Connection = record {
            connection_id = length m.connections;
            aborted = false;
            conversation_id = found;
            last_event_id = m.state.last_event_id;
          } in
          subst
            (λ (k : Machine).
              (d : Connection) × (select is_open k.connections ≡ d ∷ [])
              × (d.conversation_id ≡ conversation)
              × (d.last_event_id ≡ m.state.last_event_id)
              × (k.saved ≡ m.saved))
            (sym (if_fails m.destroyed m _ alive))
            (
              c,
              select-append (abort_at m.stream m.connections) _
                  ∙ (rw (select-abort_at m.stream m.connections tidy) (unfold select in refl)),
              ground arith,
              refl,
              refl,
            )

  open_stream-gone : (m : Machine) → m.destroyed ≡ true → open_stream locale_le m ≡ m
  unfolding open_stream
  open_stream-gone m gone = go m.state.conversation
    where
      go : (conversation : Option ℕ) → connect locale_le conversation m ≡ m
      go none = unfold connect in refl
      go (some c) = unfold connect in if_holds m.destroyed m _ gone

  schedule_reconnect-gone :
      (cause : Option ChatClientError) (m : Machine)
      → m.destroyed ≡ true
      → schedule_reconnect locale_le cause m ≡ m
  unfolding schedule_reconnect
  schedule_reconnect-gone cause m gone = if_holds m.destroyed m _ gone

  abort_stream-Quiet : (m : Machine) → IsQuiet m → Quiet (wire (abort_stream m))
  unfolding abort_stream
  abort_stream-Quiet m (gone, closed, unset) =
      (gone, select-abort_at m.stream m.connections (inl closed), unset)

  opened-IsQuiet : (k n : Machine) → n ≡ open_stream locale_le k → Quiet (wire k) → IsQuiet n
  opened-IsQuiet k n f h = subst IsQuiet (sym (f ∙ open_stream-gone k h.0)) h

  Effect-IsQuiet : (m n : Machine) → Effect locale_le m n → IsQuiet m → IsQuiet n
  Effect-IsQuiet m n (Effect.kept e) h = subst Quiet (sym e) h
  Effect-IsQuiet m n (Effect.opened k e f) h = opened-IsQuiet k n f (subst Quiet (sym e) h)
  Effect-IsQuiet m n (Effect.opened_late k e f) (gone, closed, unset) =
      opened-IsQuiet k n f (subst Quiet (sym e) (gone, closed, refl))
  Effect-IsQuiet m n (Effect.aborted e) h = subst Quiet (sym e) (abort_stream-Quiet m h)
  Effect-IsQuiet m n (Effect.reopened k e f) h =
      opened-IsQuiet k n f (subst Quiet (sym e) (abort_stream-Quiet m h))
  Effect-IsQuiet m n (Effect.scheduled cause f) h =
      subst IsQuiet (sym (f ∙ schedule_reconnect-gone cause m h.0)) h
  Effect-IsQuiet m n (Effect.ended f) (gone, closed, unset) = subst IsQuiet (sym f) (
      unfold destroy abort_stream in
      (refl, select-abort_at m.stream m.connections (inl closed), refl))

  reach-IsQuiet : {m n : Machine} → Reach locale_le m n → IsQuiet m → IsQuiet n
  reach-IsQuiet Reach.here h = h
  reach-IsQuiet (Reach.next r st) h =
      Effect-IsQuiet _ _ (Step-effect locale_le st) (reach-IsQuiet r h)

  -- A client that has been destroyed, after whatever happened to it, opens no stream any more and
  -- sets no timer for a reconnection, whatever answers, events and timers it still gets.
  pub destroy-IsQuiet :
      {m n : Machine} → Reach locale_le created m → Reach locale_le (destroy m) n → IsQuiet n
  destroy-IsQuiet {m} before after = reach-IsQuiet after (
      unfold destroy abort_stream in
      (refl, select-abort_at m.stream m.connections (Reach-IsTidy before), refl))

  -- A renewal that is under way when its client is destroyed sets the timer of the next one, though
  -- the destroyed client had none left.
  pub session_bootstrapped-destroy :
      (m : Machine) (renewal_lead session expires_at now : ℕ) (browser_identity : Option ℕ)
      → ((destroy m).renewal_timer ≡ none)
        × ((session_bootstrapped locale_le renewal_lead session browser_identity expires_at now
              (destroy m)).renewal_timer
            ≡ some (expires_at - now - renewal_lead))
  unfolding destroy session_bootstrapped schedule_renewal
  session_bootstrapped-destroy m renewal_lead session expires_at now browser_identity = (refl, refl)
