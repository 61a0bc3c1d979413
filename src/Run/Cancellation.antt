-- ===== src/Run/Cancellation.antt =====
-- apps/server/src/run/cancellation.ts: the runs that this process works on, by their identifier. A
-- registration, the abort controller with its connector, is the number of its handle.
use formation_chat_core.Prelude.{
  ℕ, ◌≡◌, ◌≢◌, Option, none, some, List, arith, ◌==◌, if◌then◌else◌, holds, lookup, insert, remove,
  lookup-insert, lookup-remove,
}

abbrev pub Active : Type 0
Active = List (ℕ × ℕ)

unfoldable pub register : ℕ → ℕ → Active → Active
register run_id handle active = insert run_id handle active

-- What `register` returns: it deletes the run unless another registration has taken its place.
unfoldable pub unregister : ℕ → ℕ → Active → Active
unregister run_id handle active =
    if holds (λ h. h == handle) (lookup run_id active) then remove run_id active else active

-- The registration that a request aborts and cancels; where there is none it is not supported.
unfoldable pub request : ℕ → Active → Option ℕ
request run_id active = lookup run_id active

-- A request reaches the registration made last for its run, and no registration of another run is
-- touched by making one.
pub request-register :
    (run_id other handle : ℕ) (active : Active)
    → request other (register run_id handle active)
      ≡ (if run_id == other then some handle else request other active)
unfolding request register
request-register run_id other handle active = lookup-insert run_id other handle active

-- Unregistering ends a registration, and leaves a later one of the same run and those of all other
-- runs in place.
pub request-unregister :
    (run_id other handle later : ℕ) (active : Active)
    → handle ≢ later
    → run_id ≢ other
    → (request run_id (unregister run_id handle (register run_id handle active)) ≡ none)
      × (request run_id (unregister run_id handle (register run_id later active)) ≡ some later)
      × (request other (unregister run_id handle active) ≡ request other active)
unfolding request register unregister
request-unregister run_id other handle later active ne apart = (
  ground (
    arith,
    lookup-insert run_id run_id handle active,
    lookup-remove run_id run_id (insert run_id handle active),
  ),
  ground (arith, lookup-insert run_id run_id later active),
  ground (arith, lookup-remove run_id other active),
)
