-- ===== src/RateLimit.antt =====
-- apps/server/src/security/rate-limit.ts: the limiter of requests by fixed windows.
-- Keys are opaque and stand as numbers; times and the options are whole milliseconds and counts.
pub mod Bounds
pub mod Budget
use formation_chat_core.Prelude.{
  ℕ, ◌+◌, ◌-◌, ◌/◌, ◌≡◌, Bool, true, false, Option, none, some, List, [], ◌∷◌, max, ltb, leb,
  if◌then◌else◌, length, lookup, remove, insert,
}

pub record Options : Type 0 where
  pub window_ms : ℕ
  pub max : ℕ
  pub max_keys : ℕ

pub record WindowState : Type 0 where
  pub count : ℕ
  pub started_at : ℕ
  pub last_seen : ℕ

pub record RateLimitResult : Type 0 where
  pub allowed : Bool
  pub limit : ℕ
  pub remaining : ℕ
  pub reset_seconds : ℕ

abbrev pub Windows : Type 0
Windows = List (ℕ × WindowState)

-- The loop of `#makeRoom`: the key seen least recently so far, and when. Absent stands for
-- `undefined` with the time `Infinity`.
unfoldable pub oldest_from : Option (ℕ × ℕ) → Windows → Option (ℕ × ℕ)
oldest_from best [] = best
oldest_from none ((key, state) ∷ rest) = oldest_from (some (key, state.last_seen)) rest
oldest_from (some (oldest_key, oldest_seen)) ((key, state) ∷ rest) =
    oldest_from
      (if ltb state.last_seen oldest_seen
        then some (key, state.last_seen)
        else some (oldest_key, oldest_seen))
      rest

unfoldable pub make_room : Options → Windows → Windows
make_room options windows =
    if ltb (length windows) options.max_keys then windows else elim (oldest_from none windows) [
      | none ↦ windows
      | some (oldest_key, _) ↦ remove oldest_key windows
    ]

-- The window that the request falls in, absent where it is the first of a new one.
unfoldable pub current : Options → Windows → ℕ → ℕ → Option WindowState
current options windows key now = elim (lookup key windows) [
  | none ↦ none
  | some state ↦ if leb (state.started_at + options.window_ms) now then none else some state
]

-- The map and the window when the count is read: an expired window is deleted, and a new one takes
-- room and starts at 0.
unfoldable pub open_window : Options → Windows → ℕ → ℕ → Windows × WindowState
open_window options windows key now = elim (current options windows key now) [
  | some state ↦ (windows, state)
  | none ↦ (
    make_room options (remove key windows),
    record { count = 0; started_at = now; last_seen = now },
  )
]

-- The count of one request, and the result that it gets.
unfoldable pub spend : Options → WindowState → ℕ → WindowState × RateLimitResult
spend options state now =
    let allowed = ltb state.count options.max in
    let count = if allowed then state.count + 1 else state.count in
    (
      record { count = count; started_at = state.started_at; last_seen = now },
      record {
        allowed = allowed;
        limit = options.max;
        remaining = options.max - count;
        reset_seconds = max 1 ((state.started_at + options.window_ms - now + 999) / 1000);
      },
    )

unfoldable pub consume : Options → Windows → ℕ → ℕ → Windows × RateLimitResult
consume options windows key now =
    let opened = open_window options windows key now in
    let spent = spend options opened.1 now in (insert key spent.0 opened.0, spent.1)
