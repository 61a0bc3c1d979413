-- ===== src/RateLimit/Budget.antt =====
-- apps/server/src/security/rate-limit.ts: how many requests of one key a window admits.
use formation_chat_core.Prelude.{
  ℕ, ◌+◌, ◌-◌, ◌≤◌, ◌<◌, ◌≡◌, some, List, [], ◌∷◌, arith, min, if◌then◌else◌, length, lookup,
  insert, All, lookup-insert, ==_refl,
}
use formation_chat_core.RateLimit.{
  Options, WindowState, Windows, current, open_window, spend, consume,
}

-- The requests of one key at the given times, one after the other: how many are allowed.
unfoldable pub admitted : Options → Windows → ℕ → List ℕ → ℕ
admitted o ws key [] = 0
admitted o ws key (t ∷ ts) =
    (if (consume o ws key t).1.allowed then 1 else 0) + admitted o (consume o ws key t).0 key ts

consume-live :
    (o : Options) (ws : Windows) (key now : ℕ) (st : WindowState)
    → lookup key ws ≡ some st
    → now < st.started_at + o.window_ms
    → consume o ws key now ≡ (insert key (spend o st now).0 ws, (spend o st now).1)
unfolding consume open_window current
consume-live o ws key now st h live = ground (arith, h)

-- While a key's window is live, its requests are admitted until its count reaches `max`, and then
-- no more, whenever they come in the window.
pub admitted-window :
    (o : Options) (ws : Windows) (key : ℕ) (st : WindowState) (times : List ℕ)
    → lookup key ws ≡ some st
    → All (λ t. t < st.started_at + o.window_ms) times
    → st.count ≤ o.max
    → admitted o ws key times ≡ min (length times) (o.max - st.count)
unfolding admitted spend
admitted-window o ws key st [] h live le = omega arith
admitted-window o ws key st (t ∷ ts) h (now, later) le =
    let next = (spend o st t).0 in
    let ih =
      admitted-window o (insert key next ws) key next ts (rw lookup-insert (rw ==_refl)) later
        (ground arith) in
    rw (consume-live o ws key t st h now) (ground (arith, ih))
