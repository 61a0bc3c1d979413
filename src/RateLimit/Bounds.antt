-- ===== src/RateLimit/Bounds.antt =====
-- apps/server/src/security/rate-limit.ts: the size of the map and the counts of its windows.
use formation_chat_core.Prelude.{
  ℕ, ◌+◌, ◌≤◌, ◌<◌, ◌≡◌, refl, ◌⊎◌, inl, inr, true, Option, none, some, [], ◌∷◌, arith, ltb, leb,
  length, lookup, remove, insert, All, All-select, length-remove-le, length-remove-lt,
  length-insert_new, length-insert_old, Bool-cases, Option-cases, is_some,
}
use formation_chat_core.RateLimit.{
  Options, WindowState, Windows, oldest_from, make_room, current, open_window, spend, consume,
}

-- A key that the search returns is that of the best so far, or one of the map.
oldest_from-lookup :
    (best : Option (ℕ × ℕ)) (ws : Windows) (key seen : ℕ)
    → oldest_from best ws ≡ some (key, seen)
    → ((t : ℕ) × (best ≡ some (key, t))) ⊎ (is_some (lookup key ws) ≡ true)
unfolding oldest_from lookup
oldest_from-lookup best [] key seen h = inl (seen, h)
oldest_from-lookup none ((k, st) ∷ ws) key seen h =
    ground (arith, oldest_from-lookup (some (k, st.last_seen)) ws key seen)
oldest_from-lookup (some (b, t)) ((k, st) ∷ ws) key seen h =
    elim (Bool-cases (ltb st.last_seen t)) [
      | inl older ↦ elim (oldest_from-lookup (some (k, st.last_seen)) ws key seen (rw older at h)) [
        | inl (u, e) ↦ inr (ground arith)
        | inr e ↦ inr (ground arith)
      ]
      | inr newer ↦ elim (oldest_from-lookup (some (b, t)) ws key seen (rw newer at h)) [
        | inl (u, e) ↦ inl (u, e)
        | inr e ↦ inr (ground arith)
      ]
    ]

oldest_from-is_some : (b : ℕ × ℕ) (ws : Windows) → is_some (oldest_from (some b) ws) ≡ true
unfolding oldest_from
oldest_from-is_some b [] = refl
oldest_from-is_some (b, t) ((k, st) ∷ ws) =
    ground (arith, oldest_from-is_some (k, st.last_seen) ws, oldest_from-is_some (b, t) ws)

-- The least recently seen key of a map that is not empty is a key of it.
oldest-lookup :
    (e : ℕ × WindowState) (ws : Windows)
    → (k : ℕ) × (t : ℕ) × (st : WindowState) × (oldest_from none (e ∷ ws) ≡ some (k, t))
      × (lookup k (e ∷ ws) ≡ some st)
unfolding oldest_from lookup
oldest-lookup (k, st) ws = elim (Option-cases (oldest_from (some (k, st.last_seen)) ws)) [
  | inl missing ↦ ground (arith, oldest_from-is_some (k, st.last_seen) ws)
  | inr ((j, t), found) ↦ elim (Option-cases (lookup j ((k, st) ∷ ws))) [
    | inl absent ↦ elim (oldest_from-lookup (some (k, st.last_seen)) ws j t found) [
      | inl (u, same) ↦ ground arith
      | inr inside ↦ ground arith
    ]
    | inr (w, present) ↦ (j, t, w, found, present)
  ]
]

make_room-lt :
    (o : Options) (ws : Windows)
    → 0 < o.max_keys
    → length ws ≤ o.max_keys
    → length (make_room o ws) < o.max_keys
unfolding make_room
make_room-lt o [] pos h = ground arith
make_room-lt o (e ∷ ws) pos h =
    let (k, t, st, found, present) = oldest-lookup e ws in
    ground (arith, found, length-remove-lt k st (e ∷ ws) present)

abbrev pub CountsWithin : Options → Windows → Type 0
CountsWithin o ws = All (λ e. e.1.count ≤ o.max) ws

-- The limiter's bounds: the number of windows, and the count of each.
pub record IsBounded (o : Options) (ws : Windows) : Type 0 where
  pub size : length ws ≤ o.max_keys
  pub counts : CountsWithin o ws

insert-CountsWithin :
    (o : Options) (k : ℕ) (st : WindowState) (ws : Windows)
    → st.count ≤ o.max
    → CountsWithin o ws
    → CountsWithin o (insert k st ws)
unfolding insert
insert-CountsWithin o k st [] h hs = (h, tt)
insert-CountsWithin o k st ((j, v) ∷ ws) h (g, gs) =
    ground (arith, insert-CountsWithin o k st ws h gs)

lookup-CountsWithin :
    (o : Options) (k : ℕ) (st : WindowState) (ws : Windows)
    → CountsWithin o ws
    → lookup k ws ≡ some st
    → st.count ≤ o.max
unfolding lookup
lookup-CountsWithin o k st [] h e = ground arith
lookup-CountsWithin o k st ((j, v) ∷ ws) (g, gs) e =
    ground (arith, lookup-CountsWithin o k st ws gs)

remove-CountsWithin :
    (o : Options) (k : ℕ) (ws : Windows) → CountsWithin o ws → CountsWithin o (remove k ws)
unfolding remove
remove-CountsWithin o k ws h = All-select (λ e. e.1.count ≤ o.max) _ ws h

make_room-CountsWithin :
    (o : Options) (ws : Windows) → CountsWithin o ws → CountsWithin o (make_room o ws)
unfolding make_room
make_room-CountsWithin o ws h = elim (Option-cases (oldest_from none ws)) [
  | inl e ↦ ground (arith, e)
  | inr ((k, t), e) ↦ ground (arith, e, remove-CountsWithin o k ws h)
]

spend-le :
    (o : Options) (st : WindowState) (now : ℕ) → st.count ≤ o.max → (spend o st now).0.count ≤ o.max
unfolding spend
spend-le o st now h = ground arith

abbrev fresh : ℕ → WindowState
fresh now = record { count = 0; started_at = now; last_seen = now }

-- A request falls in the key's window as it is, or opens a new one in a map that has room.
pub open_window_cases :
    (o : Options) (ws : Windows) (key now : ℕ)
    → ((st : WindowState) × (lookup key ws ≡ some st)
        × (now < st.started_at + o.window_ms)
        × (open_window o ws key now ≡ (ws, st)))
      ⊎ (open_window o ws key now ≡ (make_room o (remove key ws), fresh now))
unfolding open_window current
open_window_cases o ws key now = elim (Option-cases (lookup key ws)) [
  | inl absent ↦ inr (ground (arith, absent))
  | inr (st, present) ↦ elim (Bool-cases (leb (st.started_at + o.window_ms) now)) [
    | inl expired ↦ inr (ground (arith, present))
    | inr live ↦ inl (st, present, ground arith, ground (arith, present))
  ]
]

-- A request keeps the limiter bounded: at most `max_keys` windows, each counted at most `max`.
pub consume-IsBounded :
    (o : Options) (ws : Windows) (key now : ℕ)
    → 0 < o.max_keys
    → IsBounded o ws
    → IsBounded o (consume o ws key now).0
unfolding consume
consume-IsBounded o ws key now pos b = elim (open_window_cases o ws key now) [
  | inl (st, present, live, e) ↦ rw e (record {
    size = omega (arith, length-insert_old key (spend o st now).0 st ws present, b.size);
    counts =
        insert-CountsWithin o key (spend o st now).0 ws
          (spend-le o st now (lookup-CountsWithin o key st ws b.counts present)) b.counts;
  })
  | inr e ↦
      let trimmed : Windows = remove key ws in
      rw e (record {
        size = omega (
          arith,
          length-insert_new key (spend o (fresh now) now).0 (make_room o trimmed),
          make_room-lt o trimmed pos (omega (arith, length-remove-le key ws, b.size)),
        );
        counts =
            insert-CountsWithin o key (spend o (fresh now) now).0 (make_room o trimmed)
              (spend-le o (fresh now) now (omega arith))
              (make_room-CountsWithin o trimmed (remove-CountsWithin o key ws b.counts));
      })
]
