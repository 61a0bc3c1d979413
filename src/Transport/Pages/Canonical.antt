-- ===== src/Transport/Pages/Canonical.antt =====
-- packages/browser-client/src/http-transport.ts, `canonicalMessages`: messages that are canonical.
use mathlib.Core.List.{append_assoc, append-nil}
use formation_chat_core.Prelude.{
  ℕ, ◌<◌, ◌≡◌, ◌≢◌, refl, sym, ◌∙◌, ap, List, [], ◌∷◌, ◌++◌, map, arith, order_by, All, All-map,
  All-append, All-zip, IsAscending, HaveDistinctKeys, insert_row_front, by_key, insert,
}
use formation_chat_core.Database.Rows.{Message}
use formation_chat_core.Message.{MessageView, map_message}
use formation_chat_core.Client.{by_id}
use formation_chat_core.Transport.{canonical_page}

abbrev sequence : MessageView → ℕ
sequence m = m.sequence

abbrev keyed : MessageView → ℕ × MessageView
keyed m = (m.message_id, m)

insert-new :
    (m : MessageView) (es : List (ℕ × MessageView))
    → All (λ (e : ℕ × MessageView). m.message_id ≢ e.0) es
    → insert m.message_id m es ≡ es ++ keyed m ∷ []
unfolding insert
insert-new m [] h = refl
insert-new m ((id, old) ∷ es) (h, hs) = ground (arith, insert-new m es hs)

by_id-distinct :
    (ms : List MessageView) (es : List (ℕ × MessageView))
    → HaveDistinctKeys (λ (m : MessageView). m.message_id) ms
    → All (λ (m : MessageView). All (λ (e : ℕ × MessageView). m.message_id ≢ e.0) es) ms
    → by_id ms es ≡ es ++ map keyed ms
unfolding by_id
by_id-distinct [] es d h = sym (append-nil es)
by_id-distinct (m ∷ ms) es (d, ds) (h, hs) = rw (insert-new m es h) (
    by_id-distinct ms (es ++ keyed m ∷ []) ds (
      All-map
        (λ y (old, new).
          All-append (λ (e : ℕ × MessageView). y.message_id ≢ e.0) es _ old (new, tt))
        ms (All-zip _ _ ms hs d))
    ∙ append_assoc es (keyed m ∷ []) (map keyed ms))

map_keyed : (ms : List MessageView) → map (λ (e : ℕ × MessageView). e.1) (map keyed ms) ≡ ms
map_keyed [] = refl
map_keyed (m ∷ ms) = ap (◌∷◌ m) (map_keyed ms)

All-nil : (ms : List MessageView) → All (λ (m : MessageView). Unit {0}) ms
All-nil [] = tt
All-nil (m ∷ ms) = (tt, All-nil ms)

order_by-sorted :
    (ms : List MessageView) → IsAscending sequence ms → order_by (by_key sequence) ms ≡ ms
unfolding order_by
order_by-sorted [] h = refl
order_by-sorted (m ∷ ms) (h, hs) = rw (order_by-sorted ms hs) (insert_row_front sequence m ms h)

-- Messages in order and with different identifiers are canonical as they are.
pub canonical_page-sorted :
    (ms : List MessageView)
    → IsAscending sequence ms
    → HaveDistinctKeys (λ (m : MessageView). m.message_id) ms
    → canonical_page ms ≡ ms
unfolding canonical_page
canonical_page-sorted ms h d =
    rw (by_id-distinct ms [] d (All-nil ms)) (rw (map_keyed ms) (order_by-sorted ms h))

pub map-IsAscending :
    (ms : List Message)
    → IsAscending (λ (m : Message). m.sequence) ms
    → IsAscending sequence (map map_message ms)
unfolding map_message
map-IsAscending [] h = tt
map-IsAscending (m ∷ ms) (h, hs) = (All-mapped ms h, map-IsAscending ms hs)
  where
    All-mapped :
        (ys : List Message)
        → All (λ (y : Message). m.sequence < y.sequence) ys
        → All (λ (y : MessageView). m.sequence < y.sequence) (map map_message ys)
    All-mapped [] h = tt
    All-mapped (y ∷ ys) (h, hs) = (h, All-mapped ys hs)

pub map-HaveDistinctKeys :
    (ms : List Message)
    → HaveDistinctKeys (λ (m : Message). m.message_id) ms
    → HaveDistinctKeys (λ (m : MessageView). m.message_id) (map map_message ms)
unfolding map_message
map-HaveDistinctKeys [] h = tt
map-HaveDistinctKeys (m ∷ ms) (h, hs) = (All-mapped ms h, map-HaveDistinctKeys ms hs)
  where
    All-mapped :
        (ys : List Message)
        → All (λ (y : Message). y.message_id ≢ m.message_id) ys
        → All (λ (y : MessageView). y.message_id ≢ m.message_id) (map map_message ys)
    All-mapped [] h = tt
    All-mapped (y ∷ ys) (h, hs) = (h, All-mapped ys hs)
