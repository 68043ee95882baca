-- ===== src/Netpack/Close.antt =====
-- `close_uncomplete` and `lclear`.
use skynet_gameserver.Prelude.{ℕ, ◌≡◌, ◌≢◌, refl, Option, none, some, [], arith}
use skynet_gameserver.Netpack.{Queue, get_queue, close_uncomplete, clear}
use skynet_gameserver.Netpack.Table.{waiting, find_in, find_uncomplete-Found, IsTable}
use skynet_gameserver.Netpack.Queues.{queued, queued-Found, queued-clear}
use skynet_gameserver.Netpack.Cuts.{IsValid, IsClear, find_uncomplete-IsClear}

-- When a connection is closed what waited of it is dropped; what waits of the others stays, and so do
-- the packets in the queue, also those of this connection.
pub close_uncomplete_lem :
    (slot : Option Queue) (fd : ℕ)
    → IsValid (get_queue slot)
    → let q = get_queue slot in
      let q' = get_queue (close_uncomplete slot fd) in
      IsClear q' fd × ((x : ℕ) → fd ≢ x → waiting q' x ≡ waiting q x) × (queued q' ≡ queued q)
unfolding close_uncomplete
close_uncomplete_lem slot fd v =
    let f = find_uncomplete-Found slot fd v.table in
    (
      find_uncomplete-IsClear slot fd v,
      λ x ne. ground (arith, f.others x),
      queued-Found slot fd v.table,
    )

-- After `lclear` nothing waits and the queue is empty; the buffers that it freed of the queue are
-- those of the packets in it, each once.
pub clear_lem :
    (slot : Option Queue)
    → IsValid (get_queue slot)
    → let (freed, slot') = clear slot in
      (freed ≡ queued (get_queue slot))
      × (queued (get_queue slot') ≡ [])
      × ((fd : ℕ) → IsClear (get_queue slot') fd)
clear_lem slot v =
    let (e, e', ring) = queued-clear slot v.ring in
    (
      e,
      e',
      λ fd. record {
        valid = record {
          ring = ring;
          table = clear-IsTable slot;
          parts = λ x. rw (clear-waiting slot x) tt;
        };
        nothing_waits = clear-waiting slot fd;
      },
    )
  where
    clear-waiting : (slot : Option Queue) (x : ℕ) → waiting (get_queue (clear slot).1) x ≡ none
    clear-waiting none x = unfold clear get_queue waiting find_in in refl
    clear-waiting (some q) x = unfold clear get_queue waiting find_in in refl

    clear-IsTable : (slot : Option Queue) → IsTable (get_queue (clear slot).1)
    clear-IsTable none h = unfold clear get_queue in tt
    clear-IsTable (some q) h = unfold clear get_queue in tt
