-- ===== src/Netpack/Queues.antt =====
-- The queue of packets: `push_data` appends, also where the ring has to grow, and `lpop` takes the
-- first.
use skynet_gameserver.Prelude.{
  ℕ, ◌+◌, ◌-◌, ◌%◌, ◌<◌, ◌≡◌, ◌≢◌, refl, ap, sym, ◌∙◌, inl, inr, Bool-cases, true, false, Option,
  none, some, List, [], ◌∷◌, ◌++◌, ◌==◌, leb, if◌then◌else◌, length, get_or, set, replicate, arith,
  ℕ_discrete, length-append, length-replicate, length-set,
}
use skynet_gameserver.Prelude.Arrays.{cells, length-cells, get_or-cells, cells_ext, get_or-append}
use skynet_gameserver.Prelude.Rings.{
  ring_next, held, held-write, cells-write_full, held-read, held-empty,
}
use native.Mathlib.Nat.{mod-eq_of_lt}
use skynet_gameserver.Netpack.{
  Netpack, Queue, get_queue, push_data, expand_queue, pop_packet, queue_size, clear, Uncomplete,
  save_uncomplete, find_uncomplete,
}
use skynet_gameserver.Netpack.Table.{IsTable, find_uncomplete-Found}

pub record IsRing (q : Queue) : Type 0 where
  pub storage : length q.queue ≡ q.cap
  pub head_in : q.head < q.cap
  pub tail_in : q.tail < q.cap

pub queued : Queue → List (Option Netpack)
queued q = held none q.queue q.cap q.head q.tail

pub get_queue-IsRing : IsRing (get_queue none)
unfolding get_queue
get_queue-IsRing = record {
  storage = length-replicate {A = Option Netpack} queue_size none;
  head_in = omega arith;
  tail_in = omega arith;
}

moved-expand :
    (buf : List (Option Netpack)) (cap head : ℕ)
    → let moved = cells none buf cap head 0 cap in
      cells none (moved ++ replicate queue_size none) (cap + queue_size) 0 0 cap ≡ moved
moved-expand buf cap head =
    let moved = cells none buf cap head 0 cap in
    cells_ext none (moved ++ replicate queue_size none) buf (cap + queue_size) cap 0 head 0 0 cap
      λ j p.
        ap (λ k. get_or (moved ++ replicate queue_size none) k none)
          (mod-eq_of_lt {n = 0 + (0 + j)} (omega arith))
        ∙ get_or-append moved (replicate queue_size none) (0 + (0 + j)) none
            (omega (arith, length-cells none buf cap head 0 cap))
        ∙ get_or-cells none buf cap head 0 cap (0 + (0 + j)) (omega arith)
        ∙ ap (λ k. get_or buf ((head + k) % cap) none) (omega arith)

queued-expand_queue :
    (q : Queue) → 0 < q.cap → queued (expand_queue q) ≡ cells none q.queue q.cap q.head 0 q.cap
unfolding queued expand_queue
queued-expand_queue q h =
    let moved = cells none q.queue q.cap q.head 0 q.cap in
    ap (λ n. cells none (moved ++ replicate queue_size none) (q.cap + queue_size) 0 0 n)
      (ground arith)
    ∙ moved-expand q.queue q.cap q.head

expand_queue-IsRing : (q : Queue) → IsRing q → IsRing (expand_queue q)
unfolding expand_queue
expand_queue-IsRing q v = record {
  storage = omega (
    arith,
    length-append (cells none q.queue q.cap q.head 0 q.cap) (replicate queue_size none),
    length-cells none q.queue q.cap q.head 0 q.cap,
    length-replicate {A = Option Netpack} queue_size none,
  );
  head_in = omega (arith, v.head_in);
  tail_in = omega arith;
}

-- The write of `push_data` at the tail.
abbrev written : Queue → ℕ → List ℕ → Queue
written q fd bytes = record q {
  tail = (if leb q.cap (q.tail + 1) then q.tail + 1 - q.cap else q.tail + 1);
  queue = set q.queue q.tail (some (record { id = fd; bytes = bytes }));
}

written_tail :
    (q : Queue) (fd : ℕ) (bytes : List ℕ)
    → IsRing q
    → (written q fd bytes).tail ≡ ring_next q.tail q.cap
written_tail q fd bytes v = ground (arith, v.tail_in)

written-IsRing : (q : Queue) (fd : ℕ) (bytes : List ℕ) → IsRing q → IsRing (written q fd bytes)
written-IsRing q fd bytes v = record {
  storage = length-set q.queue q.tail _ ∙ v.storage;
  head_in = v.head_in;
  tail_in = ground (arith, v.tail_in);
}

-- What `push_data` does to the queue and to the table.
pub record Pushed (q : Queue) (fd : ℕ) (bytes : List ℕ) (q' : Queue) : Type 0 where
  pub ring : IsRing q'
  pub appended : queued q' ≡ queued q ++ some (record { id = fd; bytes = bytes }) ∷ []
  pub same_hash : q'.hash ≡ q.hash

pub push_data-Pushed :
    (slot : Option Queue) (fd : ℕ) (bytes : List ℕ)
    → IsRing (get_queue slot)
    → Pushed (get_queue slot) fd bytes (push_data slot fd bytes)
unfolding push_data
push_data-Pushed slot fd bytes v =
    let q = get_queue slot in
    let q' = written q fd bytes in
    let x : Option Netpack = some (record { id = fd; bytes = bytes }) in
    let t = written_tail q fd bytes v in
    elim (Bool-cases (q.head == q'.tail)) [
      | inl e ↦
          let full : q.head ≡ ring_next q.tail q.cap = ground (arith, t) in
          rw e (record {
            ring = expand_queue-IsRing q' (written-IsRing q fd bytes v);
            appended =
                queued-expand_queue q' (omega (arith, v.head_in))
                ∙ (unfold queued in
                    cells-write_full none q.queue q.cap q.head q.tail x v.storage v.head_in
                      v.tail_in full);
            same_hash = unfold expand_queue in refl;
          })
      | inr e ↦
          let room : q.head ≢ ring_next q.tail q.cap = ground (arith, t) in
          rw e (record {
            ring = written-IsRing q fd bytes v;
            appended =
                unfold queued in
                (ap (λ k. held none (set q.queue q.tail x) q.cap q.head k) t
                  ∙ held-write none q.queue q.cap q.head q.tail x v.storage v.head_in v.tail_in
                      room);
            same_hash = refl;
          })
    ]

-- `lpop`: the first packet leaves the queue, and an empty queue stays as it is.
abbrev pub Popped : List (Option Netpack) → Option (Option Netpack) × Option Queue → Type 0
Popped [] (p, slot) = (p ≡ none) × (queued (get_queue slot) ≡ [])
Popped (x ∷ xs) (p, slot) = (p ≡ some x) × (queued (get_queue slot) ≡ xs)

pub pop_packet-Popped :
    (slot : Option Queue)
    → IsRing (get_queue slot)
    → Popped (queued (get_queue slot)) (pop_packet slot)
unfolding pop_packet queued get_queue cells
pop_packet-Popped none v =
    rw (held-empty {A = Option Netpack} none (replicate queue_size none) queue_size 0 0 refl)
      (refl, refl)
pop_packet-Popped (some q) v = elim (ℕ_discrete q.head q.tail) [
  | yes e ↦
      let b : (q.head == q.tail) ≡ true = ground arith in
      let z = held-empty none q.queue q.cap q.head q.tail e in rw (z, b) (refl, z)
  | no ne ↦
      let b : (q.head == q.tail) ≡ false = ground arith in
      rw (held-read none q.queue q.cap q.head q.tail v.head_in v.tail_in ne, b) (refl, refl)
]

-- A packet that is not complete leaves the queue alone.
pub queued-save_uncomplete :
    (slot : Option Queue) (uc : Uncomplete)
    → (queued (save_uncomplete slot uc) ≡ queued (get_queue slot))
      × (IsRing (get_queue slot) → IsRing (save_uncomplete slot uc))
unfolding queued save_uncomplete
queued-save_uncomplete slot uc =
    (refl, λ v. record { storage = v.storage; head_in = v.head_in; tail_in = v.tail_in })

-- `find_uncomplete` leaves it alone, too.
pub queued-Found :
    (slot : Option Queue) (fd : ℕ)
    → IsTable (get_queue slot)
    → queued (get_queue (find_uncomplete slot fd).1) ≡ queued (get_queue slot)
unfolding queued
queued-Found slot fd o =
    let f = find_uncomplete-Found slot fd o in
    rw (f.same_cap, f.same_head, f.same_tail, f.same_queue) refl

pub find_uncomplete-IsRing :
    (slot : Option Queue) (fd : ℕ)
    → IsTable (get_queue slot)
    → IsRing (get_queue slot)
    → IsRing (get_queue (find_uncomplete slot fd).1)
find_uncomplete-IsRing slot fd o v =
    let f = find_uncomplete-Found slot fd o in
    record {
      storage = ap length f.same_queue ∙ v.storage ∙ sym f.same_cap;
      head_in = omega (arith, f.same_head, f.same_cap, v.head_in);
      tail_in = omega (arith, f.same_tail, f.same_cap, v.tail_in);
    }

pub queued-get_queue : queued (get_queue none) ≡ []
unfolding queued get_queue cells
queued-get_queue = refl

-- `lclear` frees the packets that are in the queue, each once, and leaves an empty ring.
pub queued-clear :
    (slot : Option Queue)
    → IsRing (get_queue slot)
    → ((clear slot).0 ≡ queued (get_queue slot))
      × (queued (get_queue (clear slot).1) ≡ [])
      × IsRing (get_queue (clear slot).1)
unfolding clear queued get_queue cells
queued-clear none v = (refl, refl, v)
queued-clear (some q) v = (
  ap (λ n. cells none q.queue q.cap q.head 0 n) (ground arith),
  refl,
  record {
    storage = v.storage;
    head_in = omega (arith, v.head_in);
    tail_in = omega (arith, v.head_in);
  },
)
