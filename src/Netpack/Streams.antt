-- ===== src/Netpack/Streams.antt =====
-- The connections of a gate: socket messages of several connections, in any order, through
-- `filter_data`, by a client that takes each packet it is given and empties the queue when it is told
-- that there are more.
use skynet_gameserver.Prelude.{
  ℕ, zero, suc, ◌<◌, ◌≡◌, ◌≢◌, refl, ap, sym, ◌∙◌, inl, inr, Bool-cases, Option, none, some, List,
  [], ◌∷◌, ◌++◌, ◌==◌, if◌then◌else◌, length, arith, ℕ_discrete,
}
use skynet_gameserver.Prelude.Split.{append_assoc}
use skynet_gameserver.Netpack.{
  Netpack, Queue, nothing, packet, more, Filtered, get_queue, filter_data, pop_packet,
}
use skynet_gameserver.Netpack.Table.{waiting}
use skynet_gameserver.Netpack.Queues.{IsRing, queued, pop_packet-Popped}
use skynet_gameserver.Netpack.Packing.{wire, wire-append, Short, IsBytes, partial}
use skynet_gameserver.Netpack.Cuts.{IsValid, queued_for}

abbrev pub Packets : Type 0
Packets = List (Option Netpack)

-- `lpop` until it gives nothing.
unfoldable pub drain : ℕ → Option Queue → Packets × Option Queue
drain zero slot = ([], slot)
drain (suc fuel) slot =
    let (first, slot') = pop_packet slot in
    let (ps, slot'') = drain fuel slot' in
    elim first [ none ↦ ([], slot') | some p ↦ (p ∷ ps, slot'') ]

abbrev pub Received : Type 0
Received = Option (Packets × Option Queue)

abbrev pub and_then : Packets → Received → Received
and_then ps none = none
and_then ps (some (qs, slot)) = some (ps ++ qs, slot)

unfoldable pub take_reply : (Option Queue → Received) → Filtered → Received
take_reply next none = none
take_reply next (some (nothing, slot)) = next slot
take_reply next (some (packet fd p, slot)) =
    and_then (some (record { id = fd; bytes = p }) ∷ []) (next slot)
take_reply next (some (more, slot)) =
    let (ps, slot') = drain (length (queued (get_queue slot))) slot in and_then ps (next slot')

unfoldable pub receive : Option Queue → List (ℕ × List ℕ) → Received
receive slot [] = some ([], slot)
receive slot ((fd, bytes) ∷ ms) = take_reply (λ slot. receive slot ms) (filter_data slot fd bytes)

-- The bytes that came of a connection, and the packets that were delivered of it.
unfoldable pub sent : ℕ → List (ℕ × List ℕ) → List ℕ
sent fd [] = []
sent fd ((d, bytes) ∷ ms) = let rest = sent fd ms in if d == fd then bytes ++ rest else rest

unfoldable pub delivered : ℕ → Packets → List (List ℕ)
delivered fd [] = []
delivered fd (none ∷ ps) = delivered fd ps
delivered fd (some p ∷ ps) =
    let rest = delivered fd ps in if p.id == fd then p.bytes ∷ rest else rest

pub delivered-append :
    (fd : ℕ) (ps qs : Packets) → delivered fd (ps ++ qs) ≡ delivered fd ps ++ delivered fd qs
unfolding delivered
delivered-append fd [] qs = refl
delivered-append fd (none ∷ ps) qs = delivered-append fd ps qs
delivered-append fd (some p ∷ ps) qs = ground (arith, delivered-append fd ps qs)

pub delivered-queued_for :
    (fd x : ℕ) (ps : List (List ℕ)) → delivered x (queued_for fd ps) ≡ (if fd == x then ps else [])
unfolding delivered
delivered-queued_for fd x [] = ground arith
delivered-queued_for fd x (p ∷ ps) = ground (arith, delivered-queued_for fd x ps)

abbrev pub Real : List (ℕ × List ℕ) → Type 0
Real [] = Unit {0}
Real ((fd, bytes) ∷ ms) = (0 < length bytes) × IsBytes bytes × Real ms

-- `drain` gives all packets of the queue, and leaves what waits.
pub record Drained (q : Queue) (ps : Packets) (r : Packets × Option Queue) : Type 0 where
  pub all : r.0 ≡ ps
  pub emptied : queued (get_queue r.1) ≡ []
  pub ring : IsRing (get_queue r.1)
  pub same_hash : (get_queue r.1).hash ≡ q.hash

pop_packet-same :
    (slot : Option Queue)
    → IsRing (get_queue slot)
    → IsRing (get_queue (pop_packet slot).1)
      × ((get_queue (pop_packet slot).1).hash ≡ (get_queue slot).hash)
unfolding pop_packet get_queue
pop_packet-same none v = (v, refl)
pop_packet-same (some q) v = (
  record {
    storage = ground (arith, v.storage);
    head_in = ground (arith, v.head_in);
    tail_in = ground (arith, v.tail_in);
  },
  ground arith,
)

pub drain-Drained :
    (ps : Packets) (slot : Option Queue)
    → IsRing (get_queue slot)
    → queued (get_queue slot) ≡ ps
    → Drained (get_queue slot) ps (drain (length ps) slot)
unfolding drain
drain-Drained [] slot v e = record { all = refl; emptied = e; ring = v; same_hash = refl }
drain-Drained (p ∷ ps) slot v e =
    let popped = rw e at (pop_packet-Popped slot v) in
    let (v', h) = pop_packet-same slot v in
    let d = drain-Drained ps (pop_packet slot).1 v' popped.1 in
    rw (popped.0, drain)
      (record {
        all = ap (λ xs. p ∷ xs) d.all;
        emptied = d.emptied;
        ring = d.ring;
        same_hash = d.same_hash ∙ h;
      })

-- One socket message, taken by the client: of its connection the packets `ds` came, of others none.
pub record Stepped (q : Queue) (fd : ℕ) (bytes : List ℕ) (ds : Packets) (q' : Queue) : Type 0 where
  pub valid : IsValid q'
  pub emptied : queued q' ≡ []
  pub own : partial (waiting q fd) ++ bytes ≡ wire (delivered fd ds) ++ partial (waiting q' fd)
  pub short : Short (delivered fd ds)
  pub only : (x : ℕ) → fd ≢ x → delivered x ds ≡ []
  pub others : (x : ℕ) → fd ≢ x → waiting q' x ≡ waiting q x

-- All the socket messages: for each connection the bytes that came are the packets that were
-- delivered, in order, each with its size before it, and what waits for its rest.
pub record Receives (q : Queue) (ms : List (ℕ × List ℕ)) (ds : Packets) (q' : Queue) : Type 0 where
  pub valid : IsValid q'
  pub emptied : queued q' ≡ []
  pub cut :
      (fd : ℕ)
      → partial (waiting q fd) ++ sent fd ms ≡ wire (delivered fd ds) ++ partial (waiting q' fd)
  pub short : (fd : ℕ) → Short (delivered fd ds)

Short-append : (ps qs : List (List ℕ)) → Short ps → Short qs → Short (ps ++ qs)
Short-append [] qs h h' = h'
Short-append (p ∷ ps) qs h h' = (h.0, Short-append ps qs h.1 h')

join :
    (p₀ b s p₁ p₂ : List ℕ) (w₁ w₂ : List (List ℕ))
    → p₀ ++ b ≡ wire w₁ ++ p₁
    → p₁ ++ s ≡ wire w₂ ++ p₂
    → p₀ ++ (b ++ s) ≡ wire (w₁ ++ w₂) ++ p₂
join p₀ b s p₁ p₂ w₁ w₂ e e' =
    sym (append_assoc p₀ b s)
    ∙ ap (λ xs. xs ++ s) e
    ∙ append_assoc (wire w₁) p₁ s
    ∙ ap (λ xs. wire w₁ ++ xs) e'
    ∙ sym (append_assoc (wire w₁) (wire w₂) p₂)
    ∙ ap (λ xs. xs ++ p₂) (sym (wire-append w₁ w₂))

pub Receives-step :
    (q q₁ q₂ : Queue) (fd : ℕ) (bytes : List ℕ) (ms : List (ℕ × List ℕ)) (ds₁ ds₂ : Packets)
    → Stepped q fd bytes ds₁ q₁
    → Receives q₁ ms ds₂ q₂
    → Receives q ((fd, bytes) ∷ ms) (ds₁ ++ ds₂) q₂
unfolding sent
Receives-step q q₁ q₂ fd bytes ms ds₁ ds₂ s r = record {
  valid = r.valid;
  emptied = r.emptied;
  cut = λ x. elim (Bool-cases (fd == x)) [
    | inl b ↦
        let e : fd ≡ x = ground arith in
        let own = rw e at s.own in
        rw (b, delivered-append x ds₁ ds₂)
          (join _ _ _ _ _ (delivered x ds₁) (delivered x ds₂) own (r.cut x))
    | inr b ↦
        let ne : fd ≢ x = ground arith in
        rw (b, delivered-append x ds₁ ds₂, s.only x ne, sym (s.others x ne)) (r.cut x)
  ];
  short = λ x.
      rw (delivered-append x ds₁ ds₂)
        (Short-append (delivered x ds₁) (delivered x ds₂) (step-short x) (r.short x));
}
  where
    step-short : (x : ℕ) → Short (delivered x ds₁)
    step-short x = elim (ℕ_discrete fd x) [
      | yes e ↦ rw (sym e) s.short
      | no ne ↦ rw (s.only x ne) tt
    ]
