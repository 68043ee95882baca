-- ===== src/Netpack/Receive.antt =====
-- The packets of all connections are delivered, whatever the order of their socket messages and
-- however the bytes were cut.
use skynet_gameserver.Prelude.{
  ℕ, ◌^◌, ◌<◌, ◌≡◌, ◌≢◌, refl, ap, sym, subst, ◌∙◌, Option, none, some, List, [], ◌∷◌, ◌++◌, length,
  arith,
}
use skynet_gameserver.Prelude.Split.{append_nil}
use skynet_gameserver.Netpack.{Queue, Filtered, get_queue}
use skynet_gameserver.Netpack.Table.{waiting, find_in, IsTable, waiting-hash}
use skynet_gameserver.Netpack.Queues.{IsRing, queued, get_queue-IsRing, queued-get_queue}
use skynet_gameserver.Netpack.Packing.{wire, Short, partial}
use skynet_gameserver.Netpack.Cuts.{IsValid, IsClear, Cut, queued_for}
use skynet_gameserver.Netpack.Filter.{Delivers, keeps, one, many, filter_data-Delivers}
use skynet_gameserver.Netpack.Unique.{wire_unique}
use skynet_gameserver.Netpack.Streams.{
  Packets, Received, and_then, take_reply, receive, drain, drain-Drained, sent, delivered,
  delivered-queued_for, Real, Stepped, Receives, Receives-step,
}

pub data Receiving (q : Queue) (ms : List (ℕ × List ℕ)) : Received → Type 0 where
  receiving :
      (ds : Packets) (slot : Option Queue)
      → Receives q ms ds (get_queue slot)
      → Receiving q ms (some (ds, slot))

step-Receiving :
    (q : Queue) (slot : Option Queue) (fd : ℕ) (bytes : List ℕ) (ms : List (ℕ × List ℕ))
    (ds : Packets) (r : Received)
    → Stepped q fd bytes ds (get_queue slot)
    → Receiving (get_queue slot) ms r
    → Receiving q ((fd, bytes) ∷ ms) (and_then ds r)
step-Receiving q slot fd bytes ms ds _ s (receiving ds' slot' r) =
    receiving (ds ++ ds') slot'
      (Receives-step q (get_queue slot) (get_queue slot') fd bytes ms ds ds' s r)

keeps-Stepped :
    (q q' : Queue) (fd : ℕ) (bytes : List ℕ)
    → queued q ≡ []
    → Cut q fd (partial (waiting q fd) ++ bytes) [] q'
    → Stepped q fd bytes [] q'
unfolding delivered
keeps-Stepped q q' fd bytes z c = record {
  valid = c.valid;
  emptied = c.appended ∙ ap (λ xs. xs ++ []) z;
  own = c.whole;
  short = tt;
  only = λ x ne. refl;
  others = c.others;
}

one-Stepped :
    (q q' : Queue) (fd : ℕ) (bytes p : List ℕ)
    → queued q ≡ []
    → IsClear q' fd
    → partial (waiting q fd) ++ bytes ≡ wire (p ∷ [])
    → length p < 2 ^ 16
    → queued q' ≡ queued q
    → ((x : ℕ) → fd ≢ x → waiting q' x ≡ waiting q x)
    → Stepped q fd bytes (some (record { id = fd; bytes = p }) ∷ []) q'
one-Stepped q q' fd bytes p z c s lt e o =
    let d = λ (x : ℕ). delivered-queued_for fd x (p ∷ []) in
    let own : delivered fd (queued_for fd (p ∷ [])) ≡ p ∷ [] = ground (arith, d fd) in
    record {
      valid = c.valid;
      emptied = e ∙ z;
      own = rw (own, c.nothing_waits) (s ∙ sym (append_nil (wire (p ∷ []))));
      short = rw own (lt, tt);
      only = λ x ne. ground (arith, d x);
      others = o;
    }

many-Stepped :
    (q q₁ q' : Queue) (fd : ℕ) (bytes : List ℕ) (ps : List (List ℕ))
    → Cut q fd (partial (waiting q fd) ++ bytes) ps q₁
    → queued q' ≡ []
    → IsRing q'
    → q'.hash ≡ q₁.hash
    → Stepped q fd bytes (queued_for fd ps) q'
many-Stepped q q₁ q' fd bytes ps c z ring h =
    let d = λ (x : ℕ). delivered-queued_for fd x ps in
    let own : delivered fd (queued_for fd ps) ≡ ps = ground (arith, d fd) in
    let same = λ (x : ℕ). waiting-hash q₁ q' x h in
    record {
      valid = record {
        ring = ring;
        table = rw h c.valid.table;
        parts = λ x. rw (same x) (c.valid.parts x);
      };
      emptied = z;
      own = rw (own, same fd) c.whole;
      short = rw own c.short;
      only = λ x ne. ground (arith, d x);
      others = λ x ne. same x ∙ c.others x ne;
    }

and_then-nil : (r : Received) → and_then [] r ≡ r
and_then-nil none = refl
and_then-nil (some (ds, slot)) = refl

take_reply-Receiving :
    (next : Option Queue → Received) (q : Queue) (fd : ℕ) (bytes : List ℕ) (ms : List (ℕ × List ℕ))
    (r : Filtered)
    → queued q ≡ []
    → ((slot : Option Queue)
        → IsValid (get_queue slot)
        → queued (get_queue slot) ≡ []
        → Receiving (get_queue slot) ms (next slot))
    → Delivers q fd (partial (waiting q fd) ++ bytes) r
    → Receiving q ((fd, bytes) ∷ ms) (take_reply next r)
unfolding take_reply get_queue
take_reply-Receiving next q fd bytes ms _ z ih (keeps q' c) =
    let st = keeps-Stepped q q' fd bytes z c in
    subst (Receiving q ((fd, bytes) ∷ ms)) (and_then-nil (next (some q'))) (
      step-Receiving q (some q') fd bytes ms [] (next (some q')) st
        (ih (some q') st.valid st.emptied))
take_reply-Receiving next q fd bytes ms _ z ih (one p slot c s lt e o) =
    let st = one-Stepped q (get_queue slot) fd bytes p z c s lt e o in
    step-Receiving q slot fd bytes ms _ (next slot) st (ih slot st.valid st.emptied)
take_reply-Receiving next q fd bytes ms _ z ih (many ps q₁ c) =
    let all : queued q₁ ≡ queued_for fd ps = c.appended ∙ ap (λ xs. xs ++ queued_for fd ps) z in
    let dr = drain-Drained (queued q₁) (some q₁) c.valid.ring refl in
    let slot = (drain (length (queued q₁)) (some q₁)).1 in
    let st = many-Stepped q q₁ (get_queue slot) fd bytes ps c dr.emptied dr.ring dr.same_hash in
    subst (λ xs. Receiving q ((fd, bytes) ∷ ms) (and_then xs (next slot))) (sym (dr.all ∙ all))
      (step-Receiving q slot fd bytes ms _ (next slot) st (ih slot st.valid st.emptied))

-- From a valid state with an empty queue the socket messages of any connections, in any order, are
-- received without a fault. For each connection, the bytes that were kept and those that came are the
-- delivered packets, in order, each with its size before it, and what is kept at the end. A socket
-- message has at least one byte.
pub receive-Receiving :
    (ms : List (ℕ × List ℕ)) (slot : Option Queue)
    → IsValid (get_queue slot)
    → queued (get_queue slot) ≡ []
    → Real ms
    → Receiving (get_queue slot) ms (receive slot ms)
unfolding receive sent delivered wire
receive-Receiving [] slot v z h = receiving [] slot (record {
  valid = v;
  emptied = z;
  cut = λ fd. append_nil (partial (waiting (get_queue slot) fd));
  short = λ fd. tt;
})
receive-Receiving ((fd, bytes) ∷ ms) slot v z h =
    take_reply-Receiving (λ slot. receive slot ms) (get_queue slot) fd bytes ms _ z
      (λ slot' v' z'. receive-Receiving ms slot' v' z' h.2)
      (filter_data-Delivers slot fd bytes v h.1 h.0)

fresh-waiting : (fd : ℕ) → waiting (get_queue none) fd ≡ none
unfolding get_queue waiting find_in
fresh-waiting fd = refl

pub fresh-IsValid : IsValid (get_queue none)
fresh-IsValid = record {
  ring = get_queue-IsRing;
  table = λ h. fresh-Once h;
  parts = λ x. rw (fresh-waiting x) tt;
}
  where
    fresh-Once : IsTable (get_queue none)
    fresh-Once h = unfold get_queue in tt

-- The round trip: where the bytes of a connection are whole packets, as `lpack` makes them, just those
-- packets are delivered, in order, whatever the other connections send and however the bytes were
-- cut into socket messages, and nothing is kept of it.
pub receive-wire :
    (ms : List (ℕ × List ℕ)) (fd : ℕ) (ps : List (List ℕ))
    → Real ms
    → Short ps
    → sent fd ms ≡ wire ps
    → (ds : Packets) × (slot : Option Queue) × (receive none ms ≡ some (ds, slot))
      × (delivered fd ds ≡ ps)
      × (waiting (get_queue slot) fd ≡ none)
unfolding get_queue
receive-wire ms fd ps h short e =
    go (receive none ms) (receive-Receiving ms none fresh-IsValid queued-get_queue h)
  where
    go :
        (r : Received)
        → Receiving (get_queue none) ms r
        → (ds : Packets) × (slot : Option Queue) × (r ≡ some (ds, slot))
          × (delivered fd ds ≡ ps)
          × (waiting (get_queue slot) fd ≡ none)
    go _ (receiving ds slot r) =
        let cut : wire ps ≡ wire (delivered fd ds) ++ partial (waiting (get_queue slot) fd) =
          sym e ∙ ap (λ u. partial u ++ sent fd ms) (sym (fresh-waiting fd)) ∙ r.cut fd in
        let (d, w) =
          wire_unique ps (delivered fd ds) (waiting (get_queue slot) fd) short (r.short fd)
            (r.valid.parts fd) cut in
        (ds, slot, refl, d, w)
