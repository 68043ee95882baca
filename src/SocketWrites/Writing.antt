-- ===== src/SocketWrites/Writing.antt =====
-- The high list in `send_buffer_`, and the end of writing.
use skynet_gameserver.Prelude.{
  ℕ, ◌+◌, ◌≡◌, refl, sym, ap, ap₂, ◌∙◌, true, false, not, ◌&&◌, Option, none, some, List, [], ◌∷◌,
  ◌++◌, ltb, ◌==◌, arith, ◌≤◌, length, length-append,
}
use skynet_gameserver.Prelude.Split.{append_assoc}
use skynet_gameserver.SocketWrites.State.{
  low_priority, Message, WriteBuffer, is_invalid, Socket, is_empty,
}
use skynet_gameserver.SocketWrites.Sending.{
  Sent, list_uncomplete, Done, finish_writing, high_sent, raise_direct,
}
use skynet_gameserver.SocketWrites.Lists.{
  both_branches, messages, all_bytes, AllWhole, HeadOnly, started, total_left, Sends,
}
use skynet_gameserver.SocketWrites.Order.{of_priority-append, of_priority, requested, Orderly}
use skynet_gameserver.SocketWrites.Closing.{Orderly-flags, force_close-Orderly}

abbrev pub Kept : List Message → Done → Type 0
Kept acc none = ⊥
Kept acc (some (r, s)) = Orderly s acc

pub messages-append : (a b : List WriteBuffer) → messages (a ++ b) ≡ messages a ++ messages b
messages-append [] b = refl
messages-append (wb ∷ a) b = ap (λ ms. wb.message ∷ ms) (messages-append a b)

pub all_bytes-append : (a b : List Message) → all_bytes (a ++ b) ≡ all_bytes a ++ all_bytes b
all_bytes-append [] b = refl
all_bytes-append (m ∷ a) b =
    ap (λ bs. m.bytes ++ bs) (all_bytes-append a b)
    ∙ sym (append_assoc m.bytes (all_bytes a) (all_bytes b))

pub raise_direct-Orderly :
    (s : Socket) (acc : List Message) (d : Option WriteBuffer)
    → s.dw_buffer ≡ d
    → Orderly s acc
    → Orderly (raise_direct s d) acc
raise_direct-Orderly s acc none e o = record {
  done = o.done;
  lost = o.lost;
  front = rw e at o.front;
  low_whole = o.low_whole;
  low_only = o.low_only;
  direct_high = refl;
  one_low = rw e at o.one_low;
  bytes = λ b. rw e at (o.bytes b);
  order = λ p. rw e at (o.order p);
  lost_shut = o.lost_shut;
  sized = o.sized;
}
raise_direct-Orderly s acc (some wb) e o = record {
  done = o.done;
  lost = o.lost;
  front = rw e at o.front;
  low_whole = o.low_whole;
  low_only = o.low_only;
  direct_high = refl;
  one_low = rw e at o.one_low;
  bytes = λ b. rw e at (o.bytes b);
  order = λ p. rw e at (o.order p);
  lost_shut = o.lost_shut;
  sized = λ b. omega (arith, o.sized b);
}

-- The bytes that were written, and those of the messages that are gone.
pub write_bytes :
    (wrote : List ℕ) (done : List Message) (wbs : List WriteBuffer) (r : Sent) (w : Sends wbs r)
    → wrote ≡ all_bytes done ++ started wbs
    → wrote ++ r.bytes ≡ all_bytes (done ++ w.gone) ++ started r.left
write_bytes wrote done wbs r w e =
    ap (λ bs. bs ++ r.bytes) e
    ∙ append_assoc (all_bytes done) (started wbs) r.bytes
    ∙ ap (λ bs. all_bytes done ++ bs) w.written
    ∙ sym (append_assoc (all_bytes done) (all_bytes w.gone) (started r.left))
    ∙ ap (λ bs. bs ++ started r.left) (sym (all_bytes-append done w.gone))

-- Messages that are gone join those that are done.
gone_done :
    (done gone kept l : List Message) (ms : List Message)
    → ms ≡ gone ++ kept
    → done ++ (ms ++ l) ≡ (done ++ gone) ++ (kept ++ l)
gone_done done gone kept l ms e =
    ap (λ zs. done ++ (zs ++ l)) e
    ∙ ap (λ zs. done ++ zs) (append_assoc gone kept l)
    ∙ sym (append_assoc done gone (kept ++ l))

module _ (s : Socket) (acc : List Message) (direct_none : s.dw_buffer ≡ none)
    (o : Orderly s acc) where
  pub high_sent-Orderly : (r : Sent) → Sends s.high r → Orderly (high_sent s r) acc
  high_sent-Orderly r w = record {
    done = o.done ++ w.gone;
    lost = o.lost;
    front = rw direct_none w.head_only;
    low_whole = o.low_whole;
    low_only = o.low_only;
    direct_high = o.direct_high;
    one_low =
        (let before : length (of_priority low_priority (messages s.high)) ≤ 1 =
            rw direct_none at o.one_low in
          let split : of_priority low_priority (messages s.high)
              ≡ of_priority low_priority w.gone ++ of_priority low_priority (messages r.left) =
            ap (of_priority low_priority) w.kept
            ∙ of_priority-append low_priority w.gone (messages r.left) in
          let size : length (of_priority low_priority (messages s.high))
              ≡ length (of_priority low_priority w.gone)
                + length (of_priority low_priority (messages r.left)) =
            ap length split
            ∙ length-append (of_priority low_priority w.gone)
                (of_priority low_priority (messages r.left)) in
          rw direct_none (omega (arith, before, size)));
    bytes = λ b.
        (let before : s.wrote ≡ all_bytes o.done ++ started s.high =
            rw direct_none at (o.bytes b) in
          rw direct_none (write_bytes s.wrote o.done s.high r w before));
    order = λ p.
        (let before : of_priority p acc
              ≡ of_priority p (o.done ++ messages (s.high ++ s.low))
                ++ of_priority p (o.lost ++ requested s.pipe) =
            rw direct_none at (o.order p) in
          let moved : o.done ++ messages (s.high ++ s.low)
              ≡ (o.done ++ w.gone) ++ messages (r.left ++ s.low) =
            ap (λ ms. o.done ++ ms) (messages-append s.high s.low)
            ∙ gone_done o.done w.gone (messages r.left) (messages s.low) (messages s.high) w.kept
            ∙ ap (λ ms. (o.done ++ w.gone) ++ ms) (sym (messages-append r.left s.low)) in
          rw direct_none (
            before
            ∙ ap (λ ms. of_priority p ms ++ of_priority p (o.lost ++ requested s.pipe)) moved));
    lost_shut = o.lost_shut;
    sized = λ b. omega (arith, o.sized b, w.sized);
  }

-- Both lists are empty.
pub all_empty :
    (s : Socket) (acc : List Message)
    → is_invalid s.type ≡ false
    → s.high ≡ []
    → s.low ≡ []
    → Orderly s acc
    → (is_empty s.high && is_empty s.low && s.wb_size == 0) ≡ true
all_empty s acc valid h l o =
    let size : s.wb_size ≡ 0 =
      o.sized valid ∙ ap₂ (λ (a b : List WriteBuffer). total_left a + total_left b) h l in
    let no_high : is_empty s.high ≡ true = ap is_empty h in
    let no_low : is_empty s.low ≡ true = ap is_empty l in ground (arith, no_high, no_low, size)

pub finish-Kept :
    (s : Socket) (acc : List Message)
    → is_invalid s.type ≡ false
    → s.high ≡ []
    → s.low ≡ []
    → Orderly s acc
    → Kept acc (finish_writing s)
unfolding finish_writing
finish-Kept s acc valid h l o =
    let empty = all_empty s acc valid h l o in
    both_branches (Kept acc) (not (is_empty s.high && is_empty s.low && s.wb_size == 0))
      (λ e. absurd (cc))
      (λ e.
        both_branches (Kept acc) s.closing (λ c. force_close-Orderly s acc o)
          (λ c.
            both_branches (Kept acc) (ltb 0 s.warn_size) (λ w. Orderly-flags s acc false 0 o)
              (λ w. Orderly-flags s acc false s.warn_size o)))

pub uncomplete_whole :
    (wbs : List WriteBuffer) → list_uncomplete wbs ≡ false → HeadOnly wbs → AllWhole wbs
uncomplete_whole [] e h = tt
uncomplete_whole (wb ∷ wbs) e (fits, w) = (ground (arith, e), w)

pub whole_complete : (wbs : List WriteBuffer) → AllWhole wbs → list_uncomplete wbs ≡ false
whole_complete [] w = refl
whole_complete (wb ∷ wbs) (z, w) = ground (arith, z)

pub empty_list : {A : Type 0} (xs : List A) → is_empty xs ≡ true → xs ≡ []
empty_list [] e = refl
empty_list (x ∷ xs) e = absurd (cc)
