-- ===== src/SocketWrites/LowList.antt =====
-- The low list in `send_buffer_`, after the high one, and `send_buffer`.
use skynet_gameserver.Prelude.{
  ◌+◌, ◌≡◌, refl, sym, ap, subst, ◌∙◌, true, false, Option, none, some, List, [], ◌∷◌, ◌++◌, arith,
  ◌≤◌, length,
}
use skynet_gameserver.Prelude.Split.{append_assoc}
use skynet_gameserver.SocketWrites.State.{
  low_priority, Message, WriteBuffer, is_invalid, Socket, Answer, is_empty,
}
use skynet_gameserver.SocketWrites.Sending.{
  Sent, send_list, list_uncomplete, raise_uncomplete, quietly, after_low, low_sent, high_sent,
  send_low, send_both, raise_direct, send_buffer,
}
use skynet_gameserver.SocketWrites.Lists.{
  both_branches, messages, all_bytes, AllWhole, HeadOnly, started, total_left, started_whole,
  whole-HeadOnly, Sends, send_list-Sends,
}
use skynet_gameserver.SocketWrites.Order.{of_priority, requested, AllLow, AllLow-drop, Orderly}
use skynet_gameserver.SocketWrites.Closing.{close_write-Orderly}
use skynet_gameserver.SocketWrites.Appends.{of_low-le}
use skynet_gameserver.SocketWrites.Writing.{
  Kept, raise_direct-Orderly, write_bytes, high_sent-Orderly, finish-Kept, uncomplete_whole,
  whole_complete, empty_list,
}

-- The low list is written, when the high list is empty.
module _ (s : Socket) (acc : List Message) (direct_none : s.dw_buffer ≡ none) (h : s.high ≡ [])
    (valid : is_invalid s.type ≡ false) (o : Orderly s acc) where
  -- What is left is split between the lists.
  low_next :
      (r : Sent)
      → Sends s.low r
      → (high' low' : List WriteBuffer) → messages r.left ≡ messages (high' ++ low')
      → started r.left ≡ started high'
      → total_left r.left ≡ total_left high' + total_left low'
      → HeadOnly high'
      → AllWhole low'
      → AllLow (messages low')
      → length (of_priority low_priority (messages high')) ≤ 1
      → Orderly (record (low_sent s r) { high = high'; low = low' }) acc
  low_next r w high' low' kept start size head_only low_whole low_only one = record {
    done = o.done ++ w.gone;
    lost = o.lost;
    front = rw direct_none head_only;
    low_whole = low_whole;
    low_only = low_only;
    direct_high = o.direct_high;
    one_low = rw direct_none one;
    bytes = λ b.
        (let before : s.wrote ≡ all_bytes o.done ++ started s.high =
            rw direct_none at (o.bytes b) in
          let nothing_started : started s.high ≡ started s.low =
            ap started h ∙ sym (started_whole s.low o.low_whole) in
          rw direct_none (
            write_bytes s.wrote o.done s.low r w
              (before ∙ ap (λ bs. all_bytes o.done ++ bs) nothing_started)
            ∙ ap (λ bs. all_bytes (o.done ++ w.gone) ++ bs) start));
    order = λ p.
        (let before : of_priority p acc
              ≡ of_priority p (o.done ++ messages (s.high ++ s.low))
                ++ of_priority p (o.lost ++ requested s.pipe) =
            rw direct_none at (o.order p) in
          let moved : o.done ++ messages (s.high ++ s.low)
              ≡ (o.done ++ w.gone) ++ messages (high' ++ low') =
            ap (λ (wbs : List WriteBuffer). o.done ++ messages (wbs ++ s.low)) h
            ∙ ap (λ ms. o.done ++ ms) (w.kept)
            ∙ sym (append_assoc o.done w.gone (messages r.left))
            ∙ ap (λ ms. (o.done ++ w.gone) ++ ms) kept in
          rw direct_none (
            before
            ∙ ap (λ ms. of_priority p ms ++ of_priority p (o.lost ++ requested s.pipe)) moved));
    lost_shut = o.lost_shut;
    sized = λ b.
        (let none_high : total_left s.high ≡ 0 = ap total_left h in
          omega (arith, o.sized b, w.sized, none_high, size));
  }

  pub low_sent-Orderly : (r : Sent) → Sends s.low r → AllWhole r.left → Orderly (low_sent s r) acc
  low_sent-Orderly r w whole =
      low_next r w s.high r.left (ap (λ (wbs : List WriteBuffer). messages (wbs ++ r.left)) (sym h))
        (started_whole r.left whole ∙ ap started (sym h))
        (let none_high : total_left s.high ≡ 0 = ap total_left h in omega (arith, none_high))
        (subst HeadOnly (sym h) tt) whole
        (AllLow-drop w.gone (messages r.left) (messages s.low) w.kept o.low_only)
        (let none_high : length (of_priority low_priority (messages s.high)) ≡ 0 =
            ap (λ (wbs : List WriteBuffer). length (of_priority low_priority (messages wbs))) h in
          omega (arith, none_high))

  raise-Kept :
      (r : Sent)
      → Sends s.low r
      → (high l : List WriteBuffer) → high ≡ []
      → l ≡ r.left
      → list_uncomplete l ≡ true
      → Kept acc (quietly (raise_uncomplete (low_sent s r) high l))
  unfolding raise_uncomplete
  raise-Kept r w (wb ∷ high) l e el u = absurd (cc)
  raise-Kept r w [] [] e el u = absurd (cc)
  raise-Kept r w [] (wb ∷ wbs) e el u =
      let (fits, whole) = subst HeadOnly (sym el) w.head_only in
      let low_only : AllLow (messages r.left) =
        AllLow-drop w.gone (messages r.left) (messages s.low) w.kept o.low_only in
      low_next r w (wb ∷ []) wbs (ap messages (sym el)) (ap started (sym el))
        (ap total_left (sym el) ∙ omega arith) (fits, tt) whole
        (subst (λ wbs. AllLow (messages wbs)) (sym el) low_only).1 (of_low-le wb.message)

  after_low-Kept : (r : Sent) → Sends s.low r → Kept acc (after_low (low_sent s r))
  unfolding after_low
  after_low-Kept r w =
      both_branches (Kept acc) (list_uncomplete r.left) (λ u. raise-Kept r w s.high r.left h refl u)
        (λ u.
          let o' = low_sent-Orderly r w (uncomplete_whole r.left u w.head_only) in
          both_branches (Kept acc) (is_empty r.left)
            (λ e. finish-Kept (low_sent s r) acc valid h (empty_list r.left e) o') (λ e. o'))

  send_low-Kept : (answers : List Answer) → Kept acc (send_low s answers)
  unfolding send_low
  send_low-Kept answers =
      let r = send_list answers s.low in
      let w = send_list-Sends answers s.low (whole-HeadOnly s.low o.low_whole) in
      both_branches (Kept acc) r.broken
        (λ b.
          close_write-Orderly (low_sent s r) acc valid
            (low_sent-Orderly r w (w.broken_whole b o.low_whole)))
        (λ b. after_low-Kept r w)

send_both-Kept :
    (s : Socket) (acc : List Message) (answers : List Answer)
    → s.dw_buffer ≡ none
    → is_invalid s.type ≡ false
    → Orderly s acc
    → Kept acc (send_both s answers)
unfolding send_both
send_both-Kept s acc answers d valid o =
    let r = send_list answers s.high in
    let front : HeadOnly s.high = rw d at o.front in
    let w = send_list-Sends answers s.high front in
    let o' = high_sent-Orderly s acc d o r w in
    let complete = whole_complete s.low o.low_whole in
    both_branches (Kept acc) (list_uncomplete s.low) (λ u. absurd (cc))
      (λ u.
        both_branches (Kept acc) r.broken (λ b. close_write-Orderly (high_sent s r) acc valid o')
          (λ b.
            both_branches (Kept acc) (is_empty r.left)
              (λ e.
                both_branches (Kept acc) (is_empty s.low)
                  (λ l.
                    finish-Kept (high_sent s r) acc valid (empty_list r.left e) (empty_list s.low l)
                      o')
                  (λ l.
                    send_low-Kept (high_sent s r) acc d (empty_list r.left e) valid o' r.answers))
              (λ e. o')))

-- However the kernel answers, no assertion of `send_buffer` fails.
pub send_buffer-Kept :
    (s : Socket) (acc : List Message) (answers : List Answer)
    → is_invalid s.type ≡ false
    → Orderly s acc
    → Kept acc (send_buffer s answers)
unfolding send_buffer
send_buffer-Kept s acc answers valid o = go s.dw_buffer refl
  where
    go :
        (d : Option WriteBuffer) → s.dw_buffer ≡ d → Kept acc (send_both (raise_direct s d) answers)
    go none e =
        send_both-Kept (raise_direct s none) acc answers refl valid
          (raise_direct-Orderly s acc none e o)
    go (some wb) e =
        send_both-Kept (raise_direct s (some wb)) acc answers refl valid
          (raise_direct-Orderly s acc (some wb) e o)
