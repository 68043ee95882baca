-- ===== src/SocketWrites/Requests.antt =====
-- `send_socket` on the order of messages.
use skynet_gameserver.Prelude.{
  ◌*◌, ◌≡◌, refl, sym, ap, ap₂, ◌∙◌, ◌⊎◌, true, false, inl, inr, ◌&&◌, ◌==◌, leb, List, [], ◌∷◌,
  ◌++◌, if◌then◌else◌, arith,
}
use skynet_gameserver.Prelude.Split.{append_assoc}
use skynet_gameserver.SocketWrites.State.{
  Priority, high_priority, low_priority, Message, WriteBuffer, whole, Socket, is_empty,
  send_request,
}
use skynet_gameserver.SocketWrites.Calls.{
  append_sendbuffer, append_sendbuffer_low, by_priority, warn, warning_size, send_socket,
}
use skynet_gameserver.SocketWrites.Lists.{both_branches, messages, all_bytes, started}
use skynet_gameserver.SocketWrites.Order.{
  of_priority, of_priority-append, requested, direct, queue, shut, Orderly, OrderlyAfter,
}
use skynet_gameserver.SocketWrites.Closing.{Orderly-flags}
use skynet_gameserver.SocketWrites.Writing.{messages-append, empty_list}
use skynet_gameserver.SocketWrites.Appends.{
  AllWhole-whole, HeadOnly-whole, started-whole, total_left-whole, AllLow-whole, passes, parts,
  to_third, to_second, one_low-whole,
}

abbrev pub before : Socket → Message → Socket
before s m = record s { pipe = send_request m ∷ s.pipe }

module _ (s : Socket) (acc : List Message) (m : Message) (o : Orderly (before s m) acc) where
  dropped : shut s ≡ true → Orderly s acc
  dropped e = record {
    done = o.done;
    lost = o.lost ++ m ∷ [];
    front = o.front;
    low_whole = o.low_whole;
    low_only = o.low_only;
    direct_high = o.direct_high;
    one_low = o.one_low;
    bytes = o.bytes;
    order = λ p.
        o.order p
        ∙ ap (λ ms. of_priority p (o.done ++ messages (queue s)) ++ of_priority p ms)
            (sym (append_assoc o.lost (m ∷ []) (requested s.pipe)));
    lost_shut = λ b. absurd (cc);
    sized = o.sized;
  }

  module _ (still_open : shut s ≡ false) where
    accepted_order :
        (p : Priority)
        → of_priority p acc
          ≡ (of_priority p o.done
              ++ (of_priority p (messages (direct s.dw_buffer))
                  ++ (of_priority p (messages s.high) ++ of_priority p (messages s.low))))
            ++ (of_priority p (m ∷ []) ++ of_priority p (requested s.pipe))
    accepted_order p =
        o.order p
        ∙ ap
            (λ ms.
              of_priority p (o.done ++ messages (queue s))
              ++ of_priority p (ms ++ m ∷ requested s.pipe))
            (o.lost_shut still_open)
        ∙ ap₂ (λ (xs ys : List Message). xs ++ ys)
            (parts p o.done (direct s.dw_buffer) s.high s.low)
            (of_priority-append p (m ∷ []) (requested s.pipe))

    with_last :
        (p : Priority) (wbs : List WriteBuffer)
        → of_priority p (messages wbs) ++ of_priority p (m ∷ [])
          ≡ of_priority p (messages (wbs ++ whole m ∷ []))
    with_last p wbs =
        sym (of_priority-append p (messages wbs) (m ∷ []))
        ∙ ap (of_priority p) (sym (messages-append wbs (whole m ∷ [])))

    to_low : m.priority ≡ low_priority → Orderly (append_sendbuffer_low s m) acc
    to_low e = record {
      done = o.done;
      lost = [];
      front = o.front;
      low_whole = AllWhole-whole s.low m o.low_whole;
      low_only = AllLow-whole s.low m e o.low_only;
      direct_high = o.direct_high;
      one_low = o.one_low;
      bytes = o.bytes;
      order = λ p.
          (let high = of_priority p (messages s.high) in
            let direct_ms = of_priority p (messages (direct s.dw_buffer)) in
            accepted_order p
            ∙ to_third (of_priority p o.done) direct_ms high _ _ _
            ∙ ap
                (λ ms.
                  (of_priority p o.done ++ (direct_ms ++ (high ++ ms)))
                  ++ of_priority p (requested s.pipe))
                (with_last p s.low)
            ∙ ap (λ ms. ms ++ of_priority p (requested s.pipe))
                (sym (parts p o.done (direct s.dw_buffer) s.high (s.low ++ whole m ∷ []))));
      lost_shut = λ b. refl;
      sized = λ b. omega (arith, o.sized b, total_left-whole s.low m);
    }

    to_high :
        (m.priority ≡ high_priority) ⊎ ((s.high ≡ []) × (s.low ≡ []))
        → Orderly (append_sendbuffer s m) acc
    to_high e =
        let e' : (m.priority ≡ high_priority) ⊎ (messages s.low ≡ []) = elim e [
          | inl h ↦ inl h
          | inr (h, l) ↦ inr (ap messages l)
        ] in
        record {
          done = o.done;
          lost = [];
          front =
              rw (append_assoc (direct s.dw_buffer) s.high (whole m ∷ [])) at
                (HeadOnly-whole (direct s.dw_buffer ++ s.high) m o.front);
          low_whole = o.low_whole;
          low_only = o.low_only;
          direct_high = o.direct_high;
          one_low =
              one_low-whole (direct s.dw_buffer) s.high m o.direct_high o.one_low
                (elim e [ inl h ↦ inl h | inr (h, l) ↦ inr h ]);
          bytes = λ b.
              o.bytes b
              ∙ ap (λ bs. all_bytes o.done ++ bs)
                  (sym (started-whole (direct s.dw_buffer ++ s.high) m)
                    ∙ ap started (append_assoc (direct s.dw_buffer) s.high (whole m ∷ [])));
          order = λ p.
              (let low = of_priority p (messages s.low) in
                let direct_ms = of_priority p (messages (direct s.dw_buffer)) in
                accepted_order p
                ∙ to_second (of_priority p o.done) direct_ms (of_priority p (messages s.high)) low
                    (of_priority p (m ∷ [])) (of_priority p (requested s.pipe))
                    (passes p (messages s.low) m o.low_only e')
                ∙ ap
                    (λ ms.
                      (of_priority p o.done ++ (direct_ms ++ (ms ++ low)))
                      ++ of_priority p (requested s.pipe))
                    (with_last p s.high)
                ∙ ap (λ ms. ms ++ of_priority p (requested s.pipe))
                    (sym (parts p o.done (direct s.dw_buffer) (s.high ++ whole m ∷ []) s.low)));
          lost_shut = λ b. refl;
          sized = λ b. omega (arith, o.sized b, total_left-whole s.high m);
        }

pub warn-Orderly : (s : Socket) (acc : List Message) → Orderly s acc → Orderly (warn s).1 acc
unfolding warn
warn-Orderly s acc o =
    both_branches (OrderlyAfter acc) (leb warning_size s.wb_size && leb s.warn_size s.wb_size)
      (λ e.
        Orderly-flags s acc s.writing
          (if s.warn_size == 0 then warning_size * 2 else s.warn_size * 2) o)
      (λ e. o)

pub send_socket-Orderly :
    (s : Socket) (acc : List Message) (m : Message)
    → Orderly (before s m) acc
    → Orderly (send_socket s m).1 acc
unfolding send_socket
send_socket-Orderly s acc m o =
    both_branches (OrderlyAfter acc) (shut s) (λ e. dropped s acc m o e)
      (λ e.
        both_branches (OrderlyAfter acc) (is_empty s.high && is_empty s.low)
          (λ empty.
            let low : s.low ≡ [] = empty_list s.low (ground (arith, empty)) in
            let o' = to_high s acc m o e (inr (empty_list s.high (ground (arith, empty)), low)) in
            warn-Orderly _ acc (Orderly-flags (append_sendbuffer s m) acc true s.warn_size o'))
          (λ some_left. warn-Orderly _ acc (go e m.priority refl)))
  where
    go : shut s ≡ false → (p : Priority) → m.priority ≡ p → Orderly (by_priority s m p) acc
    go e high_priority h = to_high s acc m o e (inl h)
    go e low_priority h = to_low s acc m o e h
