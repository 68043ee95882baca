-- ===== src/SocketWrites/Appends.antt =====
-- A buffer that is put behind a list, and the messages of each priority.
use skynet_gameserver.Prelude.{
  ◌+◌, ◌≡◌, refl, sym, ap, ◌∙◌, ◌⊎◌, inl, inr, List, [], ◌∷◌, ◌++◌, length, arith, ◌≤◌,
  length-append,
}
use skynet_gameserver.Prelude.Split.{append_assoc, append_nil}
use skynet_gameserver.SocketWrites.State.{
  Priority, high_priority, low_priority, Message, WriteBuffer, whole,
}
use skynet_gameserver.SocketWrites.Lists.{messages, AllWhole, HeadOnly, started, total_left}
use skynet_gameserver.SocketWrites.Order.{of_priority, of_priority-append, AllLow}
use skynet_gameserver.SocketWrites.Writing.{messages-append}

-- A buffer that is not begun, behind a list
pub AllWhole-whole :
    (wbs : List WriteBuffer) (m : Message) → AllWhole wbs → AllWhole (wbs ++ whole m ∷ [])
AllWhole-whole [] m w = (refl, tt)
AllWhole-whole (wb ∷ wbs) m (z, w) = (z, AllWhole-whole wbs m w)

pub HeadOnly-whole :
    (wbs : List WriteBuffer) (m : Message) → HeadOnly wbs → HeadOnly (wbs ++ whole m ∷ [])
HeadOnly-whole [] m h = (omega arith, tt)
HeadOnly-whole (wb ∷ wbs) m (fits, w) = (fits, AllWhole-whole wbs m w)

pub started-whole :
    (wbs : List WriteBuffer) (m : Message) → started (wbs ++ whole m ∷ []) ≡ started wbs
started-whole [] m = refl
started-whole (wb ∷ wbs) m = refl

pub total_left-whole :
    (wbs : List WriteBuffer) (m : Message)
    → total_left (wbs ++ whole m ∷ []) ≡ total_left wbs + length m.bytes
total_left-whole [] m = omega arith
total_left-whole (wb ∷ wbs) m = omega (arith, total_left-whole wbs m)

pub AllLow-whole :
    (wbs : List WriteBuffer) (m : Message)
    → m.priority ≡ low_priority
    → AllLow (messages wbs)
    → AllLow (messages (wbs ++ whole m ∷ []))
AllLow-whole [] m e l = (e, tt)
AllLow-whole (wb ∷ wbs) m e (h, l) = (h, AllLow-whole wbs m e l)

pub of_high_low : (ms : List Message) → AllLow ms → of_priority high_priority ms ≡ []
of_high_low [] l = refl
of_high_low (m ∷ ms) (e, l) = simp (e, of_high_low ms l) refl

-- A message of high priority may pass messages of low priority.
pub passes :
    (p : Priority) (ms : List Message) (m : Message)
    → AllLow ms
    → (m.priority ≡ high_priority) ⊎ (ms ≡ [])
    → of_priority p ms ++ of_priority p (m ∷ []) ≡ of_priority p (m ∷ []) ++ of_priority p ms
passes high_priority ms m l (inl e) = simp (of_high_low ms l, append_nil) refl
passes low_priority ms m l (inl e) = simp (e, append_nil) refl
passes p ms m l (inr e) = simp (e, append_nil) refl

-- Of a priority, what is done and what waits in three lists
pub parts :
    (p : Priority) (done : List Message) (d h l : List WriteBuffer)
    → of_priority p (done ++ messages (d ++ (h ++ l)))
      ≡ of_priority p done
        ++ (of_priority p (messages d)
            ++ (of_priority p (messages h) ++ of_priority p (messages l)))
parts p done d h l = simp (of_priority-append, messages-append) refl

pub to_third :
    (a b c d m r : List Message)
    → (a ++ (b ++ (c ++ d))) ++ (m ++ r) ≡ (a ++ (b ++ (c ++ (d ++ m)))) ++ r
to_third a b c d m r = simp append_assoc refl

pub to_second :
    (a b c d m r : List Message)
    → d ++ m ≡ m ++ d
    → (a ++ (b ++ (c ++ d))) ++ (m ++ r) ≡ (a ++ (b ++ ((c ++ m) ++ d))) ++ r
to_second a b c d m r e =
    to_third a b c d m r
    ∙ ap (λ ms. (a ++ (b ++ (c ++ ms))) ++ r) e
    ∙ ap (λ ms. (a ++ (b ++ ms)) ++ r) (sym (append_assoc c m d))

pub of_low-le : (m : Message) → length (of_priority low_priority (m ∷ [])) ≤ 1
of_low-le m = ground arith

-- Where a message of low priority comes into the high list, nothing else stands there.
pub one_low-whole :
    (ds hs : List WriteBuffer) (m : Message)
    → of_priority low_priority (messages ds) ≡ []
    → length (of_priority low_priority (messages (ds ++ hs))) ≤ 1
    → (m.priority ≡ high_priority) ⊎ (hs ≡ [])
    → length (of_priority low_priority (messages (ds ++ (hs ++ whole m ∷ [])))) ≤ 1
one_low-whole ds hs m d one e =
    let count : length (of_priority low_priority (messages (ds ++ (hs ++ whole m ∷ []))))
        ≡ length (of_priority low_priority (messages (ds ++ hs)))
          + length (of_priority low_priority (m ∷ [])) =
      ap (λ (wbs : List WriteBuffer). length (of_priority low_priority (messages wbs)))
        (sym (append_assoc ds hs (whole m ∷ [])))
      ∙ ap length (
          ap (of_priority low_priority) (messages-append (ds ++ hs) (whole m ∷ []))
          ∙ of_priority-append low_priority (messages (ds ++ hs)) (m ∷ []))
      ∙ length-append (of_priority low_priority (messages (ds ++ hs)))
          (of_priority low_priority (m ∷ [])) in
    elim e [
      | inl h ↦
          (let none_new : length (of_priority low_priority (m ∷ [])) ≡ 0 = simp h refl in
            omega (arith, count, one, none_new))
      | inr h ↦
          (let none_old : length (of_priority low_priority (messages (ds ++ hs))) ≡ 0 =
              ap (λ (l : List WriteBuffer). length (of_priority low_priority (messages (ds ++ l))))
                h
              ∙ ap (λ (l : List WriteBuffer). length (of_priority low_priority (messages l)))
                  (append_nil ds)
              ∙ ap length d in
            omega (arith, count, none_old, of_low-le m))
    ]
