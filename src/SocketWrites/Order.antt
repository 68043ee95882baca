-- ===== src/SocketWrites/Order.antt =====
-- The messages in the socket and in its pipe, and the order in which they were accepted.
use skynet_gameserver.Prelude.{
  ◌+◌, ◌≡◌, refl, ap, subst, Bool, true, false, ◌||◌, Option, none, some, List, [], ◌∷◌, ◌++◌,
  if◌then◌else◌, arith, ◌≤◌, length,
}
use skynet_gameserver.SocketWrites.State.{
  Priority, high_priority, low_priority, Message, WriteBuffer, is_invalid, is_halfclose_write,
  Report, Request, send_request, write_request, close_request, Socket, new_socket,
}
use skynet_gameserver.SocketWrites.Lists.{
  messages, all_bytes, AllWhole, HeadOnly, started, total_left,
}

abbrev pub same_priority : Priority → Priority → Bool
same_priority high_priority high_priority = true
same_priority low_priority low_priority = true
same_priority high_priority low_priority = false
same_priority low_priority high_priority = false

-- The messages of one priority
abbrev pub of_priority : Priority → List Message → List Message
of_priority p [] = []
of_priority p (m ∷ ms) =
    if same_priority p m.priority then m ∷ of_priority p ms else of_priority p ms

pub of_priority-append :
    (p : Priority) (xs ys : List Message)
    → of_priority p (xs ++ ys) ≡ of_priority p xs ++ of_priority p ys
of_priority-append p [] ys = refl
of_priority-append p (m ∷ xs) ys = ground (arith, of_priority-append p xs ys)

-- The messages of the requests
abbrev pub requested : List Request → List Message
requested [] = []
requested (send_request m ∷ rs) = m ∷ requested rs
requested (write_request ∷ rs) = requested rs
requested (close_request shutdown ∷ rs) = requested rs

pub requested-append :
    (rs rs' : List Request) → requested (rs ++ rs') ≡ requested rs ++ requested rs'
requested-append [] rs' = refl
requested-append (send_request m ∷ rs) rs' = ap (λ ms. m ∷ ms) (requested-append rs rs')
requested-append (write_request ∷ rs) rs' = requested-append rs rs'
requested-append (close_request shutdown ∷ rs) rs' = requested-append rs rs'

abbrev pub direct : Option WriteBuffer → List WriteBuffer
direct none = []
direct (some wb) = wb ∷ []

-- The buffers in the order in which they go out: the one of a direct write, the high and the low list.
abbrev pub queue : Socket → List WriteBuffer
queue s = direct s.dw_buffer ++ (s.high ++ s.low)

-- Nothing that is sent from now on gets into the lists.
abbrev pub shut : Socket → Bool
shut s = is_invalid s.type || is_halfclose_write s.type || s.closing

abbrev pub AllLow : List Message → Type 0
AllLow [] = Unit {0}
AllLow (m ∷ ms) = (m.priority ≡ low_priority) × AllLow ms

pub AllLow-drop : (xs ys zs : List Message) → zs ≡ xs ++ ys → AllLow zs → AllLow ys
AllLow-drop xs ys zs e l = go xs (subst AllLow e l)
  where
    go : (xs : List Message) → AllLow (xs ++ ys) → AllLow ys
    go [] l = l
    go (m ∷ xs) (e, l) = go xs l

-- Of the messages accepted until now, some were written whole and some are lost; the others wait in the
-- queue and in the pipe, and of these at most the first of the queue is written in part.
pub record Orderly (s : Socket) (accepted : List Message) : Type 0 where
  pub done : List Message
  pub lost : List Message
  pub front : HeadOnly (direct s.dw_buffer ++ s.high)
  pub low_whole : AllWhole s.low
  pub low_only : AllLow (messages s.low)
  -- At most one message of low priority stands before messages of high priority.
  pub direct_high : of_priority low_priority (messages (direct s.dw_buffer)) ≡ []
  pub one_low : length (of_priority low_priority (messages (direct s.dw_buffer ++ s.high))) ≤ 1
  -- The kernel took whole messages and the part of one.
  pub bytes :
      is_invalid s.type ≡ false → s.wrote ≡ all_bytes done ++ started (direct s.dw_buffer ++ s.high)
  -- Of each priority all messages are there, in the order in which they were accepted.
  pub order :
      (p : Priority)
      → of_priority p accepted
        ≡ of_priority p (done ++ messages (queue s)) ++ of_priority p (lost ++ requested s.pipe)
  -- Nothing is lost before the socket is shut.
  pub lost_shut : shut s ≡ false → lost ≡ []
  pub sized : is_invalid s.type ≡ false → s.wb_size ≡ total_left s.high + total_left s.low

-- For a step that reports
abbrev pub OrderlyAfter : List Message → Report × Socket → Type 0
OrderlyAfter acc (report, s) = Orderly s acc

pub new-Orderly : Orderly new_socket []
new-Orderly = record {
  done = [];
  lost = [];
  front = tt;
  low_whole = tt;
  low_only = tt;
  direct_high = refl;
  one_low = omega arith;
  bytes = λ e. refl;
  order = λ p. refl;
  lost_shut = λ e. refl;
  sized = λ e. refl;
}
