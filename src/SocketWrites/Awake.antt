-- ===== src/SocketWrites/Awake.antt =====
-- Whether the socket thread will be woken to write: the socket thread itself.
use skynet_gameserver.Prelude.{
  ◌≡◌, refl, sym, ap, subst, inl, inr, Bool, true, false, not, Bool-cases, ◌&&◌, ◌||◌, Option, none,
  some, List, [], ◌∷◌, ◌++◌, ltb, ◌==◌, arith,
}
use skynet_gameserver.SocketWrites.State.{
  WriteBuffer, Socket, Report, is_invalid, is_halfclose_read, is_halfclose_write, is_empty,
  no_direct, Request, send_request, write_request, close_request, Answer,
}
use skynet_gameserver.SocketWrites.Sending.{
  Done, send_list, close_write, force_close, list_uncomplete, raise_uncomplete, quietly,
  finish_writing, after_low, low_sent, high_sent, send_low, send_both, raise_direct, send_buffer,
}
use skynet_gameserver.SocketWrites.Lists.{both_branches}
use skynet_gameserver.SocketWrites.Writing.{empty_list}
use skynet_gameserver.SocketWrites.Direct.{no_direct-none}

abbrev pub nothing_waits : Socket → Bool
nothing_waits s = is_empty s.high && is_empty s.low && no_direct s.dw_buffer

-- A command W is in the pipe.
abbrev pub wakes : List Request → Bool
wakes [] = false
wakes (send_request m ∷ rs) = wakes rs
wakes (write_request ∷ rs) = true
wakes (close_request shutdown ∷ rs) = wakes rs

pub wakes-append : (rs rs' : List Request) → wakes rs ≡ true → wakes (rs ++ rs') ≡ true
wakes-append [] rs' e = absurd (cc)
wakes-append (send_request m ∷ rs) rs' e = wakes-append rs rs' e
wakes-append (write_request ∷ rs) rs' e = refl
wakes-append (close_request shutdown ∷ rs) rs' e = wakes-append rs rs' e

pub wakes_last : (rs : List Request) → wakes (rs ++ write_request ∷ []) ≡ true
wakes_last [] = refl
wakes_last (send_request m ∷ rs) = wakes_last rs
wakes_last (write_request ∷ rs) = refl
wakes_last (close_request shutdown ∷ rs) = wakes_last rs

-- The write event is on, or it will be: a command W is in the pipe, or a thread is about to send it.
abbrev pub signals : Socket → Bool
signals s = s.writing || wakes s.pipe || ltb 0 s.waking

-- The socket is not written any more, nothing waits, or the event is on or will be turned on.
abbrev pub awake : Socket → Bool
awake s = is_invalid s.type || is_halfclose_write s.type || nothing_waits s || signals s

abbrev pub Awake : Socket → Type 0
Awake s = awake s ≡ true

-- As far as `send_buffer_` looks at it
abbrev Writes : Socket → Type 0
Writes s = (is_invalid s.type || is_halfclose_write s.type || signals s) ≡ true

abbrev pub AwakeAfter : Report × Socket → Type 0
AwakeAfter (report, s) = Awake s

abbrev pub AwakeDone : Done → Type 0
AwakeDone none = Unit {0}
AwakeDone (some (report, s)) = Awake s

pub force_close-Awake : (s : Socket) → Awake (force_close s)
unfolding force_close
force_close-Awake s = both_branches Awake (is_invalid s.type) (λ e. ground (arith, e)) (λ e. refl)

close_write-Awake : (s : Socket) → AwakeAfter (close_write s)
unfolding close_write
close_write-Awake s =
    both_branches AwakeAfter s.closing (λ e. force_close-Awake s)
      (λ e.
        both_branches AwakeAfter (is_halfclose_read s.type) (λ e. force_close-Awake s)
          (λ e.
            both_branches AwakeAfter (is_halfclose_write s.type) (λ e. ground (arith, e))
              (λ e. refl)))

finish-Awake : (s : Socket) → s.dw_buffer ≡ none → AwakeDone (finish_writing s)
unfolding finish_writing
finish-Awake s d =
    both_branches AwakeDone (not (is_empty s.high && is_empty s.low && s.wb_size == 0)) (λ e. tt)
      (λ e.
        both_branches AwakeDone s.closing (λ e. force_close-Awake s)
          (λ c.
            let direct : no_direct s.dw_buffer ≡ true = ap no_direct d in
            both_branches AwakeDone (ltb 0 s.warn_size) (λ w. ground (arith, e, direct))
              (λ w. ground (arith, e, direct))))

raise-Awake :
    (s : Socket) (high low : List WriteBuffer)
    → Writes s
    → AwakeDone (quietly (raise_uncomplete s high low))
unfolding raise_uncomplete
raise-Awake s (wb ∷ high) low e = tt
raise-Awake s [] [] e = tt
raise-Awake s [] (wb ∷ low) e = ground (arith, e)

both-Awake :
    (s : Socket) (answers : List Answer)
    → s.dw_buffer ≡ none
    → Writes s
    → AwakeDone (send_both s answers)
unfolding send_both send_low after_low
both-Awake s answers d e =
    let r = send_list answers s.high in
    let low = send_list r.answers s.low in
    let s' = low_sent (high_sent s r) low in
    both_branches AwakeDone (list_uncomplete s.low) (λ u. tt)
      (λ u.
        both_branches AwakeDone r.broken (λ b. close_write-Awake (high_sent s r))
          (λ b.
            both_branches AwakeDone (is_empty r.left)
              (λ h.
                both_branches AwakeDone (is_empty s.low) (λ l. finish-Awake (high_sent s r) d)
                  (λ l.
                    both_branches AwakeDone low.broken (λ b. close_write-Awake s')
                      (λ b.
                        both_branches AwakeDone (list_uncomplete low.left)
                          (λ u. raise-Awake s' r.left low.left e)
                          (λ u.
                            both_branches AwakeDone (is_empty low.left) (λ i. finish-Awake s' d)
                              (λ i. ground (arith, e))))))
              (λ h. ground (arith, e))))

nothing_left :
    (answers : List Answer) (wbs : List WriteBuffer) → wbs ≡ [] → (send_list answers wbs).left ≡ []
unfolding send_list
nothing_left [] [] e = refl
nothing_left (a ∷ answers) [] e = refl
nothing_left answers (wb ∷ wbs) e = absurd (cc)

waiting_Writes : (i h n w : Bool) → (i || h || n || w) ≡ true → n ≡ false → (i || h || w) ≡ true
waiting_Writes i h n w e f = ground (arith, e, f)

empty-Awake :
    (s : Socket) (answers : List Answer)
    → nothing_waits s ≡ true
    → AwakeDone (send_buffer s answers)
unfolding send_buffer send_both
empty-Awake s answers e =
    let high : s.high ≡ [] = empty_list s.high (ground (arith, e)) in
    let low : is_empty s.low ≡ true = ground (arith, e) in
    let d : s.dw_buffer ≡ none = no_direct-none s.dw_buffer (ground (arith, e)) in
    subst (λ (x : Option WriteBuffer). AwakeDone (send_both (raise_direct s x) answers)) (sym d)
      (let s0 = raise_direct s none in
        let r = send_list answers s.high in
        let left : is_empty r.left ≡ true = ap is_empty (nothing_left answers s.high high) in
        both_branches AwakeDone (list_uncomplete s.low) (λ u. tt)
          (λ u.
            both_branches AwakeDone r.broken (λ b. close_write-Awake (high_sent s0 r))
              (λ b.
                both_branches AwakeDone (is_empty r.left)
                  (λ h.
                    both_branches AwakeDone (is_empty s.low)
                      (λ l. finish-Awake (high_sent s0 r) refl) (λ l. absurd (cc)))
                  (λ h. absurd (cc)))))

pub send_buffer-Awake :
    (s : Socket) (answers : List Answer) → Awake s → AwakeDone (send_buffer s answers)
unfolding send_buffer
send_buffer-Awake s answers a = elim (Bool-cases (nothing_waits s)) [
  | inl e ↦ empty-Awake s answers e
  | inr e ↦ go s.dw_buffer (
      waiting_Writes (is_invalid s.type) (is_halfclose_write s.type) (nothing_waits s) (signals s) a
        e)
]
  where
    go : (d : Option WriteBuffer) → Writes s → AwakeDone (send_both (raise_direct s d) answers)
    go none w = both-Awake (raise_direct s none) answers refl w
    go (some wb) w = both-Awake (raise_direct s (some wb)) answers refl w
