-- ===== src/Timer.antt =====
-- skynet/skynet-src/skynet_timer.c: the timer wheel. `near` holds the timers of the current round of
-- 256 ticks, `t` those of four coarser levels of 64 slots each. A list is in the order of its links.
-- Each function runs under the timer's lock; clocks are arguments.
pub mod Bits
pub mod Wheel
pub mod Shift
pub mod Count
pub mod Ticks
pub mod Fires
pub mod Clock
mod Tests
use skynet_gameserver.Prelude.{
  at, ℕ, zero, suc, ◌+◌, ◌-◌, ◌*◌, ◌/◌, ◌%◌, ◌^◌, Bool, true, false, ◌||◌, Option, none, some, List,
  [], ◌∷◌, ◌++◌, map, ltb, leb, ◌==◌, if◌then◌else◌,
}
use skynet_gameserver.Mq.{Message}

-- `struct timer_node` with the `struct timer_event` behind it.
pub record Node : Type 0 where
  pub expire : ℕ
  pub handle : ℕ
  pub session : ℕ

pub record Timer : Type 0 where
  pub near : ℕ → List Node
  pub t : ℕ → ℕ → List Node
  pub time : ℕ
  pub starttime : ℕ
  pub current : ℕ
  pub current_point : ℕ

abbrev pub u32 : ℕ
u32 = 2 ^ 32

-- `x | (2^k - 1)`, `x & (2^k - 1)` and `x >> k`; `Bits` proves the first.
abbrev pub or_mask : ℕ → ℕ → ℕ
or_mask x k = x / 2 ^ k * 2 ^ k + (2 ^ k - 1)

abbrev pub low_bits : ℕ → ℕ → ℕ
low_bits x k = x % 2 ^ k

abbrev pub shr : ℕ → ℕ → ℕ
shr x k = x / 2 ^ k

-- `link(&T->near[j], node)`, `link(&T->t[i][j], node)`
unfoldable pub link_near : Timer → ℕ → Node → Timer
link_near T j n = record T { near = at T.near j (T.near j ++ n ∷ []) }

unfoldable pub link_level : Timer → ℕ → ℕ → Node → Timer
link_level T i j n = record T { t = at T.t i (at (T.t i) j (T.t i j ++ n ∷ [])) }

-- `for (i=0;i<3;i++)` of `add_node`: `rounds` are left, and the mask is `2^(14 + 6 i)`.
unfoldable pub find_level : ℕ → ℕ → ℕ → ℕ → ℕ
find_level zero i time current_time = i
find_level (suc rounds) i time current_time =
    let rest = find_level rounds (i + 1) time current_time in
    if or_mask time (14 + 6 * i) == or_mask current_time (14 + 6 * i) then i else rest

unfoldable pub add_node : Timer → Node → Timer
add_node T n =
    if or_mask n.expire 8 == or_mask T.time 8
    then link_near T (low_bits n.expire 8) n
    else let i = find_level 3 0 n.expire T.time in
      link_level T i (low_bits (shr n.expire (8 + 6 * i)) 6) n

-- The node that `timer_add` makes, for an event of `handle` and `session`.
abbrev pub event_node : Timer → ℕ → ℕ → ℕ → Node
event_node T handle session time = record {
  expire = (time + T.time) % u32;
  handle = handle;
  session = session;
}

-- `timer_add`
unfoldable pub timer_add : Timer → ℕ → ℕ → ℕ → Timer
timer_add T handle session time = add_node T (event_node T handle session time)

unfoldable pub add_nodes : Timer → List Node → Timer
add_nodes T [] = T
add_nodes T (n ∷ ns) = add_nodes (add_node T n) ns

-- `link_clear(&T->t[level][idx])`
unfoldable pub clear_level : Timer → ℕ → ℕ → Timer
clear_level T level idx = record T { t = at T.t level (at (T.t level) idx []) }

unfoldable pub move_list : Timer → ℕ → ℕ → Timer
move_list T level idx = add_nodes (clear_level T level idx) (T.t level idx)

-- The `while` of `timer_shift`: at level `i` the mask is `2^(8 + 6 i)`. Four rounds are enough, since
-- `ct` is not 0.
unfoldable pub shift_levels : ℕ → Timer → ℕ → ℕ → Timer
shift_levels zero T i ct = T
shift_levels (suc rounds) T i ct =
    let rest = shift_levels rounds T (i + 1) ct in
    let idx = low_bits (shr ct (8 + 6 * i)) 6 in
    if low_bits ct (8 + 6 * i) == 0 then (if idx == 0 then rest else move_list T i idx) else T

unfoldable pub timer_shift : Timer → Timer
timer_shift T =
    let ct = (T.time + 1) % u32 in
    let T' = record T { time = ct } in if ct == 0 then move_list T' 3 0 else shift_levels 4 T' 0 ct

-- `timer_execute`: the timers that it dispatches. No other thread links into the list of the
-- current tick while the lock is free, so that the loop makes one round.
unfoldable pub timer_execute : Timer → List Node × Timer
timer_execute T = let idx = low_bits T.time 8 in (T.near idx, record T { near = at T.near idx [] })

unfoldable pub timer_update : Timer → List Node × Timer
timer_update T =
    let (early, T₁) = timer_execute T in
    let (due, T₂) = timer_execute (timer_shift T₁) in (early ++ due, T₂)

-- `PTYPE_RESPONSE << MESSAGE_TYPE_SHIFT`
abbrev pub response_sz : ℕ
response_sz = 1 * 2 ^ 56

abbrev pub response : ℕ → Message
response session = record { source = 0; session = session; payload = 0; sz = response_sz }

-- `dispatch_list`: the messages pushed, each with the service it goes to.
unfoldable pub dispatch_list : List Node → List (ℕ × Message)
dispatch_list [] = []
dispatch_list (n ∷ ns) = (n.handle, response n.session) ∷ dispatch_list ns

-- `int time <= 0`, for the 32 bits of an `int`
abbrev pub nonpositive : ℕ → Bool
nonpositive time = time == 0 || leb (2 ^ 31) time

-- `skynet_timeout`, where `pushes` says whether `skynet_context_push` finds the service: the result
-- (`none` is -1), the message pushed at once, and the timer.
unfoldable pub timeout : (ℕ → Bool) → Timer → ℕ → ℕ → ℕ → Option ℕ × List (ℕ × Message) × Timer
timeout pushes T handle time session =
    if nonpositive time
    then (if pushes handle
        then (some session, (handle, response session) ∷ [], T)
        else (none, [], T))
    else (some session, [], timer_add T handle session time)

-- `for (i=0;i<diff;i++) timer_update(TI);`
unfoldable pub update_times : ℕ → Timer → List Node × Timer
update_times zero T = ([], T)
update_times (suc n) T =
    let (ns, T') = timer_update T in let (ms, T'') = update_times n T' in (ns ++ ms, T'')

-- `skynet_updatetime`, at the monotonic time `cp`
unfoldable pub updatetime : Timer → ℕ → List Node × Timer
updatetime T cp =
    if ltb cp T.current_point
    then ([], record T { current_point = cp })
    else (if cp == T.current_point
        then ([], T)
        else let diff = (cp - T.current_point) % u32 in
          update_times diff
            (record T { current_point = cp; current = (T.current + diff) % 2 ^ 64 }))

-- `skynet_timer_init`, at the real time in seconds and hundredths and at the monotonic time.
unfoldable pub timer_init : ℕ → ℕ → ℕ → Timer
timer_init sec cs point = record {
  near = λ j. [];
  t = λ i j. [];
  time = 0;
  starttime = sec;
  current = cs;
  current_point = point;
}
