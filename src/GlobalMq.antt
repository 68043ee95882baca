-- ===== src/GlobalMq.antt =====
-- skynet/skynet-src/skynet_mq.c, the global queue: a linked list, through `queue->next`, of the
-- message queues that wait for a worker. A queue is named by its address. Each function runs under
-- the lock of the global queue; a failed assertion is `none`.
pub mod Linked
mod Tests
use skynet_gameserver.Prelude.{ℕ, Bool, Option, none, some, List, [], ◌∷◌, ◌==◌, if◌then◌else◌}

pub record GlobalQueue : Type 0 where
  pub head : Option ℕ
  pub tail : Option ℕ
  pub next : ℕ → Option ℕ

abbrev pub update : (ℕ → Option ℕ) → ℕ → Option ℕ → ℕ → Option ℕ
update next q v p = if q == p then v else next p

-- `skynet_mq_init`; `skynet_mq_create` sets `next` of each queue to NULL.
unfoldable pub init : GlobalQueue
init = record { head = none; tail = none; next = λ q. none }

-- `assert(queue->next == NULL)` and the like.
abbrev pub is_null : Option ℕ → Bool
is_null none = Bool.true
is_null (some p) = Bool.false

append : Option ℕ → GlobalQueue → ℕ → GlobalQueue
append none g q = record g { head = some q; tail = some q }
append (some t) g q = record g { next = update g.next t (some q); tail = some q }

-- `skynet_globalmq_push`
unfoldable pub globalmq_push : GlobalQueue → ℕ → Option GlobalQueue
unfolding append
globalmq_push g q = if is_null (g.next q) then some (append g.tail g q) else none

-- `assert(mq == q->tail)`
abbrev pub points_to : Option ℕ → ℕ → Bool
points_to none p = Bool.false
points_to (some t) p = t == p

unlink : Option ℕ → GlobalQueue → ℕ → Option GlobalQueue
unlink none g mq =
    if points_to g.tail mq
    then some (record { head = none; tail = none; next = update g.next mq none })
    else none
unlink (some p) g mq = some (record g { head = some p; next = update g.next mq none })

take_first : Option ℕ → GlobalQueue → Option (Option ℕ × GlobalQueue)
take_first none g = some (none, g)
take_first (some mq) g = elim (unlink (g.next mq) g mq) [
  | none ↦ none
  | some g' ↦ some (some mq, g')
]

-- `skynet_globalmq_pop`
unfoldable pub globalmq_pop : GlobalQueue → Option (Option ℕ × GlobalQueue)
unfolding unlink take_first
globalmq_pop g = take_first g.head g
