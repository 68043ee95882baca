-- ===== src/Scheduler/Invariant.antt =====
-- The invariant of the scheduler: for each service, how its flags, its reference count and the
-- threads that hold it go together.
use skynet_gameserver.Prelude.{
  ℕ, ◌+◌, ◌≤◌, ◌<◌, ◌≡◌, ◌≢◌, refl, Bool, true, false, List, arith, ◌==◌, if◌then◌else◌,
}
use skynet_gameserver.Mq.{MessageQueue}
use skynet_gameserver.GlobalMq.Linked.{Represents}
use skynet_gameserver.Scheduler.{World, Pc, Status, unborn, alive, freed}
use skynet_gameserver.Scheduler.Count.{total, held, referring, deleter, count, hit}
use skynet_gameserver.Scheduler.Queues.{IsFlagged}

abbrev pub bit : Bool → ℕ
bit true = 1
bit false = 0

-- A queue flagged as in the global queue, or marked for release, has one holder, and no other has.
abbrev pub need : MessageQueue → ℕ
need q = if q.in_global == 0 then q.release else 1

-- `holders` counts the places of the global queue and the threads that hold the queue, `others` the
-- references that threads hold, `deleters` the threads that delete the service.
pub record Alive (q : MessageQueue) (registered : Bool) (refs holders others deleters : ℕ)
    : Type 0 where
  pub flagged : IsFlagged q
  pub one_holder : holders ≡ need q
  pub counted : refs ≡ bit registered + others
  pub deleted_once : deleters + q.release ≡ (if refs == 0 then 1 else 0)

pub record Dead (registered : Bool) (refs holders others deleters : ℕ) : Type 0 where
  pub hidden : registered ≡ false
  pub uncounted : refs ≡ 0
  pub no_holder : holders ≡ 0
  pub no_reference : others ≡ 0
  pub no_deleter : deleters ≡ 0

abbrev pub Facts : Status → MessageQueue → Bool → ℕ → ℕ → ℕ → ℕ → Type 0
Facts alive q b n h r d = Alive q b n h r d
Facts unborn q b n h r d = Dead b n h r d
Facts freed q b n h r d = Dead b n h r d

-- The facts about service `p`, with what one thread holds set apart from what the others hold.
abbrev pub Local : World → List ℕ → Pc → (ℕ → ℕ) → (ℕ → ℕ) → (ℕ → ℕ) → ℕ → Type 0
Local w l pc h r d p =
    Facts (w.status p) (w.queues p) (w.registered p) (w.refs p) (count p l + held p pc + h p)
      (referring p pc + r p) (deleter p pc + d p)

pub record Inv (w : World) (l : List ℕ) : Type 0 where
  pub listed : Represents w.global l
  pub facts :
      (p : ℕ)
      → Facts
          (w.status p)
          (w.queues p)
          (w.registered p)
          (w.refs p)
          (count p l + total (held p) w.threads)
          (total (referring p) w.threads)
          (total (deleter p) w.threads)

pub Facts-eq :
    (s : Status) (q : MessageQueue) (b : Bool) (n h h' r r' d d' : ℕ)
    → h ≡ h'
    → r ≡ r'
    → d ≡ d'
    → Facts s q b n h r d
    → Facts s q b n h' r' d'
Facts-eq s q b n h h' r r' d d' e e' e'' f = rw (← e, ← e', ← e'') f

-- Whatever is held, counted or deleted is alive.
pub alive_of_held :
    (s : Status) (q : MessageQueue) (b : Bool) (n h r d : ℕ)
    → 0 < h + r + d
    → Facts s q b n h r d
    → s ≡ alive
alive_of_held alive q b n h r d k f = refl
alive_of_held unborn q b n h r d k f = absurd (omega arith)
alive_of_held freed q b n h r d k f = absurd (omega arith)

pub alive_of_registered :
    (s : Status) (q : MessageQueue) (b : Bool) (n h r d : ℕ)
    → b ≡ true
    → Facts s q b n h r d
    → s ≡ alive
alive_of_registered alive q b n h r d k f = refl
alive_of_registered unborn q b n h r d k f = absurd (cc (f.hidden))
alive_of_registered freed q b n h r d k f = absurd (cc (f.hidden))

pub hit_self : (q : ℕ) → hit q q ≡ 1
hit_self q = ground arith

pub hit_ne : (q p : ℕ) → q ≢ p → hit q p ≡ 0
hit_ne q p h = ground arith

-- Whoever holds a queue is its only holder.
pub holders-le-one :
    (s : Status) (q : MessageQueue) (b : Bool) (n h r d : ℕ) → Facts s q b n h r d → h ≤ 1
holders-le-one alive q b n h r d f = ground (arith, f.one_holder, f.flagged.release_bit)
holders-le-one unborn q b n h r d f = omega (arith, f.no_holder)
holders-le-one freed q b n h r d f = omega (arith, f.no_holder)
