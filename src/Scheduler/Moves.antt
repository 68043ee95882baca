-- ===== src/Scheduler/Moves.antt =====
-- A step of a thread keeps the invariant of the scheduler.
use skynet_gameserver.Prelude.{ℕ, ◌-◌, ◌≡◌, Option, some, List, arith, get_elem?, set}
use skynet_gameserver.GlobalMq.Linked.{Represents}
use skynet_gameserver.Scheduler.{World, Pc, advance}
use skynet_gameserver.Scheduler.Count.{total, total-set, le-total, held, referring, deleter}
use skynet_gameserver.Scheduler.Invariant.{Inv, Local, Facts-eq}
use skynet_gameserver.Scheduler.Goes.{Goes}
use skynet_gameserver.Scheduler.Steps.{advance-Goes}

-- The facts seen from the thread `pc`.
pub others : (f : ℕ → Pc → ℕ) (w : World) (pc : Pc) → ℕ → ℕ
others f w pc p = total (f p) w.threads - f p pc

pub Local-Inv :
    (w : World) (l : List ℕ) (i : ℕ) (pc : Pc)
    → Inv w l
    → get_elem? w.threads i ≡ some pc
    → (p : ℕ) → Local w l pc (others held w pc) (others referring w pc) (others deleter w pc) p
unfolding others
Local-Inv w l i pc v e p =
    Facts-eq (w.status p) (w.queues p) (w.registered p) (w.refs p) _ _ _ _ _ _
      (omega (arith, le-total (held p) w.threads i pc e))
      (omega (arith, le-total (referring p) w.threads i pc e))
      (omega (arith, le-total (deleter p) w.threads i pc e)) (v.facts p)

pub moved-Inv :
    (w w' : World) (l l' : List ℕ) (i : ℕ) (pc pc' : Pc)
    → get_elem? w.threads i ≡ some pc
    → Represents w'.global l'
    → ((p : ℕ) → Local w' l' pc' (others held w pc) (others referring w pc) (others deleter w pc) p)
    → Inv (record w' { threads = set w.threads i pc' }) l'
unfolding others
moved-Inv w w' l l' i pc pc' e rep f = record {
  listed = rep;
  facts = λ p.
      Facts-eq (w'.status p) (w'.queues p) (w'.registered p) (w'.refs p) _ _ _ _ _ _
        (omega (arith, total-set (held p) w.threads i pc pc' e, le-total (held p) w.threads i pc e))
        (omega (
          arith,
          total-set (referring p) w.threads i pc pc' e,
          le-total (referring p) w.threads i pc e,
        ))
        (omega (
          arith,
          total-set (deleter p) w.threads i pc pc' e,
          le-total (deleter p) w.threads i pc e,
        ))
        (f p);
}

pub advance-Inv :
    (weight : Option ℕ) (w : World) (l : List ℕ) (i : ℕ) (pc : Pc)
    → Inv w l
    → get_elem? w.threads i ≡ some pc
    → Goes (others held w pc) (others referring w pc) (others deleter w pc) (advance weight w pc)
advance-Inv weight w l i pc v e = advance-Goes _ _ _ weight w l v.listed pc (Local-Inv w l i pc v e)
