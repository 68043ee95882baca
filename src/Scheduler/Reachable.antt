-- ===== src/Scheduler/Reachable.antt =====
-- The invariant of the scheduler holds in every state that can be reached.
use skynet_gameserver.Prelude.{ℕ, refl, sym, ◌∙◌, Option, List, [], arith, subst, set}
use mathlib.Core.Option.{some-injective}
use skynet_gameserver.GlobalMq.Linked.{init-Represents}
use skynet_gameserver.Scheduler.{
  World, Pc, Step, moves, sends, retires, launches, start, Reach, starts, steps,
}
use skynet_gameserver.Scheduler.Count.{total-workers, held, referring, deleter}
use skynet_gameserver.Scheduler.Invariant.{Inv}
use skynet_gameserver.Scheduler.Moves.{moved-Inv, advance-Inv}
use skynet_gameserver.Scheduler.Spawn.{sends-Inv, retires-Inv, launches-Inv, Next}

pub Step-Inv :
    {weight : ℕ → Option ℕ} {w w' : World} (l : List ℕ) → Inv w l → Step weight w w' → Next w'
Step-Inv {weight} l v (moves w w' i pc pc' e a) =
    let (w₁, pc₁, l', b, rep, f) = advance-Inv (weight i) w l i pc v e in
    (
      l',
      subst (λ (m : World × Pc). Inv (record m.0 { threads = set w.threads i m.1 }) l')
          (some-injective (w₁, pc₁) (w', pc') (sym b ∙ a)) (moved-Inv w w₁ l l' i pc pc₁ e rep f),
    )
Step-Inv l v (sends w q m b) = (l, sends-Inv w l q m v b)
Step-Inv l v (retires w q b) = (l, retires-Inv w l q v b)
Step-Inv l v (launches w q ok b) = (l, launches-Inv w l q ok v b)

workers-Inv : (n : ℕ) → Inv (start n) []
unfolding start
workers-Inv n = record {
  listed = init-Represents;
  facts = λ p. record {
    hidden = refl;
    uncounted = refl;
    no_holder = omega (arith, total-workers (held p) n refl);
    no_reference = total-workers (referring p) n refl;
    no_deleter = total-workers (deleter p) n refl;
  };
}

pub Reach-Inv : {weight : ℕ → Option ℕ} {n : ℕ} {w : World} → Reach weight n w → Next w
Reach-Inv {n = n} starts = ([], workers-Inv n)
Reach-Inv (steps r s) = let (l, v) = Reach-Inv r in Step-Inv l v s
