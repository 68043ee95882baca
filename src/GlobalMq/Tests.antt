-- ===== src/GlobalMq/Tests.antt =====
-- The global queue of skynet_mq.c with two queues, and its theorems there.
use skynet_gameserver.Prelude.{◌≡◌, refl, none, some, [], ◌∷◌, arith}
use skynet_gameserver.GlobalMq.{GlobalQueue, update, globalmq_push, globalmq_pop}
use skynet_gameserver.GlobalMq.Linked.{Represents, push-Represents, pop-Represents}

abbrev pair : GlobalQueue
pair = record { head = some 4; tail = some 6; next = update (λ q. none) 4 (some 6) }

pair-Represents : Represents pair (4 ∷ 6 ∷ [])
pair-Represents = record {
  first = refl;
  last = refl;
  linked = (refl, (refl, tt));
  outside = λ x n. ground (arith, n.0);
  distinct = omega arith;
}

pushed_once : (g : GlobalQueue) × (globalmq_push pair 9 ≡ some g) × (g.next 6 ≡ some 9)
unfolding globalmq_push
pushed_once = (_, refl, refl)

push-Represents_example :
    (g : GlobalQueue) × (globalmq_push pair 9 ≡ some g) × Represents g (4 ∷ 6 ∷ 9 ∷ [])
push-Represents_example = push-Represents pair (4 ∷ 6 ∷ []) 9 pair-Represents (omega arith)

pop-Represents_example :
    (g : GlobalQueue) × (globalmq_pop pair ≡ some (some 4, g)) × Represents g (6 ∷ [])
pop-Represents_example = pop-Represents pair 4 (6 ∷ []) pair-Represents
