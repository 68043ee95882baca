-- ===== src/GlobalMq/Linked.antt =====
-- The linked list of the global queue is a first-in first-out list of distinct message queues.
use skynet_gameserver.Prelude.{
  ℕ, ◌≡◌, ◌≢◌, refl, sym, Option, none, some, List, [], ◌∷◌, ◌++◌, arith,
}
use skynet_gameserver.GlobalMq.{GlobalQueue, update, init, globalmq_push, globalmq_pop}

abbrev pub first_of : List ℕ → Option ℕ
first_of [] = none
first_of (x ∷ l) = some x

abbrev pub last_of : List ℕ → Option ℕ
last_of [] = none
last_of (x ∷ []) = some x
last_of (x ∷ y ∷ l) = last_of (y ∷ l)

abbrev pub NotIn : ℕ → List ℕ → Type 0
NotIn x [] = Unit {0}
NotIn x (y ∷ l) = (x ≢ y) × NotIn x l

abbrev pub Distinct : List ℕ → Type 0
Distinct [] = Unit {0}
Distinct (x ∷ l) = NotIn x l × Distinct l

-- Each node points to the one behind it, and the last to none.
abbrev pub Links : (ℕ → Option ℕ) → List ℕ → Type 0
Links next [] = Unit {0}
Links next (x ∷ l) = (next x ≡ first_of l) × Links next l

-- The pointers form the list `l`, and every queue outside it has no successor.
pub record Represents (g : GlobalQueue) (l : List ℕ) : Type 0 where
  pub first : g.head ≡ first_of l
  pub last : g.tail ≡ last_of l
  pub linked : Links g.next l
  pub outside : (x : ℕ) → NotIn x l → g.next x ≡ none
  pub distinct : Distinct l

last-ne : (x t : ℕ) (l : List ℕ) → NotIn x l → last_of l ≡ some t → x ≢ t
last-ne x t [] n e = absurd (cc)
last-ne x t (y ∷ []) n e = λ h. n.0 (cc)
last-ne x t (y ∷ z ∷ l) n e = last-ne x t (z ∷ l) n.1 e

Links-update :
    (next : ℕ → Option ℕ) (t : ℕ) (v : Option ℕ) (l : List ℕ)
    → NotIn t l
    → Links next l
    → Links (update next t v) l
Links-update next t v [] n h = tt
Links-update next t v (x ∷ l) n h = (ground (arith, n.0), Links-update next t v l n.1 h.1)

Links-snoc :
    (next : ℕ → Option ℕ) (t q : ℕ) (l : List ℕ)
    → last_of l ≡ some t
    → Distinct l
    → NotIn q l
    → next q ≡ none
    → Links next l
    → Links (update next t (some q)) (l ++ q ∷ [])
Links-snoc next t q [] e d n z h = absurd (cc)
Links-snoc next t q (x ∷ []) e d n z h = ground (arith, n.0)
Links-snoc next t q (x ∷ y ∷ l) e d n z h =
    (ground (arith, last-ne x t (y ∷ l) d.0 e, h.0), Links-snoc next t q (y ∷ l) e d.1 n.1 z h.1)

NotIn-snoc : (x q : ℕ) (l : List ℕ) → NotIn x (l ++ q ∷ []) → NotIn x l × (x ≢ q)
NotIn-snoc x q [] n = (tt, n.0)
NotIn-snoc x q (y ∷ l) n = let r = NotIn-snoc x q l n.1 in ((n.0, r.0), r.1)

snoc-NotIn : (x q : ℕ) (l : List ℕ) → NotIn x l → x ≢ q → NotIn x (l ++ q ∷ [])
snoc-NotIn x q [] n e = (e, tt)
snoc-NotIn x q (y ∷ l) n e = (n.0, snoc-NotIn x q l n.1 e)

Distinct-snoc : (q : ℕ) (l : List ℕ) → NotIn q l → Distinct l → Distinct (l ++ q ∷ [])
Distinct-snoc q [] n d = (tt, tt)
Distinct-snoc q (x ∷ l) n d = (snoc-NotIn x q l d.0 (λ e. n.0 (sym e)), Distinct-snoc q l n.1 d.1)

last_of-snoc : (q : ℕ) (l : List ℕ) → last_of (l ++ q ∷ []) ≡ some q
last_of-snoc q [] = refl
last_of-snoc q (x ∷ []) = refl
last_of-snoc q (x ∷ y ∷ l) = last_of-snoc q (y ∷ l)

pub init-Represents : Represents init []
unfolding init
init-Represents = record {
  first = refl;
  last = refl;
  linked = tt;
  outside = λ x n. refl;
  distinct = tt;
}

last_some : (x : ℕ) (l : List ℕ) → (t : ℕ) × (last_of (x ∷ l) ≡ some t)
last_some x [] = (x, refl)
last_some x (y ∷ l) = last_some y l

-- `skynet_globalmq_push` of a queue that is not in the list succeeds and puts it at the end.
pub push-Represents :
    (g : GlobalQueue) (l : List ℕ) (q : ℕ)
    → Represents g l
    → NotIn q l
    → (g' : GlobalQueue) × (globalmq_push g q ≡ some g') × Represents g' (l ++ q ∷ [])
unfolding globalmq_push
push-Represents g [] q r n = (
  record g { head = some q; tail = some q },
  ground (arith, r.outside q tt, r.last),
  record {
    first = refl;
    last = refl;
    linked = (r.outside q tt, tt);
    outside = λ y m. r.outside y tt;
    distinct = (tt, tt);
  },
)
push-Represents g (x ∷ l) q r n =
    let (t, e) = last_some x l in
    (
      record g { next = update g.next t (some q); tail = some q },
      ground (arith, r.outside q n, r.last, e),
      record {
        first = r.first;
        last = sym (last_of-snoc q (x ∷ l));
        linked = Links-snoc g.next t q (x ∷ l) e r.distinct n (r.outside q n) r.linked;
        outside = λ y m.
            let k = (NotIn-snoc y q (x ∷ l) m).0 in
            ground (arith, last-ne y t (x ∷ l) k e, r.outside y k);
        distinct = Distinct-snoc q (x ∷ l) n r.distinct;
      },
    )

-- `skynet_globalmq_pop` takes the first queue of a list, and clears its `next`.
pub pop-Represents :
    (g : GlobalQueue) (x : ℕ) (l : List ℕ)
    → Represents g (x ∷ l)
    → (g' : GlobalQueue) × (globalmq_pop g ≡ some (some x, g')) × Represents g' l
unfolding globalmq_pop
pop-Represents g x [] r = (
  record { head = none; tail = none; next = update g.next x none },
  ground (arith, r.first, r.last, r.linked.0),
  record {
    first = refl;
    last = refl;
    linked = tt;
    outside = λ y n. ground (arith, λ (m : y ≢ x). r.outside y (m, tt));
    distinct = tt;
  },
)
pop-Represents g x (y ∷ l) r = (
  record g { head = some y; next = update g.next x none },
  ground (arith, r.first, r.linked.0),
  record {
    first = refl;
    last = r.last;
    linked = Links-update g.next x none (y ∷ l) r.distinct.0 r.linked.1;
    outside = λ z n. ground (arith, λ (m : z ≢ x). r.outside z (m, n));
    distinct = r.distinct.1;
  },
)

pub pop-Represents_empty : (g : GlobalQueue) → Represents g [] → globalmq_pop g ≡ some (none, g)
unfolding globalmq_pop
pop-Represents_empty g r = ground (arith, r.first)
