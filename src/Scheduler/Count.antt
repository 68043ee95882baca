-- ===== src/Scheduler/Count.antt =====
-- Counting over the threads and over the global queue: who holds a message queue, who holds a
-- reference to a service, and who deletes it.
use skynet_gameserver.Prelude.{
  ℕ, zero, suc, ◌+◌, ◌≡◌, refl, List, [], ◌∷◌, ◌++◌, arith, ◌==◌, if◌then◌else◌,
}
unfoldable pub use skynet_gameserver.Prelude.Totals.{total}
pub use skynet_gameserver.Prelude.Totals.{total-snoc, total-set, le-total, add-le-total}
use skynet_gameserver.GlobalMq.Linked.{NotIn}
use skynet_gameserver.Scheduler.{
  Pc, After, done, fetch, enter, publish, retire, finished, idle, fetching, entered, measuring,
  asking, publishing, retiring, popping, handling, swapping, leaving, deleting, dying, launching,
  sending, workers, resume,
}

abbrev pub hit : ℕ → ℕ → ℕ
hit q p = if q == p then 1 else 0

-- Who holds the queue `p`, in order to dispatch it or to put it back into the global queue.
abbrev pub held_after : ℕ → After → ℕ
held_after p done = 0
held_after p fetch = 0
held_after p (enter q) = hit q p
held_after p (publish q) = hit q p
held_after p (retire q) = hit q p

abbrev pub held : ℕ → Pc → ℕ
held p finished = 0
held p idle = 0
held p fetching = 0
held p (entered q) = hit q p
held p (measuring q) = hit q p
held p (asking q) = hit q p
held p (publishing q) = hit q p
held p (retiring q) = hit q p
held p (popping q i n) = hit q p
held p (handling q i n) = hit q p
held p (swapping q nq) = hit q p + hit nq p
held p (leaving c k) = held_after p k
held p (deleting c k) = held_after p k
held p (dying q k) = hit q p + held_after p k
held p (launching q ok) = hit q p
held p (sending q m) = 0

-- Who holds a counted reference to the service `p`.
abbrev pub referring : ℕ → Pc → ℕ
referring p finished = 0
referring p idle = 0
referring p fetching = 0
referring p (entered q) = 0
referring p (measuring q) = hit q p
referring p (asking q) = hit q p
referring p (publishing q) = 0
referring p (retiring q) = 0
referring p (popping q i n) = hit q p
referring p (handling q i n) = hit q p
referring p (swapping q nq) = hit q p
referring p (leaving c k) = hit c p
referring p (deleting c k) = 0
referring p (dying q k) = 0
referring p (launching q ok) = hit q p
referring p (sending q m) = hit q p

abbrev pub deleter : ℕ → Pc → ℕ
deleter p (deleting c k) = hit c p
deleter p _ = 0

pub held-resume : (p : ℕ) (k : After) → held p (resume k) ≡ held_after p k
held-resume p done = refl
held-resume p fetch = refl
held-resume p (enter q) = refl
held-resume p (publish q) = refl
held-resume p (retire q) = refl

pub referring-resume : (p : ℕ) (k : After) → referring p (resume k) ≡ 0
referring-resume p done = refl
referring-resume p fetch = refl
referring-resume p (enter q) = refl
referring-resume p (publish q) = refl
referring-resume p (retire q) = refl

pub deleter-resume : (p : ℕ) (k : After) → deleter p (resume k) ≡ 0
deleter-resume p done = refl
deleter-resume p fetch = refl
deleter-resume p (enter q) = refl
deleter-resume p (publish q) = refl
deleter-resume p (retire q) = refl

abbrev pub count : ℕ → List ℕ → ℕ
count p [] = 0
count p (x ∷ l) = hit x p + count p l

pub count-snoc : (p : ℕ) (l : List ℕ) (x : ℕ) → count p (l ++ x ∷ []) ≡ count p l + hit x p
count-snoc p [] x = omega arith
count-snoc p (y ∷ l) x = omega (arith, count-snoc p l x)

pub NotIn-count : (p : ℕ) (l : List ℕ) → count p l ≡ 0 → NotIn p l
NotIn-count p [] e = tt
NotIn-count p (x ∷ l) e = (ground arith, NotIn-count p l (omega arith))

pub total-workers : (f : Pc → ℕ) (n : ℕ) → f idle ≡ 0 → total f (workers n) ≡ 0
total-workers f zero e = refl
total-workers f (suc n) e = omega (arith, e, total-workers f n e)
