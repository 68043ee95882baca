-- ===== src/Scheduler/Release.antt =====
-- The steps by which a service goes away: the last reference, `delete_context`, `skynet_mq_release`.
use skynet_gameserver.Prelude.{
  ap, true, at, at_self, at_ne, ℕ, ◌-◌, ◌≡◌, refl, false, List, arith, ◌==◌, inl, inr, Bool-cases,
}
use skynet_gameserver.GlobalMq.{is_null}
use skynet_gameserver.GlobalMq.Linked.{Represents}
use skynet_gameserver.Scheduler.{
  World, freed, After, done, retire, retiring, leaving, deleting, dying, resume, retire_handle,
  drop_ref, delete, release_queue,
}
use skynet_gameserver.Scheduler.Count.{
  count, NotIn-count, held-resume, referring-resume, deleter-resume,
}
use skynet_gameserver.Scheduler.Queues.{release-IsFlagged, mark_release-eq}
use skynet_gameserver.Scheduler.Invariant.{Facts-eq, hit_self, hit_ne}
use skynet_gameserver.Scheduler.Goes.{
  Goes, enqueue-Goes, stay-Goes, alive_at, Alive-at, change-Goes,
}
use skynet_gameserver.Scheduler.QueueSteps.{Before, queue-Goes, enqueue_queue-Goes}

module _ (h r d : ℕ → ℕ) (w : World) (l : List ℕ) (rep : Represents w.global l) where
  pub drop_ref-Goes :
      (c : ℕ) (k : After) → Before h r d w l rep (leaving c k) → Goes h r d (drop_ref w c k)
  unfolding drop_ref
  drop_ref-Goes c k f =
      let e = alive_at h r d w l (leaving c k) c f (omega (arith, hit_self c)) in
      let a = Alive-at h r d w l (leaving c k) c e f in
      let w' = record w { refs = at w.refs c (w.refs c - 1) } in
      let some_ref : (w.refs c == 0) ≡ false = ground (arith, a.counted, hit_self c) in
      elim (Bool-cases (w.refs c == 1)) [
        | inl b ↦
            rw (some_ref, b)
              (change-Goes h r d w w' l (leaving c k) (deleting c k) c rep f
                (rw (e, at_self w.refs c)
                  (record {
                    flagged = a.flagged;
                    one_holder = a.one_holder;
                    counted = ground (arith, a.counted, hit_self c);
                    deleted_once = ground (arith, a.counted, a.deleted_once, hit_self c);
                  }))
                λ p ne. record {
                  status = refl;
                  queues = refl;
                  registered = refl;
                  refs = at_ne w.refs c _ p ne;
                  held_same = omega arith;
                  referring_same = omega (arith, hit_ne c p ne);
                  deleter_same = hit_ne c p ne;
                })
        | inr b ↦
            rw (some_ref, b)
              (change-Goes h r d w w' l (leaving c k) (resume k) c rep f
                (rw (e, at_self w.refs c)
                  (record {
                    flagged = a.flagged;
                    one_holder = omega (arith, a.one_holder, held-resume c k);
                    counted = ground (arith, a.counted, hit_self c, referring-resume c k);
                    deleted_once =
                        ground (arith, a.counted, a.deleted_once, hit_self c, deleter-resume c k);
                  }))
                λ p ne. record {
                  status = refl;
                  queues = refl;
                  registered = refl;
                  refs = at_ne w.refs c _ p ne;
                  held_same = omega (arith, held-resume p k);
                  referring_same = omega (arith, hit_ne c p ne, referring-resume p k);
                  deleter_same = deleter-resume p k;
                })
      ]

  pub delete-Goes :
      (c : ℕ) (k : After) → Before h r d w l rep (deleting c k) → Goes h r d (delete w c k)
  unfolding delete
  delete-Goes c k f =
      let e = alive_at h r d w l (deleting c k) c f (omega (arith, hit_self c)) in
      let a = Alive-at h r d w l (deleting c k) c e f in
      let unmarked = mark_release-eq (w.queues c) (ground (arith, a.deleted_once, hit_self c)) in
      let fl = release-IsFlagged (w.queues c) a.flagged in
      elim (Bool-cases ((w.queues c).in_global == 1)) [
        | inl b ↦
            rw (unmarked, delete, b)
              (queue-Goes h r d w l rep (deleting c k) (resume k) c
                (record (w.queues c) { release = 1 }) f e fl
                (ground (arith, a.one_holder, b, held-resume c k))
                (omega (arith, referring-resume c k))
                (ground (arith, a.deleted_once, hit_self c, deleter-resume c k))
                (λ p ne. (
                  held-resume p k,
                  referring-resume p k,
                  omega (arith, deleter-resume p k, hit_ne c p ne),
                )))
        | inr b ↦
            rw (unmarked, delete, b)
              (enqueue_queue-Goes h r d w l rep (deleting c k) (resume k) c
                (record (w.queues c) { release = 1 }) f e fl
                (ground (
                  arith,
                  a.one_holder,
                  a.deleted_once,
                  a.flagged.in_global_bit,
                  hit_self c,
                  held-resume c k,
                ))
                (omega (arith, referring-resume c k))
                (ground (arith, a.deleted_once, hit_self c, deleter-resume c k))
                (λ p ne. (
                  held-resume p k,
                  referring-resume p k,
                  omega (arith, deleter-resume p k, hit_ne c p ne),
                )))
      ]

  pub release_queue-Goes :
      (q : ℕ) (k : After) → Before h r d w l rep (dying q k) → Goes h r d (release_queue w q k)
  unfolding release_queue
  release_queue-Goes q k f =
      let e = alive_at h r d w l (dying q k) q f (omega (arith, hit_self q)) in
      let a = Alive-at h r d w l (dying q k) q e f in
      elim (Bool-cases ((w.queues q).release == 0)) [
        | inl b ↦ rw b (
            enqueue-Goes h r d w l q (resume k) rep λ p.
              Facts-eq (w.status p) (w.queues p) (w.registered p) (w.refs p) _ _ _ _ _ _
                (omega (arith, held-resume p k)) (omega (arith, referring-resume p k))
                (omega (arith, deleter-resume p k)) (f p))
        | inr b ↦
            (let no_place : count q l ≡ 0 =
                ground (arith, a.one_holder, a.flagged.release_bit, hit_self q) in
              let unlinked : is_null (w.global.next q) ≡ true =
                ap is_null (rep.outside q (NotIn-count q l no_place)) in
              rw (b, unlinked)
                (change-Goes h r d w (record w { status = at w.status q freed }) l (dying q k)
                  (resume k) q rep f
                  (rw (at_self w.status q freed) (record {
                    hidden = ground (arith, a.counted, a.deleted_once);
                    uncounted = ground (arith, a.deleted_once);
                    no_holder =
                        ground
                          (arith, a.one_holder, a.flagged.release_bit, hit_self q, held-resume q k);
                    no_reference = ground (arith, a.counted, a.deleted_once, referring-resume q k);
                    no_deleter = ground (arith, a.counted, a.deleted_once, deleter-resume q k);
                  }))
                  λ p ne. record {
                    status = at_ne w.status q freed p ne;
                    queues = refl;
                    registered = refl;
                    refs = refl;
                    held_same = omega (arith, hit_ne q p ne, held-resume p k);
                    referring_same = referring-resume p k;
                    deleter_same = deleter-resume p k;
                  }))
      ]

  pub retire_handle-Goes :
      (q : ℕ)
      → Before h r d w l rep (retiring q)
      → Goes h r d (retire_handle w q (leaving q (retire q)) (dying q done))
  unfolding retire_handle
  retire_handle-Goes q f =
      let e = alive_at h r d w l (retiring q) q f (omega (arith, hit_self q)) in
      let a = Alive-at h r d w l (retiring q) q e f in
      elim (Bool-cases (w.registered q)) [
        | inl b ↦ rw b (
            change-Goes h r d w (record w { registered = at w.registered q false }) l (retiring q)
              (leaving q (retire q)) q rep f
              (rw (e, at_self w.registered q false)
                (record {
                  flagged = a.flagged;
                  one_holder = a.one_holder;
                  counted = ground (arith, a.counted, b, hit_self q);
                  deleted_once = a.deleted_once;
                }))
              λ p ne. record {
                status = refl;
                queues = refl;
                registered = at_ne w.registered q false p ne;
                refs = refl;
                held_same = omega arith;
                referring_same = hit_ne q p ne;
                deleter_same = refl;
              })
        | inr b ↦
            rw b (
              stay-Goes h r d w l (retiring q) (dying q done) rep f
                (λ p. (omega arith, refl, refl)))
      ]
