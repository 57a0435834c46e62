-- ===== src/Archiver/Details/Health.antt =====
-- What the check of the workers leaves.
use trajproxy.Base.{ℕ, suc, ◌+◌, ◌≤◌, ◌<◌, ◌≡◌, refl, List, [], ◌∷◌, length, arith, ap}
use trajproxy.Archiver.Crew.{count, is_worker}
use trajproxy.Archiver.Work.Ending.{Fresh}
use trajproxy.Archiver.Details.{Pong, alive, dead, unknown, check_workers}

-- How often the actor `v` is in the list before and after, `next` and `n` being the actors to come.
record Replaces (v next n former new : ℕ) : Type 0 where
  later : next ≤ n
  older : v < next → new ≤ former
  created : next ≤ v → new ≤ former + 1
  to_come : n ≤ v → new ≤ former

-- A worker that is kept counts before and after.
same-Replaces :
    (v w next n former new : ℕ)
    → Replaces v next n former new
    → Replaces v next n (is_worker v w + former) (is_worker v w + new)
same-Replaces v w next n former new k = record {
  later = k.later;
  older = λ h. omega (arith, k.older h);
  created = λ h. omega (arith, k.created h);
  to_come = λ h. omega (arith, k.to_come h);
}

check-Replaces :
    (v : ℕ) (ping : ℕ → Pong) (next : ℕ) (workers : List ℕ)
    → (length (check_workers ping next workers).0 ≡ length workers)
      × Replaces v next
          (check_workers ping next workers).1
          (count v workers)
          (count v (check_workers ping next workers).0)
unfolding check_workers
check-Replaces v ping next [] = (
  refl,
  record {
    later = omega arith;
    older = λ h. omega arith;
    created = λ h. omega arith;
    to_come = λ h. omega arith;
  },
)
check-Replaces v ping next (w ∷ ws) =
    go (ping w) refl (check-Replaces v ping next ws) (check-Replaces v ping (suc next) ws)
  where
    Kept : ℕ → Type 0
    Kept n =
        (length (check_workers ping n ws).0 ≡ length ws)
        × Replaces v n (check_workers ping n ws).1 (count v ws)
            (count v (check_workers ping n ws).0)

    go :
        (p : Pong)
        → ping w ≡ p
        → Kept next
        → Kept (suc next)
        → (length (check_workers ping next (w ∷ ws)).0 ≡ suc (length ws))
          × Replaces v next
              (check_workers ping next (w ∷ ws)).1
              (count v (w ∷ ws))
              (count v (check_workers ping next (w ∷ ws)).0)
    go alive e (l, k) d =
        rw (e, check_workers) (ap (λ (n : ℕ). suc n) l, same-Replaces v w next _ _ _ k)
    go unknown e (l, k) d =
        rw (e, check_workers) (ap (λ (n : ℕ). suc n) l, same-Replaces v w next _ _ _ k)
    go dead e k (l, d) =
        rw (e, check_workers)
          (
            ap (λ (n : ℕ). suc n) l,
            record {
              later = omega (arith, d.later);
              older = λ h. ground (arith, h, d.older);
              created = λ h. ground (arith, h, d.older, d.created);
              to_come = λ h. ground (arith, h, d.later, d.to_come);
            },
          )

-- The check keeps the number of the workers, and leaves distinct actors that are older than the
-- actors to come, if they were so before.
pub check_workers-Fresh :
    (ping : ℕ → Pong) (next : ℕ) (workers : List ℕ)
    → Fresh workers next
    → (length (check_workers ping next workers).0 ≡ length workers)
      × Fresh (check_workers ping next workers).0 (check_workers ping next workers).1
check_workers-Fresh ping next workers h = (
  (check-Replaces 0 ping next workers).0,
  (
    (λ w.
        let k = (check-Replaces w ping next workers).1 in
        ground (arith, k.older, k.created, h.0 w, h.1 w)),
    λ w p.
        let k = (check-Replaces w ping next workers).1 in
        omega (arith, k.to_come p, h.1 w (omega (arith, k.later, p))),
  ),
)
