-- ===== src/Archiver/Work/Turns.antt =====
-- Every round in which a task is done, or sessions are assigned, leaves less work.
use trajproxy.Base.{
  ℕ, ◌+◌, ◌-◌, ◌*◌, ◌≤◌, ◌≡◌, refl, Bool, List, [], ◌∷◌, ◌++◌, append_assoc, append-nil, ◌==◌,
  nat_eq, string_eq, option_eq, ltb, leb, tally, tally-append, arith, ap, Bool-cases, inl, inr,
}
use trajproxy.Archiver.{
  Session, Entry, Task, Reason, Run, submit, put_back, fail, count_failure, fail_count,
  retry_or_fail, max_session_retries, count_rebuild, with_pending, below_limit, rebuild_limit,
  retries_exceeded,
}
use trajproxy.Archiver.Rounds.{entry, cancel_each, give_up, try_again, on_death, assign_next}
use trajproxy.Archiver.Crew.Turns.{and_tasks}
use trajproxy.Archiver.Work.{
  equal_refl, chances, waits, runs, work, FewerChances, chances-count, FewerChances-count,
  chances_left, rebuilt, rebuild-cases,
}
use trajproxy.Archiver.Work.Filling.{AtMost}
use trajproxy.Archiver.Work.Passes.{due, fewer_waits, fewer_runs}

-- What is dropped after a pass weighs nothing, and what stays has a chance left.
pub below_limit-work :
    (r : Run) (es : List Entry)
    → tally (waits r.session_fail_counts) (below_limit r es) ≤ tally (due r.session_fail_counts) es
unfolding below_limit
below_limit-work r [] = omega arith
below_limit-work r (e ∷ es) = elim (Bool-cases (ltb (fail_count e.1 r) max_session_retries)) [
  | inl a ↦ rw (a, below_limit) (omega (arith, below_limit-work r es, chances_left e.1 r a))
  | inr a ↦ rw (a, below_limit) (omega (arith, below_limit-work r es))
]

-- A task that is given up or tried again weighs less than before.
record Settles (e : Entry) (n : ℕ) (r r' : Run) : Type 0 where
  active : r'.active ≡ r.active
  chance : FewerChances r r'
  waiting :
      tally (waits r'.session_fail_counts) r'.pending
      ≤ tally (waits r.session_fail_counts) r.pending + n

fail-Settles : (e : Entry) (n : ℕ) (why : Reason) (r : Run) → Settles e n r (fail e why r)
unfolding fail
fail-Settles e n why r = record { active = refl; chance = λ s. omega arith; waiting = omega arith }

-- A session whose failure has been counted is put back only if a chance is left.
retry-Settles :
    (e : Entry) (n : ℕ) (r : Run)
    → (1 ≤ chances r.session_fail_counts e.1 → 2 * chances r.session_fail_counts e.1 + 2 ≤ n)
    → Settles e n r (retry_or_fail e r)
unfolding retry_or_fail put_back
retry-Settles e n r h = elim (Bool-cases (ltb (fail_count e.1 r) max_session_retries)) [
  | inl a ↦
      rw (a, retry_or_fail)
        (record {
          active = refl;
          chance = λ s. omega arith;
          waiting = omega (
            arith,
            tally-append {0} (waits r.session_fail_counts) r.pending (e ∷ []),
            h (chances_left e.1 r a),
          );
        })
  | inr a ↦ rw (a, retry_or_fail) (fail-Settles e n retries_exceeded r)
]

-- The chances of a session after a failure that is counted.
spent :
    (s : Session) (r : Run)
    → chances (count_failure s r).session_fail_counts s ≡ chances r.session_fail_counts s - 1
spent s r = ground (arith, chances-count s s r, equal_refl s)

try-Settles :
    (e : Entry) (r : Run) → Settles e (2 * chances r.session_fail_counts e.1 + 1) r (try_again e r)
unfolding count_failure
try-Settles e r =
    let counted = count_failure e.1 r in
    let h =
      retry-Settles e (2 * chances r.session_fail_counts e.1) counted
        (λ p. omega (arith, spent e.1 r, p)) in
    record {
      active = h.active;
      chance = λ s. omega (arith, h.chance s, FewerChances-count e.1 r s);
      waiting =
          omega (arith, h.waiting, fewer_waits r counted (FewerChances-count e.1 r) r.pending);
    }

cancel-work :
    (f : Entry → Run → Run)
    → ((e : Entry) (r : Run) → Settles e (2 * chances r.session_fail_counts e.1 + 1) r (f e r))
    → (worker : ℕ) (ts : List Task) (r : Run)
    → work (cancel_each f worker ts r) ≤ work (and_tasks ts r)
unfolding cancel_each
cancel-work f h worker [] r = rw (append-nil r.active) (omega arith)
cancel-work f h worker (t ∷ ts) r = elim (Bool-cases (t.worker == worker)) [
  | inl e ↦
      let r' = f (entry t) r in
      let g = h (entry t) r in
      rw (e, cancel_each)
        (omega (
          arith,
          cancel-work f h worker ts r',
          g.waiting,
          ap (λ (a : List Task). tally (runs r'.session_fail_counts) (a ++ ts)) (g.active),
          fewer_runs r r' (g.chance) (r.active ++ ts),
          tally-append {0} (runs r.session_fail_counts) r.active ts,
          tally-append {0} (runs r.session_fail_counts) r.active (t ∷ ts),
        ))
  | inr e ↦
      rw (e, cancel_each, ← append_assoc r.active (t ∷ []) ts)
        (cancel-work f h worker ts (record r { active = r.active ++ t ∷ [] }))
]

settled-work : (e : Entry) (n : ℕ) (r r' : Run) → Settles e n r r' → work r' ≤ work r + n
settled-work e n r r' h = omega (
  arith,
  h.waiting,
  ap (tally (runs r'.session_fail_counts)) (h.active),
  fewer_runs r r' (h.chance) r.active,
)

pub on_death-AtMost :
    (limit : ℕ) (t : Task) (r : Run)
    → AtMost (work r + 2 * chances r.session_fail_counts t.session) (on_death limit t r)
unfolding on_death count_rebuild count_failure
on_death-AtMost limit t r =
    let counted = count_failure t.session (count_rebuild r) in
    let fewer = FewerChances-count t.session (count_rebuild r) in
    let light : work counted ≤ work r =
      omega (arith, fewer_waits r counted fewer r.pending, fewer_runs r counted fewer r.active) in
    elim (Bool-cases (leb limit counted.consecutive_rebuilds)) [
      | inl b ↦
          let given_up = give_up (entry t) counted in
          let g = fail-Settles (entry t) 0 rebuild_limit counted in
          rw (b, on_death)
            (omega (
              arith,
              light,
              cancel-work give_up
                  (λ e r'.
                    fail-Settles e (2 * chances r'.session_fail_counts e.1 + 1) rebuild_limit r')
                  t.worker given_up.active (record given_up { active = [] }),
              settled-work (entry t) 0 counted given_up g,
            ))
      | inr b ↦ elim (rebuild-cases t.worker counted) [
        | inl g ↦ rw (b, g, on_death) tt
        | inr (new, g) ↦
            let retried = retry_or_fail (entry t) (rebuilt new counted) in
            let n = 2 * chances r.session_fail_counts t.session in
            let h =
              retry-Settles (entry t) n (rebuilt new counted)
                (λ p. omega (arith, spent t.session (count_rebuild r), p)) in
            rw (b, g, on_death)
              (omega (
                arith,
                light,
                cancel-work try_again try-Settles t.worker retried.active
                    (record retried { active = [] }),
                settled-work (entry t) n (rebuilt new counted) retried h,
              ))
      ]
    ]

pub assign_next-AtMost :
    (b limit : ℕ) (accepted : Bool) (w : ℕ) (r : Run)
    → work r ≤ b
    → AtMost b (assign_next limit accepted w r)
unfolding assign_next count_rebuild submit
assign_next-AtMost b limit accepted w r h = go r.pending refl
  where
    go : (p : List Entry) → r.pending ≡ p → AtMost b (assign_next limit accepted w r)
    go [] q = rw (q, assign_next) h
    go (e ∷ es) q =
        let broken = count_rebuild (with_pending es r) in
        let weight = ap (tally (waits r.session_fail_counts)) q in
        elim (Bool-cases accepted) [
          | inl a ↦
              rw (q, assign_next)
                (rw a (
                  omega (
                    arith,
                    weight,
                    h,
                    tally-append {0} (runs r.session_fail_counts) r.active
                        (record { worker = w; session = e.1; idx = e.0 } ∷ []),
                  )))
          | inr a ↦ elim (Bool-cases (leb limit broken.consecutive_rebuilds)) [
            | inl f ↦
                rw (q, assign_next)
                  (rw (a, f)
                    (omega (
                      arith,
                      weight,
                      h,
                      settled-work e 0 broken (give_up e broken)
                          (fail-Settles e 0 rebuild_limit broken),
                    )))
            | inr f ↦ elim (rebuild-cases w broken) [
              | inl g ↦ rw (q, assign_next) (rw (a, f, g) tt)
              | inr (new, g) ↦
                  let r' = rebuilt new broken in
                  rw (q, assign_next)
                    (rw (a, f, g)
                      (omega (
                        arith,
                        weight,
                        h,
                        settled-work e (2 * chances r'.session_fail_counts e.1 + 1) r'
                            (try_again e r') (try-Settles e r'),
                      )))
            ]
          ]
        ]
