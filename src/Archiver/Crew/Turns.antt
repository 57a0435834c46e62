-- ===== src/Archiver/Crew/Turns.antt =====
-- The rounds of the loop keep the workers in order: no round looks for a worker in vain.
use trajproxy.Base.{
  ℕ, zero, suc, ◌+◌, ◌≡◌, refl, Bool, Option, none, some, List, [], ◌∷◌, ◌++◌, append_assoc,
  append-nil, ◌==◌, nat_eq, leb, tally, tally-append, arith, Bool-cases, Option-cases, inl, inr, ap,
}
use trajproxy.Archiver.{
  Entry, Task, Run, fail, count_failure, count_rebuild, with_pending, retry_or_fail, own_error,
  drop_exceeded, assign_each,
}
use trajproxy.Archiver.Rounds.{
  Reply, result, died, raised, Event, pick, entry, cancel_each, give_up, try_again, on_death,
  assign_next, archived, on_done, Round, again, left, crashed, going, after_assign, wait_round,
}
use trajproxy.Archiver.Crew.{
  Crew, SameCrew, same-Crew, SameCrew-retry, rebuild-Crew, submit-Crew, none-Crew, has_task, tasks,
}
use trajproxy.Archiver.Crew.Passes.{PassesWell, assign-PassesWell}

pub tally-pick :
    (f : Task → ℕ) (n : ℕ) (t : Task) (ts : List Task)
    → f (pick n t ts).0 + tally f (pick n t ts).1 ≡ f t + tally f ts
unfolding pick
tally-pick f zero t ts = refl
tally-pick f (suc n) t [] = refl
tally-pick f (suc n) t (u ∷ ts) = omega (arith, tally-pick f n u ts)

-- `r` with the tasks `ts` too
abbrev pub and_tasks : List Task → Run → Run
and_tasks ts r = record r { active = r.active ++ ts }

fewer-Crew :
    (t : Task) (ts : List Task) (free : List ℕ) (r : Run)
    → Crew free (and_tasks (t ∷ ts) r)
    → Crew free (and_tasks ts r)
fewer-Crew t ts free r k = record {
  busy = λ v. omega (
    arith,
    k.busy v,
    tally-append {0} (has_task v) r.active (t ∷ ts),
    tally-append {0} (has_task v) r.active ts,
  );
  distinct = k.distinct;
  ahead = k.ahead;
}

same_and_tasks :
    (ts : List Task) (r r' : Run) → SameCrew r r' → SameCrew (and_tasks ts r) (and_tasks ts r')
same_and_tasks ts r r' (a, b, c) = (rw a refl, b, c)

cancel-Crew :
    (f : Entry → Run → Run)
    → ((e : Entry) (r : Run) → SameCrew r (f e r))
    → (worker : ℕ) (ts : List Task) (free : List ℕ) (r : Run) → Crew free (and_tasks ts r)
    → Crew free (cancel_each f worker ts r)
unfolding cancel_each
cancel-Crew f h worker [] free r k = rw (← append-nil r.active) k
cancel-Crew f h worker (t ∷ ts) free r k = elim (Bool-cases (t.worker == worker)) [
  | inl e ↦
      rw (e, cancel_each)
        (cancel-Crew f h worker ts free (f (entry t) r) (
          same-Crew free (and_tasks ts r) (and_tasks ts (f (entry t) r))
            (same_and_tasks ts r (f (entry t) r) (h (entry t) r)) (fewer-Crew t ts free r k)))
  | inr e ↦
      rw (e, cancel_each)
        (cancel-Crew f h worker ts free (record r { active = r.active ++ t ∷ [] })
          (rw (append_assoc r.active (t ∷ []) ts) k))
]

pub SameCrew-try : (e : Entry) (r : Run) → SameCrew r (try_again e r)
unfolding count_failure
SameCrew-try e r = SameCrew-retry e (count_failure e.1 r)

-- The worker of the task that is taken out is free.
on_death-PassesWell :
    (limit : ℕ) (t : Task) (r : Run) → Crew (t.worker ∷ []) r → PassesWell (on_death limit t r)
unfolding on_death count_rebuild count_failure fail
on_death-PassesWell limit t r k =
    let counted = count_failure t.session (count_rebuild r) in
    let kc : Crew (t.worker ∷ []) counted =
      same-Crew (t.worker ∷ []) r counted (refl, refl, refl) k in
    elim (Bool-cases (leb limit counted.consecutive_rebuilds)) [
      | inl b ↦
          let given_up = give_up (entry t) counted in
          rw (b, on_death)
            (cancel-Crew give_up (λ e r'. (refl, refl, refl)) t.worker given_up.active []
              (record given_up { active = [] })
              (same-Crew [] counted given_up (refl, refl, refl)
                (none-Crew (t.worker ∷ []) counted kc)))
      | inr b ↦
          let (rebuilt, f, kr, c) = rebuild-Crew t.worker [] counted kc in
          let retried = retry_or_fail (entry t) rebuilt in
          rw (b, f, on_death)
            (cancel-Crew try_again SameCrew-try t.worker retried.active []
              (record retried { active = [] })
              (same-Crew [] rebuilt retried (SameCrew-retry (entry t) rebuilt) kr))
    ]

assign_next-PassesWell :
    (limit : ℕ) (accepted : Bool) (w : ℕ) (r : Run)
    → Crew (w ∷ []) r
    → PassesWell (assign_next limit accepted w r)
unfolding assign_next count_rebuild fail
assign_next-PassesWell limit accepted w r k = go r.pending refl
  where
    go : (p : List Entry) → r.pending ≡ p → PassesWell (assign_next limit accepted w r)
    go [] q = rw (q, assign_next) (none-Crew (w ∷ []) r k)
    go (e ∷ es) q =
        let taken = with_pending es r in
        let kt : Crew (w ∷ []) taken = same-Crew (w ∷ []) r taken (refl, refl, refl) k in
        let broken = count_rebuild taken in
        let kb : Crew (w ∷ []) broken = same-Crew (w ∷ []) r broken (refl, refl, refl) k in
        elim (Bool-cases accepted) [
          | inl a ↦ rw (q, assign_next) (rw a (submit-Crew w e [] taken kt))
          | inr a ↦ elim (Bool-cases (leb limit broken.consecutive_rebuilds)) [
            | inl b ↦
                rw (q, assign_next)
                  (rw (a, b)
                    (same-Crew [] broken (give_up e broken) (refl, refl, refl)
                      (none-Crew (w ∷ []) broken kb)))
            | inr b ↦
                let (r', f, k', c) = rebuild-Crew w [] broken kb in
                rw (q, assign_next)
                  (rw (a, b, f) (same-Crew [] r' (try_again e r') (SameCrew-try e r') k'))
          ]
        ]

on_done-PassesWell :
    (limit : ℕ) (reply : Reply) (accepted : Bool) (t : Task) (r : Run)
    → Crew (t.worker ∷ []) r
    → PassesWell (on_done limit reply accepted t r)
unfolding on_done archived fail
on_done-PassesWell limit (result a) accepted t r k =
    assign_next-PassesWell limit accepted t.worker (archived a t r)
      (same-Crew (t.worker ∷ []) r (archived a t r) (refl, refl, refl) k)
on_done-PassesWell limit died accepted t r k = on_death-PassesWell limit t r k
on_done-PassesWell limit raised accepted t r k =
    same-Crew [] r (fail (entry t) own_error r) (refl, refl, refl) (none-Crew (t.worker ∷ []) r k)

-- The round does not end in an `IndexError`, and leaves the workers in order.
abbrev pub TurnsWell : Round → Type 0
TurnsWell crashed = ⊥
TurnsWell (again r) = Crew [] r
TurnsWell (left r) = Crew [] r

going-TurnsWell : (o : Option Run) → PassesWell o → TurnsWell (going o)
going-TurnsWell none h = h
going-TurnsWell (some r) h = h

after-TurnsWell : (limit : ℕ) (o : Option Run) → PassesWell o → TurnsWell (after_assign limit o)
unfolding after_assign drop_exceeded
after-TurnsWell limit none h = h
after-TurnsWell limit (some r) h = elim (Bool-cases (leb limit r.consecutive_rebuilds)) [
  | inl b ↦ rw (b, after_assign) h
  | inr b ↦ rw (b, after_assign) (same-Crew [] r (drop_exceeded r) (refl, refl, refl) h)
]

pub wait_round-TurnsWell :
    (limit : ℕ) (ev : Event) (ts : List Task) (r : Run)
    → r.active ≡ ts
    → Crew [] r
    → TurnsWell (wait_round limit ev ts r)
unfolding wait_round
wait_round-TurnsWell limit ev [] r q k =
    after-TurnsWell limit (assign_each limit ev.accepts 0 r.available_workers r) (
      assign-PassesWell limit ev.accepts r.available_workers 0 r
        (record { busy = λ w. rw q (omega arith); distinct = k.distinct; ahead = k.ahead }))
wait_round-TurnsWell limit ev (t ∷ ts) r q k = elim (Option-cases ev.done) [
  | inl d ↦ rw (d, wait_round) k
  | inr (n, d) ↦
      let done = (pick n t ts).0 in
      let rest = record r { active = (pick n t ts).1 } in
      rw (d, wait_round)
        (going-TurnsWell (on_done limit ev.reply (ev.accepts 0) done rest) (
          on_done-PassesWell limit ev.reply (ev.accepts 0) done rest (record {
            busy = λ w. omega (arith, k.busy w, tally-pick (has_task w) n t ts, ap (tasks w) q);
            distinct = k.distinct;
            ahead = k.ahead;
          })))
]
