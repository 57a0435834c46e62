-- ===== src/Archiver/Accounts/Turns.antt =====
-- The rounds of the loop keep every session of a run on the books.
use trajproxy.Base.{
  ℕ, ◌+◌, ◌≡◌, refl, Bool, Option, none, some, List, [], ◌∷◌, ◌++◌, ◌==◌, string_eq, nat_eq,
  append-nil, append_assoc, option_eq, leb, tally, tally-append, arith, ap, Bool-cases,
  Option-cases, inl, inr,
}
use trajproxy.Archiver.{
  Session, Entry, Task, Run, fail, count_failure, count_rebuild, with_pending, assign_each,
  retry_or_fail, rebuild_limit, own_error, drop_exceeded,
}
use trajproxy.Archiver.Rounds.{
  Reply, result, died, raised, Event, pick, entry, cancel_each, give_up, try_again, on_death,
  assign_next, archived, on_done, Round, again, left, crashed, going, after_assign, wait_round,
}
use trajproxy.Archiver.Crew.{SameCrew}
use trajproxy.Archiver.Crew.Turns.{tally-pick, and_tasks, SameCrew-try}
use trajproxy.Archiver.Work.{rebuilt, rebuild-cases}
use trajproxy.Archiver.Accounts.{
  is_session, of_entry, of_task, placed, failures, Moves, submit-Moves, fail-Moves, retry-Moves,
  PassMoves, assign-Moves,
}
use trajproxy.Archiver.Accounts.Dropping.{Accounted, drop-Accounted}
use trajproxy.Archiver.Accounts.Settling.{refl-Accounted, trans-Accounted, Moves-Accounted}

SameCrew-give_up : (e : Entry) (r : Run) → SameCrew r (give_up e r)
unfolding fail
SameCrew-give_up e r = (refl, refl, refl)

module _ (s : Session) where
  try-Moves : (e : Entry) (r : Run) → Moves s (of_entry s e) r (try_again e r)
  unfolding count_failure
  try-Moves e r =
      let m = retry-Moves s e (count_failure e.1 r) in record { total = m.total; grows = m.grows }

  cancel-Moves :
      (f : Entry → Run → Run)
      → ((e : Entry) (r : Run) → Moves s (of_entry s e) r (f e r))
      → ((e : Entry) (r : Run) → SameCrew r (f e r))
      → (worker : ℕ) (ts : List Task) (r : Run)
      → Moves s 0 (and_tasks ts r) (cancel_each f worker ts r)
  unfolding cancel_each
  cancel-Moves f h k worker [] r =
      rw (append-nil r.active) (record { total = omega arith; grows = omega arith })
  cancel-Moves f h k worker (t ∷ ts) r = elim (Bool-cases (t.worker == worker)) [
    | inl e ↦
        let r' = f (entry t) r in
        let m = h (entry t) r in
        let c = cancel-Moves f h k worker ts r' in
        let same = ap (λ (a : List Task). tally (of_task s) (a ++ ts)) ((k (entry t) r).0) in
        let former = ap (tally (of_task s)) ((k (entry t) r).0) in
        let before = tally-append {0} (of_task s) r.active ts in
        let all = tally-append {0} (of_task s) r.active (t ∷ ts) in
        rw (e, cancel_each)
          (record {
            total = omega (arith, m.total, c.total, same, former, before, all);
            grows = omega (arith, m.grows, c.grows);
          })
    | inr e ↦
        rw (e, cancel_each, ← append_assoc r.active (t ∷ []) ts)
          (cancel-Moves f h k worker ts (record r { active = r.active ++ t ∷ [] }))
  ]

  -- The task that is taken out is put back or recorded, and so are those that are cancelled.
  on_death-Moves :
      (limit : ℕ) (t : Task) (r : Run) → PassMoves s (of_task s t) r (on_death limit t r)
  unfolding on_death count_rebuild count_failure
  on_death-Moves limit t r =
      let counted = count_failure t.session (count_rebuild r) in
      elim (Bool-cases (leb limit counted.consecutive_rebuilds)) [
        | inl b ↦
            let m = fail-Moves s (entry t) rebuild_limit counted in
            let given_up = give_up (entry t) counted in
            let c =
              cancel-Moves give_up (λ e. fail-Moves s e rebuild_limit) SameCrew-give_up t.worker
                given_up.active (record given_up { active = [] }) in
            rw (b, on_death)
              (record {
                total = omega (arith, m.total, c.total);
                grows = omega (arith, m.grows, c.grows);
              })
        | inr b ↦ elim (rebuild-cases t.worker counted) [
          | inl g ↦ rw (b, g, on_death) tt
          | inr (new, g) ↦
              let m = retry-Moves s (entry t) (rebuilt new counted) in
              let retried = retry_or_fail (entry t) (rebuilt new counted) in
              let c =
                cancel-Moves try_again try-Moves SameCrew-try t.worker retried.active
                  (record retried { active = [] }) in
              rw (b, g, on_death)
                (record {
                  total = omega (arith, m.total, c.total);
                  grows = omega (arith, m.grows, c.grows);
                })
        ]
      ]

  assign_next-Moves :
      (limit : ℕ) (accepted : Bool) (w : ℕ) (r : Run)
      → PassMoves s 0 r (assign_next limit accepted w r)
  unfolding assign_next count_rebuild
  assign_next-Moves limit accepted w r = go r.pending refl
    where
      go : (p : List Entry) → r.pending ≡ p → PassMoves s 0 r (assign_next limit accepted w r)
      go [] q =
          rw (q, assign_next)
            (record { total = omega (arith, ap (tally (of_entry s)) q); grows = omega arith })
      go (e ∷ es) q =
          let taken = with_pending es r in
          let broken = count_rebuild taken in
          let weight = ap (tally (of_entry s)) q in
          elim (Bool-cases accepted) [
            | inl a ↦
                let m = submit-Moves s w e taken in
                rw (q, assign_next)
                  (rw a (record { total = omega (arith, m.total, weight); grows = m.grows }))
            | inr a ↦ elim (Bool-cases (leb limit broken.consecutive_rebuilds)) [
              | inl f ↦
                  let m = fail-Moves s e rebuild_limit broken in
                  rw (q, assign_next)
                    (rw (a, f) (record { total = omega (arith, m.total, weight); grows = m.grows }))
              | inr f ↦ elim (rebuild-cases w broken) [
                | inl g ↦ rw (q, assign_next) (rw (a, f, g) tt)
                | inr (new, g) ↦
                    let m = try-Moves e (rebuilt new broken) in
                    rw (q, assign_next)
                      (rw (a, f, g)
                        (record { total = omega (arith, m.total, weight); grows = m.grows }))
              ]
            ]
          ]

  on_done-Moves :
      (limit : ℕ) (reply : Reply) (accepted : Bool) (t : Task) (r : Run)
      → PassMoves s (of_task s t) r (on_done limit reply accepted t r)
  unfolding on_done archived
  on_done-Moves limit (result a) accepted t r =
      archived_then (assign_next limit accepted t.worker (archived a t r))
        (assign_next-Moves limit accepted t.worker (archived a t r))
    where
      archived_then :
          (o : Option Run) → PassMoves s 0 (archived a t r) o → PassMoves s (of_task s t) r o
      archived_then none m = tt
      archived_then (some x) m =
          let more = tally-append {0} (is_session s) r.successful_session_ids (t.session ∷ []) in
          record { total = omega (arith, m.total, more); grows = m.grows }
  on_done-Moves limit died accepted t r = on_death-Moves limit t r
  on_done-Moves limit raised accepted t r = fail-Moves s (entry t) own_error r

  -- What a round leaves has every session on the books.
  abbrev pub TurnsAccounted : Run → Round → Type 0
  TurnsAccounted r crashed = Unit
  TurnsAccounted r (again r') = Accounted s r r'
  TurnsAccounted r (left r') = Accounted s r r'

  after-Accounted :
      (limit : ℕ) (r : Run) (o : Option Run)
      → PassMoves s 0 r o
      → TurnsAccounted r (after_assign limit o)
  unfolding after_assign
  after-Accounted limit r none m = tt
  after-Accounted limit r (some x) m = elim (Bool-cases (leb limit x.consecutive_rebuilds)) [
    | inl f ↦ rw (f, after_assign) (Moves-Accounted s r x m)
    | inr f ↦
        rw (f, after_assign)
          (trans-Accounted s r x (drop_exceeded x) (Moves-Accounted s r x m) (drop-Accounted s x))
  ]

  going-Accounted :
      (n : ℕ) (r x : Run) (o : Option Run)
      → placed s x + n ≡ placed s r
      → failures s x ≡ failures s r
      → PassMoves s n x o
      → TurnsAccounted r (going o)
  going-Accounted n r x none p f m = tt
  going-Accounted n r x (some y) p f m =
      Moves-Accounted s r y
        (record { total = omega (arith, m.total, p, f); grows = omega (arith, m.grows, f) })

  pub wait_round-Accounted :
      (limit : ℕ) (ev : Event) (ts : List Task) (r : Run)
      → r.active ≡ ts
      → TurnsAccounted r (wait_round limit ev ts r)
  unfolding wait_round
  wait_round-Accounted limit ev [] r q =
      after-Accounted limit r (assign_each limit ev.accepts 0 r.available_workers r)
        (assign-Moves s limit ev.accepts r.available_workers 0 r)
  wait_round-Accounted limit ev (t ∷ ts) r q = elim (Option-cases ev.done) [
    | inl d ↦ simp (d, wait_round) (refl-Accounted s r)
    | inr (n, d) ↦
        let done = (pick n t ts).0 in
        let rest = record r { active = (pick n t ts).1 } in
        rw (d, wait_round)
          (going-Accounted (of_task s done) r rest (on_done limit ev.reply (ev.accepts 0) done rest)
            (omega (arith, tally-pick (of_task s) n t ts, ap (tally (of_task s)) q)) refl
            (on_done-Moves limit ev.reply (ev.accepts 0) done rest))
  ]
