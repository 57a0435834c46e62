-- ===== src/Archiver/Work/Ending.antt =====
-- The loop of a run comes to its end, with every worker in its place.
use trajproxy.Base.{
  ℕ, zero, suc, ◌+◌, ◌*◌, ◌≤◌, ◌≡◌, refl, Bool, true, Option, none, some, List, [], if◌then◌else◌,
  arith, Bool-cases, inl, inr, is_some, length,
}
use trajproxy.Archiver.{Session, Task, Run, fill_each}
use trajproxy.Archiver.Rounds.{
  Event, Round, again, left, crashed, wait_round, has_work, ended, rounds, run_init, limit_of,
  dispatch,
}
use trajproxy.Archiver.Crew.{Crew, count}
use trajproxy.Archiver.Crew.Passes.{PassesWell, fill-PassesWell}
use trajproxy.Archiver.Crew.Turns.{TurnsWell, wait_round-TurnsWell}
use trajproxy.Archiver.Work.{work}
use trajproxy.Archiver.Work.Filling.{AtMost, fill-AtMost}
use trajproxy.Archiver.Work.Rounds.{Eased, wait_round-Eased, no_work, time_outs, work-numbered}

-- What a round leaves, with the rounds that are needed for it.
abbrev Shorter : ℕ → Round → Type 0
Shorter b (again r) = Crew [] r × (suc (work r) ≤ b)
Shorter b (left r) = Crew [] r
Shorter b crashed = ⊥

Shorter-both : (b : ℕ) (o : Round) → TurnsWell o → Eased b o → Shorter b o
Shorter-both b (again r) k h = (k, h)
Shorter-both b (left r) k h = k
Shorter-both b crashed k h = k

wait_round-Shorter :
    (limit : ℕ) (ev : Event) (ts : List Task) (r : Run)
    → r.active ≡ ts
    → has_work limit r ≡ true
    → Crew [] r
    → Shorter (work r + (if is_some ev.done then 0 else 1)) (wait_round limit ev ts r)
wait_round-Shorter limit ev ts r q h k =
    Shorter-both _ (wait_round limit ev ts r) (wait_round-TurnsWell limit ev ts r q k)
      (wait_round-Eased limit ev ts r q h)

-- From a state with its workers in order, the loop ends after as many rounds as there is work left
-- and time-outs.
pub rounds-ended :
    (limit fuel : ℕ) (events : ℕ → Event) (r : Run)
    → Crew [] r
    → work r + time_outs fuel events ≤ fuel
    → (r' : Run) × (rounds limit fuel events r ≡ ended r') × Crew [] r'
unfolding rounds time_outs
rounds-ended limit zero events r k h = (r, rw (no_work limit r (omega (arith, h)), rounds) refl, k)
rounds-ended limit (suc fuel) events r k h = elim (Bool-cases (has_work limit r)) [
  | inr f ↦ (r, rw (f, rounds) refl, k)
  | inl f ↦
      go f (wait_round limit (events fuel) r.active r) refl
        (wait_round-Shorter limit (events fuel) r.active r refl f k)
        (rounds-ended limit fuel events)
]
  where
    Ends : ℕ → Run → Type 0
    Ends n x = (r' : Run) × (rounds limit n events x ≡ ended r') × Crew [] r'

    go :
        has_work limit r ≡ true
        → (o : Round) → wait_round limit (events fuel) r.active r ≡ o
        → Shorter (work r + (if is_some (events fuel).done then 0 else 1)) o
        → ((x : Run) → Crew [] x → work x + time_outs fuel events ≤ fuel → Ends fuel x)
        → Ends (suc fuel) r
    go f (again x) e (k', s) ih =
        let (r', p, c) = ih x k' (omega (arith, h, s)) in (r', rw (f, rounds) (rw e p), c)
    go f (left x) e s ih = (x, rw (f, rounds) (rw e refl), s)
    go f crashed e s ih = absurd s

-- Workers that are distinct actors, all older than the actors to come.
abbrev pub Fresh : List ℕ → ℕ → Type 0
Fresh workers next = ((w : ℕ) → count w workers ≤ 1) × ((w : ℕ) → next ≤ w → count w workers ≡ 0)

init-Crew :
    (sessions : List Session) (workers : List ℕ) (next : ℕ)
    → Fresh workers next
    → Crew workers (run_init sessions workers next)
unfolding run_init
init-Crew sessions workers next (d, f) = record { busy = λ w. omega arith; distinct = d; ahead = f }

-- If the workers are distinct actors, older than those that are created later, no worker is looked
-- for in vain, and the dispatch of `n` sessions ends within 8 * n rounds besides those that are
-- time-outs, whatever Ray answers. It leaves each worker with at most one task.
pub dispatch-ended :
    (fuel : ℕ) (accepts : ℕ → Bool) (events : ℕ → Event) (sessions : List Session)
    (workers : List ℕ) (next : ℕ)
    → Fresh workers next
    → 8 * length sessions + time_outs fuel events ≤ fuel
    → (r : Run) × (dispatch fuel accepts events sessions workers next ≡ ended r) × Crew [] r
unfolding dispatch run_init
dispatch-ended fuel accepts events sessions workers next h b =
    go (fill_each limit accepts 0 workers start) refl
      (fill-PassesWell limit accepts workers 0 start (init-Crew sessions workers next h))
      (fill-AtMost limit accepts (8 * length sessions) workers 0 start
        (omega (arith, work-numbered 0 sessions)))
  where
    limit : ℕ
    limit = limit_of workers

    start : Run
    start = run_init sessions workers next

    go :
        (o : Option Run)
        → fill_each limit accepts 0 workers start ≡ o
        → PassesWell o
        → AtMost (8 * length sessions) o
        → (r : Run) × (dispatch fuel accepts events sessions workers next ≡ ended r) × Crew [] r
    go none e k s = absurd k
    go (some r) e k s =
        let (r', p, c) = rounds-ended limit fuel events r k (omega (arith, b, s)) in
        (r', rw (e, dispatch) p, c)
