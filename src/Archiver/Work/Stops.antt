-- ===== src/Archiver/Work/Stops.antt =====
-- The loop of a run ends whatever its workers are.
use trajproxy.Base.{
  ℕ, zero, suc, ◌+◌, ◌*◌, ◌≤◌, ◌≡◌, refl, Bool, true, Option, none, some, List, if◌then◌else◌,
  arith, Bool-cases, inl, inr, is_some, length,
}
use trajproxy.Archiver.{Session, Run, fill_each}
use trajproxy.Archiver.Rounds.{
  Event, Round, again, left, crashed, wait_round, has_work, Ended, ended, index_error, running,
  rounds, run_init, limit_of, dispatch,
}
use trajproxy.Archiver.Work.{work}
use trajproxy.Archiver.Work.Filling.{AtMost, fill-AtMost}
use trajproxy.Archiver.Work.Rounds.{Eased, wait_round-Eased, no_work, time_outs, work-numbered}

-- The rounds are over.
abbrev pub Stops : Ended → Type 0
Stops (ended r) = Unit
Stops index_error = Unit
Stops (running r) = ⊥

rounds-Stops :
    (limit fuel : ℕ) (events : ℕ → Event) (r : Run)
    → work r + time_outs fuel events ≤ fuel
    → Stops (rounds limit fuel events r)
unfolding rounds time_outs
rounds-Stops limit zero events r h = rw (no_work limit r (omega (arith, h)), rounds) tt
rounds-Stops limit (suc fuel) events r h = elim (Bool-cases (has_work limit r)) [
  | inr f ↦ rw (f, rounds) tt
  | inl f ↦
      go f (wait_round limit (events fuel) r.active r) refl
        (wait_round-Eased limit (events fuel) r.active r refl f) (rounds-Stops limit fuel events)
]
  where
    go :
        has_work limit r ≡ true
        → (o : Round) → wait_round limit (events fuel) r.active r ≡ o
        → Eased (work r + (if is_some (events fuel).done then 0 else 1)) o
        → ((x : Run) → work x + time_outs fuel events ≤ fuel → Stops (rounds limit fuel events x))
        → Stops (rounds limit (suc fuel) events r)
    go f (again x) e s ih = rw (f, rounds) (rw e (ih x (omega (arith, h, s))))
    go f (left x) e s ih = rw (f, rounds) (rw e tt)
    go f crashed e s ih = rw (f, rounds) (rw e tt)

pub dispatch-Stops :
    (fuel : ℕ) (accepts : ℕ → Bool) (events : ℕ → Event) (sessions : List Session)
    (workers : List ℕ) (next : ℕ)
    → 8 * length sessions + time_outs fuel events ≤ fuel
    → Stops (dispatch fuel accepts events sessions workers next)
unfolding dispatch run_init
dispatch-Stops fuel accepts events sessions workers next b =
    go (fill_each limit accepts 0 workers start) refl (
      fill-AtMost limit accepts (8 * length sessions) workers 0 start
        (omega (arith, work-numbered 0 sessions)))
  where
    limit : ℕ
    limit = limit_of workers

    start : Run
    start = run_init sessions workers next

    go :
        (o : Option Run)
        → fill_each limit accepts 0 workers start ≡ o
        → AtMost (8 * length sessions) o
        → Stops (dispatch fuel accepts events sessions workers next)
    go none e s = rw (e, dispatch) tt
    go (some r) e s = rw (e, dispatch) (rounds-Stops limit fuel events r (omega (arith, b, s)))
