-- ===== src/Archiver/Accounts/Ending.antt =====
-- What the end of a run says of each of its sessions.
use trajproxy.Base.{
  ℕ, zero, suc, ◌≡◌, refl, ◌⊎◌, Bool, true, false, Option, none, some, List, [], ◌∷◌, string_eq,
  option_eq, leb, tally, arith, Bool-cases, Option-cases, inl, inr,
}
use trajproxy.Archiver.{Session, Task, Run, fill_each}
use trajproxy.Archiver.Rounds.{
  Event, Round, again, left, crashed, wait_round, has_work, Ended, ended, index_error, running,
  rounds, run_init, limit_of, dispatch, numbered, after_assign, going,
}
use trajproxy.Archiver.Accounts.{is_session, of_entry, placed, PassMoves, fill-Moves}
use trajproxy.Archiver.Accounts.Dropping.{Accounted}
use trajproxy.Archiver.Accounts.Settling.{refl-Accounted, trans-Accounted, Moves-Accounted}
use trajproxy.Archiver.Accounts.Turns.{TurnsAccounted, wait_round-Accounted}

module _ (s : Session) where
  -- The state in which the rounds end has `s` on the books.
  abbrev pub EndsAccounted : Run → Ended → Type 0
  EndsAccounted r (ended r') = Accounted s r r'
  EndsAccounted r index_error = Unit
  EndsAccounted r (running r') = Accounted s r r'

  trans-Ends : (r x : Run) (o : Ended) → Accounted s r x → EndsAccounted x o → EndsAccounted r o
  trans-Ends r x (ended y) a b = trans-Accounted s r x y a b
  trans-Ends r x index_error a b = tt
  trans-Ends r x (running y) a b = trans-Accounted s r x y a b

  rounds-Accounted :
      (limit fuel : ℕ) (events : ℕ → Event) (r : Run) → EndsAccounted r (rounds limit fuel events r)
  unfolding rounds
  rounds-Accounted limit zero events r = elim (Bool-cases (has_work limit r)) [
    | inl f ↦ rw (f, rounds) (refl-Accounted s r)
    | inr f ↦ rw (f, rounds) (refl-Accounted s r)
  ]
  rounds-Accounted limit (suc fuel) events r = elim (Bool-cases (has_work limit r)) [
    | inr f ↦ rw (f, rounds) (refl-Accounted s r)
    | inl f ↦
        go f (wait_round limit (events fuel) r.active r) refl
          (wait_round-Accounted s limit (events fuel) r.active r refl)
          (rounds-Accounted limit fuel events)
  ]
    where
      go :
          has_work limit r ≡ true
          → (o : Round) → wait_round limit (events fuel) r.active r ≡ o
          → TurnsAccounted s r o
          → ((x : Run) → EndsAccounted x (rounds limit fuel events x))
          → EndsAccounted r (rounds limit (suc fuel) events r)
      go f (again x) e a ih =
          rw (f, rounds) (rw e (trans-Ends r x (rounds limit fuel events x) a (ih x)))
      go f (left x) e a ih = rw (f, rounds) (rw e a)
      go f crashed e a ih = rw (f, rounds) (rw e tt)

  -- How often `s` is in a list of sessions.
  abbrev pub times : List Session → ℕ
  times sessions = tally (is_session s) sessions

  pub placed-init :
      (sessions : List Session) (workers : List ℕ) (next : ℕ)
      → placed s (run_init sessions workers next) ≡ times sessions
  unfolding run_init
  placed-init sessions workers next = omega (arith, numbered-times 0 sessions)
    where
      numbered-times : (n : ℕ) (ss : List Session) → tally (of_entry s) (numbered n ss) ≡ times ss
      numbered-times n [] = refl
      numbered-times n (x ∷ ss) = omega (arith, numbered-times (suc n) ss)

  pub dispatch-Accounted :
      (fuel : ℕ) (accepts : ℕ → Bool) (events : ℕ → Event) (sessions : List Session)
      (workers : List ℕ) (next : ℕ)
      → EndsAccounted
          (run_init sessions workers next)
          (dispatch fuel accepts events sessions workers next)
  unfolding dispatch
  dispatch-Accounted fuel accepts events sessions workers next =
      go (fill_each limit accepts 0 workers start) refl (fill-Moves s limit accepts workers 0 start)
    where
      limit : ℕ
      limit = limit_of workers

      start : Run
      start = run_init sessions workers next

      go :
          (o : Option Run)
          → fill_each limit accepts 0 workers start ≡ o
          → PassMoves s 0 start o
          → EndsAccounted start (dispatch fuel accepts events sessions workers next)
      go none e m = rw (e, dispatch) tt
      go (some x) e m =
          rw (e, dispatch)
            (trans-Ends start x (rounds limit fuel events x) (Moves-Accounted s start x m)
              (rounds-Accounted limit fuel events x))

-- The loop ends where its test fails, or it is left at the limit of rebuilds.
abbrev pub EndsDone : ℕ → Ended → Type 0
EndsDone limit (ended r) = (has_work limit r ≡ false) ⊎ (leb limit r.consecutive_rebuilds ≡ true)
EndsDone limit index_error = Unit
EndsDone limit (running r) = Unit

abbrev LeavesAtLimit : ℕ → Round → Type 0
LeavesAtLimit limit (left r) = leb limit r.consecutive_rebuilds ≡ true
LeavesAtLimit limit (again r) = Unit
LeavesAtLimit limit crashed = Unit

after-LeavesAtLimit : (limit : ℕ) (o : Option Run) → LeavesAtLimit limit (after_assign limit o)
unfolding after_assign
after-LeavesAtLimit limit none = tt
after-LeavesAtLimit limit (some r) = elim (Bool-cases (leb limit r.consecutive_rebuilds)) [
  | inl f ↦ rw (f, after_assign) f
  | inr f ↦ rw (f, after_assign) tt
]

going-LeavesAtLimit : (limit : ℕ) (o : Option Run) → LeavesAtLimit limit (going o)
going-LeavesAtLimit limit none = tt
going-LeavesAtLimit limit (some r) = tt

wait_round-LeavesAtLimit :
    (limit : ℕ) (ev : Event) (ts : List Task) (r : Run)
    → LeavesAtLimit limit (wait_round limit ev ts r)
unfolding wait_round
wait_round-LeavesAtLimit limit ev [] r = after-LeavesAtLimit limit _
wait_round-LeavesAtLimit limit ev (t ∷ ts) r = elim (Option-cases ev.done) [
  | inl d ↦ simp (d, wait_round) tt
  | inr (n, d) ↦ simp (d, wait_round) (going-LeavesAtLimit limit _)
]

rounds-EndsDone :
    (limit fuel : ℕ) (events : ℕ → Event) (r : Run) → EndsDone limit (rounds limit fuel events r)
unfolding rounds
rounds-EndsDone limit zero events r = elim (Bool-cases (has_work limit r)) [
  | inl f ↦ rw (f, rounds) tt
  | inr f ↦ rw (f, rounds) (inl f)
]
rounds-EndsDone limit (suc fuel) events r = elim (Bool-cases (has_work limit r)) [
  | inr f ↦ rw (f, rounds) (inl f)
  | inl f ↦
      go f (wait_round limit (events fuel) r.active r) refl
        (wait_round-LeavesAtLimit limit (events fuel) r.active r)
        (rounds-EndsDone limit fuel events)
]
  where
    go :
        has_work limit r ≡ true
        → (o : Round) → wait_round limit (events fuel) r.active r ≡ o
        → LeavesAtLimit limit o
        → ((x : Run) → EndsDone limit (rounds limit fuel events x))
        → EndsDone limit (rounds limit (suc fuel) events r)
    go f (again x) e a ih = rw (f, rounds) (rw e (ih x))
    go f (left x) e a ih = rw (f, rounds) (rw e (inr a))
    go f crashed e a ih = rw (f, rounds) (rw e tt)

pub dispatch-EndsDone :
    (fuel : ℕ) (accepts : ℕ → Bool) (events : ℕ → Event) (sessions : List Session)
    (workers : List ℕ) (next : ℕ)
    → EndsDone (limit_of workers) (dispatch fuel accepts events sessions workers next)
unfolding dispatch
dispatch-EndsDone fuel accepts events sessions workers next =
    go (fill_each limit accepts 0 workers start) refl
  where
    limit : ℕ
    limit = limit_of workers

    start : Run
    start = run_init sessions workers next

    go :
        (o : Option Run)
        → fill_each limit accepts 0 workers start ≡ o
        → EndsDone limit (dispatch fuel accepts events sessions workers next)
    go none e = rw (e, dispatch) tt
    go (some x) e = rw (e, dispatch) (rounds-EndsDone limit fuel events x)
