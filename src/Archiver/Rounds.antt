-- ===== src/Archiver/Rounds.antt =====
-- The loop of `_archive_run`: one round is an assignment of pending sessions while no task is
-- active, or one task that is done. `Event` is what Ray answers in a round.
pub mod Outcome
use trajproxy.Base.{
  ℕ, zero, suc, ◌+◌, ◌*◌, String, Bool, true, false, ◌&&◌, ◌||◌, Option, none, some, List, [], ◌∷◌,
  ◌++◌, map, ◌==◌, nat_eq, string_eq, option_eq, if◌then◌else◌, leb, ltb, not_empty, length,
}
use trajproxy.Archiver.{
  Session, Archived, Entry, Task, Failed, Run, rebuild_limit, own_error, count_failure,
  rebuild_worker, submit, put_back, fail, count_rebuild, with_pending, retry_or_fail, fill_each,
  assign_each, drop_exceeded, is_failed,
}

-- What `ray.get` gives for a task that is done.
pub data Reply : Type 0 where
  result : Archived → Reply
  -- RayActorError or GetTimeoutError
  died : Reply
  -- any other exception
  raised : Reply

-- `done` is the place of the task that is done among the active ones; `none` is the time-out of
-- `ray.wait`. `accepts` are the answers to the submissions of the round.
pub record Event : Type 0 where
  pub done : Option ℕ
  pub reply : Reply
  pub accepts : ℕ → Bool

-- Takes one of the active tasks.
unfoldable pub pick : ℕ → Task → List Task → Task × List Task
pick zero t ts = (t, ts)
pick (suc n) t [] = (t, [])
pick (suc n) t (u ∷ ts) = let (v, rest) = pick n u ts in (v, t ∷ rest)

abbrev pub entry : Task → Entry
entry t = (t.idx, t.session)

-- The tasks of the same worker are cancelled: `others` are all tasks, and the rest stays active.
unfoldable pub cancel_each : (Entry → Run → Run) → ℕ → List Task → Run → Run
cancel_each f worker [] r = r
cancel_each f worker (t ∷ ts) r =
    let kept = record r { active = r.active ++ t ∷ [] } in
    if t.worker == worker
    then cancel_each f worker ts (f (entry t) r)
    else cancel_each f worker ts kept

abbrev pub give_up : Entry → Run → Run
give_up e r = fail e rebuild_limit r

abbrev pub try_again : Entry → Run → Run
try_again e r = retry_or_fail e (count_failure e.1 r)

-- The worker has died, or its result could not be fetched. `r` has the task taken out.
unfoldable pub on_death : ℕ → Task → Run → Option Run
unfolding count_rebuild count_failure rebuild_worker cancel_each fail retry_or_fail
on_death limit t r =
    let counted = count_failure t.session (count_rebuild r) in
    if leb limit counted.consecutive_rebuilds
    then (let given_up = give_up (entry t) counted in
        some (cancel_each give_up t.worker given_up.active (record given_up { active = [] })))
    else elim (rebuild_worker t.worker counted) [
      | none ↦ none
      | some rebuilt ↦
          let retried = retry_or_fail (entry t) rebuilt in
          some (cancel_each try_again t.worker retried.active (record retried { active = [] }))
    ]

-- The next session goes to the worker that is free.
unfoldable pub assign_next : ℕ → Bool → ℕ → Run → Option Run
unfolding submit fail count_rebuild rebuild_worker count_failure retry_or_fail
assign_next limit accepted worker r = elim r.pending [
  | [] ↦ some r
  | e ∷ es ↦
      let taken = with_pending es r in
      let broken = count_rebuild taken in
      if accepted
      then some (submit worker e taken)
      else if leb limit broken.consecutive_rebuilds
      then some (give_up e broken)
      else elim (rebuild_worker worker broken) [
        | none ↦ none
        | some rebuilt ↦ some (try_again e rebuilt)
      ]
]

unfoldable pub archived : Archived → Task → Run → Run
archived a t r = record r {
  raw_results = r.raw_results ++ a ∷ [];
  successful_session_ids = r.successful_session_ids ++ t.session ∷ [];
  consecutive_rebuilds = 0;
}

-- A task that is done.
unfoldable pub on_done : ℕ → Reply → Bool → Task → Run → Option Run
unfolding on_death assign_next archived fail
on_done limit (result a) accepted t r = assign_next limit accepted t.worker (archived a t r)
on_done limit died accepted t r = on_death limit t r
on_done limit raised accepted t r = some (fail (entry t) own_error r)

-- `crashed` is the `IndexError` of a worker that is not in the list.
pub data Round : Type 0 where
  again left : Run → Round
  crashed : Round

abbrev pub going : Option Run → Round
going none = crashed
going (some r) = again r

-- After the assignment the limit of rebuilds is tested: a `break` leaves the loop.
unfoldable pub after_assign : ℕ → Option Run → Round
unfolding drop_exceeded
after_assign limit none = crashed
after_assign limit (some r) =
    if leb limit r.consecutive_rebuilds then left r else again (drop_exceeded r)

unfoldable pub wait_round : ℕ → Event → List Task → Run → Round
unfolding pick on_done assign_each after_assign
wait_round limit ev [] r = after_assign limit (assign_each limit ev.accepts 0 r.available_workers r)
wait_round limit ev (t ∷ ts) r = elim ev.done [
  | none ↦ again r
  | some n ↦
      let (done, rest) = pick n t ts in
      going (on_done limit ev.reply (ev.accepts 0) done (record r { active = rest }))
]

-- The test of the loop.
unfoldable pub has_work : ℕ → Run → Bool
has_work limit r =
    not_empty r.active
    || (not_empty r.pending && not_empty r.available_workers && ltb r.consecutive_rebuilds limit)

pub data Ended : Type 0 where
  ended : Run → Ended
  index_error : Ended
  -- the loop is not at its end after these rounds
  running : Run → Ended

unfoldable pub rounds : ℕ → ℕ → (ℕ → Event) → Run → Ended
unfolding wait_round has_work
rounds limit zero events r = if has_work limit r then running r else ended r
rounds limit (suc fuel) events r =
    let next = wait_round limit (events fuel) r.active r in
    elim (has_work limit r) [
      | false ↦ ended r
      | true ↦ elim next [
        | crashed ↦ index_error
        | left r' ↦ ended r'
        | again r' ↦ rounds limit fuel events r'
      ]
    ]

abbrev pub numbered : ℕ → List Session → List Entry
numbered n [] = []
numbered n (s ∷ ss) = (n, s) ∷ numbered (suc n) ss

-- The state before the first loop. The workers are numbered; new ones get the numbers behind.
unfoldable pub run_init : List Session → List ℕ → ℕ → Run
run_init sessions workers next = record {
  pending = numbered 0 sessions;
  active = [];
  raw_results = [];
  failed_sessions = [];
  successful_session_ids = [];
  available_workers = workers;
  session_fail_counts = [];
  consecutive_rebuilds = 0;
  worker_rebuilds = 0;
  next_worker = next;
}

-- `max_consecutive_rebuilds`
abbrev pub limit_of : List ℕ → ℕ
limit_of workers = length workers * 3

unfoldable pub dispatch : ℕ → (ℕ → Bool) → (ℕ → Event) → List Session → List ℕ → ℕ → Ended
unfolding run_init rounds
dispatch fuel accepts events sessions workers next =
    elim (fill_each (limit_of workers) accepts 0 workers (run_init sessions workers next)) [
      | none ↦ index_error
      | some r ↦ rounds (limit_of workers) fuel events r
    ]
