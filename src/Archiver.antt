-- ===== src/Archiver.antt =====
-- `_archive_run` of traj_archiver/archiver.py: the sessions of a run are given to workers, and
-- those of workers that die are tried again. Ray is not part of the program: whether a submission
-- is accepted and what a task comes to are arguments. A worker is the identity of its actor.
pub mod Rounds
pub mod Crew
pub mod Rules
pub mod Accounts
pub mod Cleanup
pub mod Keys
pub mod Export
pub mod Details
pub mod Work
use trajproxy.Base.{
  ℕ, suc, ◌+◌, ◌*◌, ◌-◌, String, Bool, true, false, not, ◌&&◌, Option, none, some, List, [], ◌∷◌,
  ◌++◌, map, ◌==◌, nat_eq, string_eq, option_eq, if◌then◌else◌, leb, ltb, contains, length,
}
use trajproxy.Base.Dict.{Dict, get, put}

-- `session_id`, which may be NULL
abbrev pub Session : Type 0
Session = Option String

pub record Archived : Type 0 where
  pub records : ℕ
  pub file : Option String

-- An element of `pending`: the index and the session.
abbrev pub Entry : Type 0
Entry = ℕ × Session

-- A value of `active`; the key is the future, and the dict is in the order of submission.
pub record Task : Type 0 where
  pub worker : ℕ
  pub session : Session
  pub idx : ℕ

pub data Reason : Type 0 where
  rebuild_limit retries_exceeded own_error no_workers : Reason

-- `idx` is `none` for -1.
pub record Failed : Type 0 where
  pub session : Session
  pub idx : Option ℕ
  pub error : Reason

pub record Run : Type 0 where
  pub pending : List Entry
  pub active : List Task
  pub raw_results : List Archived
  pub failed_sessions : List Failed
  pub successful_session_ids : List Session
  pub available_workers : List ℕ
  pub session_fail_counts : Dict Session ℕ
  pub consecutive_rebuilds : ℕ
  pub worker_rebuilds : ℕ
  -- the identity of the next actor
  pub next_worker : ℕ

abbrev pub max_session_retries : ℕ
max_session_retries = 3

-- session_fail_counts.get(sid, 0)
unfoldable pub fail_count : Session → Run → ℕ
fail_count s r = elim (get s r.session_fail_counts) [ none ↦ 0 | some n ↦ n ]

-- The `setdefault` and the `+= 1`.
unfoldable pub count_failure : Session → Run → Run
unfolding fail_count
count_failure s r = record r {
  session_fail_counts = put s (fail_count s r + 1) r.session_fail_counts;
}

-- workers.index(dead), and the assignment there; `none` is its `IndexError`
unfoldable pub replace_worker : ℕ → ℕ → List ℕ → Option (List ℕ)
replace_worker dead new [] = none
replace_worker dead new (w ∷ ws) =
    let rest = replace_worker dead new ws in
    if w == dead then some (new ∷ ws) else elim rest [ none ↦ none | some ws' ↦ some (w ∷ ws') ]

-- `_rebuild_worker_in_list`, and the count of rebuilds
unfoldable pub rebuild_worker : ℕ → Run → Option Run
unfolding replace_worker
rebuild_worker dead r = elim (replace_worker dead r.next_worker r.available_workers) [
  | none ↦ none
  | some workers ↦ some (record r {
    available_workers = workers;
    worker_rebuilds = suc r.worker_rebuilds;
    next_worker = suc r.next_worker;
  })
]

unfoldable pub submit : ℕ → Entry → Run → Run
submit worker (idx, session) r = record r {
  active = r.active ++ record { worker = worker; session = session; idx = idx } ∷ [];
}

unfoldable pub put_back : Entry → Run → Run
put_back e r = record r { pending = r.pending ++ e ∷ [] }

unfoldable pub fail : Entry → Reason → Run → Run
fail (idx, session) why r = record r {
  failed_sessions =
      r.failed_sessions ++ record { session = session; idx = some idx; error = why } ∷ [];
}

unfoldable pub count_rebuild : Run → Run
count_rebuild r = record r { consecutive_rebuilds = suc r.consecutive_rebuilds }

abbrev pub with_pending : List Entry → Run → Run
with_pending p r = record r { pending = p }

-- After a failure that has been counted: tried again below the limit of retries.
unfoldable pub retry_or_fail : Entry → Run → Run
unfolding fail_count put_back fail
retry_or_fail e r =
    if ltb (fail_count e.1 r) max_session_retries then put_back e r else fail e retries_exceeded r

-- The abort in the first loop: all that is pending fails.
unfoldable pub abort_each : List Entry → Run → Run
unfolding count_failure fail
abort_each [] r = r
abort_each (e ∷ es) r = abort_each es (fail e rebuild_limit (count_failure e.1 r))

-- The first loop: every worker gets one session. `accepts i` says whether the i-th submission is
-- accepted. A `break` leaves the workers that are left without a session.
unfoldable pub fill_each : ℕ → (ℕ → Bool) → ℕ → List ℕ → Run → Option Run
unfolding submit put_back count_rebuild rebuild_worker abort_each
fill_each limit accepts i [] r = some r
fill_each limit accepts i (w ∷ ws) r = elim r.pending [
  | [] ↦ some r
  | e ∷ es ↦
      let taken = with_pending es r in
      let broken = count_rebuild taken in
      if accepts i
      then fill_each limit accepts (suc i) ws (submit w e taken)
      else if leb limit broken.consecutive_rebuilds
      then some (with_pending [] (abort_each (es ++ e ∷ []) broken))
      else elim (rebuild_worker w broken) [
        | none ↦ none
        | some r' ↦ fill_each limit accepts (suc i) ws (put_back e r')
      ]
]

-- The loop over the workers when no task is active.
unfoldable pub assign_each : ℕ → (ℕ → Bool) → ℕ → List ℕ → Run → Option Run
unfolding submit put_back count_rebuild rebuild_worker count_failure
assign_each limit accepts i [] r = some r
assign_each limit accepts i (w ∷ ws) r = elim r.pending [
  | [] ↦ some r
  | e ∷ es ↦
      let taken = with_pending es r in
      let broken = count_rebuild taken in
      if accepts i
      then assign_each limit accepts (suc i) ws (submit w e taken)
      else if leb limit broken.consecutive_rebuilds
      then some (put_back e broken)
      else elim (rebuild_worker w broken) [
        | none ↦ none
        | some r' ↦ assign_each limit accepts (suc i) ws (put_back e (count_failure e.1 r'))
      ]
]

abbrev pub is_failed : Session → List Failed → Bool
is_failed s [] = false
is_failed s (f ∷ fs) = if f.session == s then true else is_failed s fs

-- The pending sessions that are below the limit of retries.
unfoldable pub below_limit : Run → List Entry → List Entry
unfolding fail_count
below_limit r [] = []
below_limit r (e ∷ es) =
    let rest = below_limit r es in
    if ltb (fail_count e.1 r) max_session_retries then e ∷ rest else rest

-- `exceeded`, as the failures that are appended for it
unfoldable pub exceeded : Dict Session ℕ → List Failed → List Failed
exceeded [] failed = []
exceeded ((s, n) ∷ counts) failed =
    let rest = exceeded counts failed in
    if leb max_session_retries n && not (is_failed s failed)
    then record { session = s; idx = none; error = retries_exceeded } ∷ rest
    else rest

unfoldable pub drop_exceeded : Run → Run
unfolding below_limit exceeded
drop_exceeded r = record r {
  pending = below_limit r r.pending;
  failed_sessions = r.failed_sessions ++ exceeded r.session_fail_counts r.failed_sessions;
}
