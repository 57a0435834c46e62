-- ===== src/Archiver/Accounts/Results.antt =====
-- What `_archive_run` promises of each session of a run.
use mathlib.Core.Path.{subst}
use trajproxy.Base.{
  not_empty-nil, ℕ, ◌+◌, ◌*◌, ◌≤◌, ◌≡◌, refl, ◌⊎◌, Bool, true, false, List, [], ◌&&◌, not, leb,
  tally, arith, ap, Bool-cases, inl, inr, length, not_empty, leb→le,
}
use trajproxy.Archiver.{Session, Run}
use trajproxy.Archiver.Rounds.{Event, has_work, ended, run_init, limit_of, dispatch}
use trajproxy.Archiver.Rounds.Outcome.{settle_pending}
use trajproxy.Archiver.Work.Ending.{Fresh, dispatch-ended}
use trajproxy.Archiver.Work.Rounds.{time_outs}
use trajproxy.Archiver.Accounts.{of_task, of_entry, failures}
use trajproxy.Archiver.Accounts.Settling.{trans-Accounted, settle-Accounted, settle-active}
use trajproxy.Archiver.Accounts.Ending.{
  EndsDone, EndsAccounted, dispatch-Accounted, dispatch-EndsDone, times, placed-init,
}

no_queue :
    (limit : ℕ) (r : Run)
    → (has_work limit r ≡ false) ⊎ (leb limit r.consecutive_rebuilds ≡ true)
    → (leb limit r.consecutive_rebuilds && not_empty r.pending) ≡ false
    → (not_empty r.pending && not (not_empty r.available_workers)) ≡ false
    → not_empty r.pending ≡ false
unfolding has_work
no_queue limit r (inl h) e f = ground (arith, h, e, f)
no_queue limit r (inr h) e f = ground (arith, h, e)

waited_for :
    (limit : ℕ) (r : Run)
    → (has_work limit r ≡ false) ⊎ (leb limit r.consecutive_rebuilds ≡ true)
    → (r.active ≡ []) ⊎ (limit ≤ r.consecutive_rebuilds)
unfolding has_work
waited_for limit r (inr h) = inr (leb→le limit r.consecutive_rebuilds h)
waited_for limit r (inl h) = inl (not_empty-nil r.active (ground (arith, h)))

settle-pending :
    (limit : ℕ) (r : Run)
    → (has_work limit r ≡ false) ⊎ (leb limit r.consecutive_rebuilds ≡ true)
    → (settle_pending limit r).pending ≡ []
unfolding settle_pending has_work
settle-pending limit r h =
    elim (Bool-cases (leb limit r.consecutive_rebuilds && not_empty r.pending)) [
      | inl e ↦ rw (e, settle_pending) refl
      | inr e ↦ elim (Bool-cases (not_empty r.pending && not (not_empty r.available_workers))) [
        | inl f ↦ rw (e, settle_pending) (rw f refl)
        | inr f ↦ rw (e, settle_pending) (rw f (not_empty-nil r.pending (no_queue limit r h e f)))
      ]
    ]

-- At the end, `s` is archived, on record as failed, or the task of a worker that is not waited for.
pub record Settled (s : Session) (sessions : List Session) (limit : ℕ) (r : Run) : Type 0 where
  pub once : times s (settle_pending limit r).successful_session_ids ≤ times s sessions
  pub queue : (settle_pending limit r).pending ≡ []
  pub waited : (r.active ≡ []) ⊎ (limit ≤ r.consecutive_rebuilds)
  pub found :
      1
      ≤ times s (settle_pending limit r).successful_session_ids
        + failures s (settle_pending limit r)
        + tally (of_task s) r.active

-- Workers that are distinct actors, older than those that are created later, are given: then the
-- dispatch of a run ends, within 8 rounds for each session besides the time-outs. Nothing is pending
-- after the clean-up, and no task is active unless the limit of consecutive rebuilds is reached. A
-- session of the run is archived, on record as failed, or the task of a worker that is left
-- unfinished, and it is archived at most as often as it stands in the run.
pub dispatch-Settled :
    (fuel : ℕ) (accepts : ℕ → Bool) (events : ℕ → Event) (sessions : List Session)
    (workers : List ℕ) (next : ℕ) (s : Session)
    → Fresh workers next
    → 8 * length sessions + time_outs fuel events ≤ fuel
    → 1 ≤ times s sessions
    → (r : Run) × (dispatch fuel accepts events sessions workers next ≡ ended r)
      × Settled s sessions (limit_of workers) r
dispatch-Settled fuel accepts events sessions workers next s h b p =
    let (r, e, k) = dispatch-ended fuel accepts events sessions workers next h b in
    let start = run_init sessions workers next in
    let settled = settle_pending (limit_of workers) r in
    let done : EndsDone (limit_of workers) (ended r) =
      subst (EndsDone (limit_of workers)) e
        (dispatch-EndsDone fuel accepts events sessions workers next) in
    let kept : EndsAccounted s start (ended r) =
      subst (EndsAccounted s start) e
        (dispatch-Accounted s fuel accepts events sessions workers next) in
    let all = trans-Accounted s start r settled kept (settle-Accounted s (limit_of workers) r) in
    let first = placed-init s sessions workers next in
    let queue = settle-pending (limit_of workers) r done in
    let no_entries = ap (tally (of_entry s)) queue in
    let same = ap (tally (of_task s)) (settle-active (limit_of workers) r) in
    (
      r,
      e,
      record {
        once = omega (arith, first, all.fewer);
        queue = queue;
        waited = waited_for (limit_of workers) r done;
        found = omega (arith, first, p, no_entries, same, all.kept (omega (arith, first, p)));
      },
    )
