-- ===== src/Archiver/Rounds/Outcome.antt =====
-- What `_archive_run` does after its loop, and how it ends.
use trajproxy.Base.{
  ℕ, ◌+◌, String, not, ◌&&◌, Option, none, some, List, [], ◌∷◌, ◌++◌, if◌then◌else◌, leb, length,
  not_empty,
}
use trajproxy.Archiver.{
  Session, Archived, Entry, Run, Reason, rebuild_limit, no_workers, is_failed, with_pending,
}

-- A session is recorded as failed, unless it is already.
unfoldable pub record_once : Reason → Entry → Run → Run
record_once why e r = if is_failed e.1 r.failed_sessions then r else record r {
  failed_sessions = r.failed_sessions ++ record { session = e.1; idx = none; error = why } ∷ [];
}

unfoldable pub fail_rest : Reason → List Entry → Run → Run
unfolding record_once
fail_rest why [] r = r
fail_rest why (e ∷ es) r = fail_rest why es (record_once why e r)

abbrev pub fail_pending : Reason → Run → Run
fail_pending why r = with_pending [] (fail_rest why r.pending r)

-- The two clean-ups of what is still pending.
unfoldable pub settle_pending : ℕ → Run → Run
unfolding fail_rest
settle_pending limit r =
    let settled =
      if leb limit r.consecutive_rebuilds && not_empty r.pending
      then fail_pending rebuild_limit r
      else r in
    if not_empty settled.pending && not (not_empty settled.available_workers)
    then fail_pending no_workers settled
    else settled

-- The statistics, and the sessions that are cleaned up in the database.
pub record Report : Type 0 where
  pub workers : List ℕ
  pub sessions : ℕ
  pub records : ℕ
  pub files : List String
  pub failed_sessions : ℕ
  pub cleaned : List Session

unfoldable pub total_records : List Archived → ℕ
total_records [] = 0
total_records (a ∷ as') = a.records + total_records as'

abbrev with_file : Option String → List String → List String
with_file none files = files
with_file (some f) files = f ∷ files

unfoldable pub files_of : List Archived → List String
files_of [] = []
files_of (a ∷ as') = with_file a.file (files_of as')

pub data RunAnswer : Type 0 where
  reported : Report → RunAnswer
  -- RuntimeError: nothing was archived, and sessions have failed
  run_failed : RunAnswer

unfoldable pub report : Run → RunAnswer
unfolding total_records files_of
report r =
    if not (not_empty r.raw_results) && not_empty r.failed_sessions
    then run_failed
    else reported (record {
      workers = r.available_workers;
      sessions = length (files_of r.raw_results);
      records = total_records r.raw_results;
      files = files_of r.raw_results;
      failed_sessions = length r.failed_sessions;
      cleaned = r.successful_session_ids;
    })
