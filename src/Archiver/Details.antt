-- ===== src/Archiver/Details.antt =====
-- `_check_worker_health` and `archive_details` of traj_archiver/archiver.py: the expired runs are
-- archived one after the other, and what fails in one of them does not stop the others.
pub mod Sums
pub mod Health
use trajproxy.Base.{
  ℕ, suc, ◌+◌, String, Bool, true, false, Option, none, some, List, [], ◌∷◌, ◌++◌, if◌then◌else◌,
  length,
}
use trajproxy.Archiver.{Session, Run}
use trajproxy.Archiver.Rounds.{Event, Ended, ended, index_error, running, limit_of, dispatch}
use trajproxy.Archiver.Rounds.Outcome.{
  Report, RunAnswer, reported, run_failed, report, settle_pending,
}

-- What the ping of a worker comes to; `unknown` is an exception that is not Ray's.
pub data Pong : Type 0 where
  alive dead unknown : Pong

-- The workers after the check, and the identity of the next actor.
unfoldable pub check_workers : (ℕ → Pong) → ℕ → List ℕ → List ℕ × ℕ
check_workers ping next [] = ([], next)
check_workers ping next (w ∷ ws) = elim (ping w) [
  | alive ↦ let (healthy, n) = check_workers ping next ws in (w ∷ healthy, n)
  | dead ↦ let (healthy, n) = check_workers ping (suc next) ws in (next ∷ healthy, n)
  | unknown ↦ let (healthy, n) = check_workers ping next ws in (w ∷ healthy, n)
]

-- An expired run: its sessions, the answers of Ray, and whether the clean-up in the database
-- succeeds. `next` is the identity of the first actor that is created in the run.
pub record Expired : Type 0 where
  pub run_id : String
  pub sessions : List Session
  pub accepts : ℕ → Bool
  pub events : ℕ → Event
  pub cleaned : Bool
  pub next : ℕ

pub record Stats : Type 0 where
  pub sessions : ℕ
  pub records : ℕ
  pub files : List String
  pub failed_sessions : ℕ

-- `archived` has the workers that are returned; `endless` is a loop that the fuel does not last for.
pub data RunEnd : Type 0 where
  archived : List ℕ → Stats → RunEnd
  raised endless : RunEnd

abbrev pub no_stats : Stats
no_stats = record { sessions = 0; records = 0; files = []; failed_sessions = 0 }

abbrev pub stats_of : Report → Stats
stats_of p = record {
  sessions = p.sessions;
  records = p.records;
  files = p.files;
  failed_sessions = p.failed_sessions;
}

-- After the loop: the statistics, or the exception of `_archive_run` or of its clean-up.
unfoldable pub conclude : Bool → RunAnswer → RunEnd
conclude cleaned run_failed = raised
conclude true (reported p) = archived p.workers (stats_of p)
conclude false (reported p) = raised

unfoldable pub conclude_dispatch : ℕ → Bool → Ended → RunEnd
unfolding conclude report settle_pending
conclude_dispatch limit cleaned (ended r) = conclude cleaned (report (settle_pending limit r))
conclude_dispatch limit cleaned index_error = raised
conclude_dispatch limit cleaned (running r) = endless

unfoldable pub archive_sessions : ℕ → List ℕ → Expired → List Session → RunEnd
unfolding dispatch conclude_dispatch
archive_sessions fuel workers x [] = archived workers no_stats
archive_sessions fuel workers x (s ∷ ss) =
    conclude_dispatch (limit_of workers) x.cleaned
      (dispatch fuel x.accepts x.events (s ∷ ss) workers x.next)

-- `_archive_run`
unfoldable pub archive_run : ℕ → List ℕ → Expired → RunEnd
unfolding archive_sessions
archive_run fuel workers x = archive_sessions fuel workers x x.sessions

pub record Detail : Type 0 where
  pub run_id : String
  pub sessions : ℕ
  pub records : ℕ
  pub failed_sessions : ℕ

-- `result`, without the count of the partitions; an error is the run that it names.
pub record Totals : Type 0 where
  pub runs_processed : ℕ
  pub sessions_archived : ℕ
  pub records_archived : ℕ
  pub archive_files : List String
  pub errors : List String
  pub details : List Detail

abbrev pub no_totals : Totals
no_totals = record {
  runs_processed = 0;
  sessions_archived = 0;
  records_archived = 0;
  archive_files = [];
  errors = [];
  details = [];
}

unfoldable pub add_stats : String → Stats → Totals → Totals
add_stats run stats t = record t {
  runs_processed = suc t.runs_processed;
  sessions_archived = t.sessions_archived + stats.sessions;
  records_archived = t.records_archived + stats.records;
  archive_files = t.archive_files ++ stats.files;
  details =
      t.details
      ++ record {
        run_id = run;
        sessions = stats.sessions;
        records = stats.records;
        failed_sessions = stats.failed_sessions;
      }
        ∷ [];
}

unfoldable pub add_error : String → Totals → Totals
add_error run t = record t { errors = t.errors ++ run ∷ [] }

-- The loop over the expired runs. After an exception the former list of the workers is kept.
unfoldable pub archive_each : ℕ → List Expired → List ℕ → Totals → Option (List ℕ × Totals)
unfolding archive_run add_stats add_error
archive_each fuel [] workers t = some (workers, t)
archive_each fuel (x ∷ xs) workers t = elim (archive_run fuel workers x) [
  | archived workers' stats ↦ archive_each fuel xs workers' (add_stats x.run_id stats t)
  | raised ↦ archive_each fuel xs workers (add_error x.run_id t)
  | endless ↦ none
]

-- The check of the workers may fail itself; then the list is used as it is.
unfoldable pub archive_details :
    ℕ → Bool → (ℕ → Pong) → ℕ → List Expired → List ℕ → Option (List ℕ × Totals)
unfolding check_workers archive_each
archive_details fuel checked ping next runs workers =
    archive_each fuel runs (if checked then (check_workers ping next workers).0 else workers)
      no_totals
