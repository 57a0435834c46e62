-- ===== src/Tests/Archives.antt =====
-- The theorems on the archiver, at concrete inputs.
use trajproxy.Base.{
  ℕ, ◌+◌, ◌≡◌, refl, Bool, true, false, not, ◌&&◌, Option, none, some, List, [], ◌∷◌, map, contains,
  string_eq, arith, All, nat_eq, ◌==◌, if◌then◌else◌,
}
use trajproxy.Texts.{Text}
use trajproxy.Archiver.{Session, Run}
use trajproxy.Archiver.Rounds.{Event, result, died, ended, limit_of, dispatch}
use trajproxy.Archiver.Crew.{Crew}
use trajproxy.Archiver.Work.Rounds.{time_outs}
use trajproxy.Archiver.Work.Ending.{Fresh, dispatch-ended}
use trajproxy.Archiver.Accounts.Results.{Settled, dispatch-Settled}
use trajproxy.Archiver.Cleanup.{Database, cleanup_run}
use trajproxy.Archiver.Cleanup.Exact.{belongs, mark, cleanup-Exact}
use trajproxy.Archiver.Keys.Distinct.{IsPlain, IsNamed, archive_key-distinct}
use trajproxy.Archiver.Export.{archive, archive_of, archive_complete}
use trajproxy.Archiver.Details.{Pong, alive, dead, Expired, Totals, archive_details}
use trajproxy.Archiver.Details.Sums.{AddsUp, expired_run, archive_details-AddsUp}

abbrev two_sessions : List Session
two_sessions = some "a" ∷ none ∷ []

abbrev two_workers : List ℕ
two_workers = 0 ∷ 1 ∷ []

two_workers-Fresh : Fresh two_workers 2
two_workers-Fresh = ((λ w. ground arith), λ w h. ground (arith, h))

abbrev accepts_all : ℕ → Bool
accepts_all i = true

-- The first task that is active dies in the last round but two, and else is done.
abbrev one_death : ℕ → Event
one_death n = record {
  done = some 0;
  reply = if n == 14 then died else result (record { records = 3; file = some "f" });
  accepts = accepts_all;
}

dispatch-ended_example :
    (r : Run) × (dispatch 16 accepts_all one_death two_sessions two_workers 2 ≡ ended r) × Crew [] r
unfolding time_outs
dispatch-ended_example =
    dispatch-ended 16 accepts_all one_death two_sessions two_workers 2 two_workers-Fresh
      (omega arith)

dispatch-Settled_example :
    (r : Run) × (dispatch 16 accepts_all one_death two_sessions two_workers 2 ≡ ended r)
    × Settled (some "a") two_sessions (limit_of two_workers) r
unfolding time_outs
dispatch-Settled_example =
    dispatch-Settled 16 accepts_all one_death two_sessions two_workers 2 (some "a")
      two_workers-Fresh (omega arith) (omega arith)

abbrev two_rows : Database
two_rows = record {
  metadata =
      record {
        unique_id = "u";
        run_id = "run";
        session_id = none;
        archive_location = none;
        archived_at = none;
      }
      ∷ record {
        unique_id = "v";
        run_id = "run";
        session_id = some "a";
        archive_location = none;
        archived_at = none;
      }
      ∷ [];
  details = "u" ∷ "v" ∷ [];
}

cleanup-Exact_example :
    (contains "u" (cleanup_run "run" "s3" 7 (none ∷ []) two_rows).details
      ≡ (contains "u" two_rows.details && not (belongs "run" (none ∷ []) two_rows.metadata "u")))
    × ((cleanup_run "run" "s3" 7 (none ∷ []) two_rows).metadata
        ≡ map (mark "run" (none ∷ []) "s3" 7) two_rows.metadata)
cleanup-Exact_example = cleanup-Exact "run" "s3" 7 (none ∷ []) two_rows "u"

abbrev code : ℕ → ℕ
code n = n + 1

abbrev location : Text → List ℕ → Option Text
location key lines = some key

archive_complete_example :
    archive code location 4 true (97 ∷ []) none (1 ∷ 2 ∷ 3 ∷ [])
    ≡ some (archive_of code location true (97 ∷ []) none (1 ∷ 2 ∷ 3 ∷ []))
archive_complete_example =
    archive_complete code location 4 true (97 ∷ []) none (1 ∷ 2 ∷ 3 ∷ []) (omega arith)

abbrev run_a : Text
run_a = 97 ∷ []

run_a-IsPlain : All IsPlain run_a
run_a-IsPlain = ((ground arith, ground arith), tt)

abbrev session_b : Option Text
session_b = some (98 ∷ [])

session_b-IsNamed : IsNamed session_b
session_b-IsNamed = (ground arith, ground arith, ((ground arith, ground arith), tt))

archive_key-distinct_example : (run_a ≡ run_a) × (session_b ≡ session_b)
archive_key-distinct_example =
    archive_key-distinct true run_a run_a session_b session_b run_a-IsPlain run_a-IsPlain
      session_b-IsNamed session_b-IsNamed refl

abbrev first_dead : ℕ → Pong
first_dead w = if w == 0 then dead else alive

abbrev two_runs : List Expired
two_runs =
    record {
      run_id = "x";
      sessions = two_sessions;
      accepts = accepts_all;
      events = one_death;
      cleaned = true;
      next = 2;
    }
    ∷ record {
      run_id = "y";
      sessions = some "b" ∷ [];
      accepts = accepts_all;
      events = one_death;
      cleaned = false;
      next = 9;
    }
    ∷ []

archive_details-AddsUp_example :
    (ws : List ℕ) × (t : Totals) × (archive_details 16 true first_dead 2 two_runs two_workers
      ≡ some (ws, t))
    × AddsUp (map expired_run two_runs) t
unfolding time_outs
archive_details-AddsUp_example =
    archive_details-AddsUp 16 true first_dead 2 two_runs two_workers
      (omega arith, (omega arith, tt))
