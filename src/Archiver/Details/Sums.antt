-- ===== src/Archiver/Details/Sums.antt =====
-- What the result of `archive_details` says of the runs.
use mathlib.Core.Path.{subst}
use mathlib.Core.List.{map-append}
use trajproxy.Base.{
  ℕ, ◌+◌, ◌*◌, ◌≤◌, ◌≡◌, refl, sym, map, ◌++◌, append-nil, append_assoc, String, Bool, true, false,
  some, List, [], ◌∷◌, if◌then◌else◌, length, length-append, tally, tally-append, All, arith,
  Bool-cases, inl, inr, not, ◌&&◌, not_empty,
}
use trajproxy.Archiver.{Session, Run}
use trajproxy.Archiver.Rounds.{Ended, ended, index_error, running, limit_of}
use trajproxy.Archiver.Rounds.Outcome.{reported, report, settle_pending, files_of, total_records}
use trajproxy.Archiver.Work.Rounds.{time_outs}
use trajproxy.Archiver.Work.Stops.{Stops, dispatch-Stops}
use trajproxy.Archiver.Details.{
  Pong, check_workers, Expired, Stats, RunEnd, archived, raised, endless, conclude,
  conclude_dispatch, archive_sessions, archive_run, Detail, Totals, no_totals, add_stats, add_error,
  archive_each, archive_details,
}

-- The first list is divided into the other two, each of which has the order of the first.
pub data Divides : List String → List String → List String → Type 0 where
  nothing : Divides [] [] []
  to_details :
      {runs archived_runs errors : List String} (run : String)
      → Divides runs archived_runs errors
      → Divides (runs ++ run ∷ []) (archived_runs ++ run ∷ []) errors
  to_errors :
      {runs archived_runs errors : List String} (run : String)
      → Divides runs archived_runs errors
      → Divides (runs ++ run ∷ []) archived_runs (errors ++ run ∷ [])

abbrev pub run_of : Detail → String
run_of d = d.run_id

-- The result adds up: its details and its errors are those of the runs, and what it counts is what
-- its details list.
pub record AddsUp (runs : List String) (t : Totals) : Type 0 where
  pub divided : Divides runs (map run_of t.details) t.errors
  pub processed : t.runs_processed ≡ length t.details
  pub sessions : t.sessions_archived ≡ tally (λ (d : Detail). d.sessions) t.details
  pub files : t.sessions_archived ≡ length t.archive_files
  pub records : t.records_archived ≡ tally (λ (d : Detail). d.records) t.details

abbrev pub expired_run : Expired → String
expired_run x = x.run_id

-- The fuel is enough for every run.
abbrev pub IsEnough : ℕ → List Expired → Type 0
IsEnough fuel runs = All (λ x. 8 * length x.sessions + time_outs fuel x.events ≤ fuel) runs

error-AddsUp :
    (runs : List String) (run : String) (t : Totals)
    → AddsUp runs t
    → AddsUp (runs ++ run ∷ []) (add_error run t)
unfolding add_error
error-AddsUp runs run t h = record {
  divided = to_errors run h.divided;
  processed = h.processed;
  sessions = h.sessions;
  files = h.files;
  records = h.records;
}

stats-AddsUp :
    (runs : List String) (run : String) (s : Stats) (t : Totals)
    → s.sessions ≡ length s.files
    → AddsUp runs t
    → AddsUp (runs ++ run ∷ []) (add_stats run s t)
unfolding add_stats
stats-AddsUp runs run s t e h =
    let new : List Detail =
      record {
        run_id = run;
        sessions = s.sessions;
        records = s.records;
        failed_sessions = s.failed_sessions;
      }
      ∷ [] in
    record {
      divided =
          subst (λ l. Divides (runs ++ run ∷ []) l t.errors) (sym (map-append run_of t.details new))
            (to_details run h.divided);
      processed = omega (arith, h.processed, length-append {0} t.details new);
      sessions =
          omega (arith, h.sessions, tally-append {0} (λ (d : Detail). d.sessions) t.details new);
      files = omega (arith, h.files, e, length-append {0} t.archive_files s.files);
      records =
          omega (arith, h.records, tally-append {0} (λ (d : Detail). d.records) t.details new);
    }

-- The run ends, and its sessions are counted by its files.
abbrev EndsCounted : RunEnd → Type 0
EndsCounted (archived ws s) = s.sessions ≡ length s.files
EndsCounted raised = Unit
EndsCounted endless = ⊥

conclude-EndsCounted : (cleaned : Bool) (r : Run) → EndsCounted (conclude cleaned (report r))
unfolding conclude report
conclude-EndsCounted cleaned r =
    elim (Bool-cases (not (not_empty r.raw_results) && not_empty r.failed_sessions)) [
      | inl e ↦ rw (e, report) tt
      | inr e ↦ rw (e, report) (counted cleaned)
    ]
  where
    counted :
        (b : Bool)
        → EndsCounted (
            conclude b (
              reported (record {
                workers = r.available_workers;
                sessions = length (files_of r.raw_results);
                records = total_records r.raw_results;
                files = files_of r.raw_results;
                failed_sessions = length r.failed_sessions;
                cleaned = r.successful_session_ids;
              })))
    counted true = refl
    counted false = tt

dispatch-EndsCounted :
    (limit : ℕ) (cleaned : Bool) (o : Ended)
    → Stops o
    → EndsCounted (conclude_dispatch limit cleaned o)
unfolding conclude_dispatch
dispatch-EndsCounted limit cleaned (ended r) h =
    conclude-EndsCounted cleaned (settle_pending limit r)
dispatch-EndsCounted limit cleaned index_error h = tt
dispatch-EndsCounted limit cleaned (running r) h = h

run-EndsCounted :
    (fuel : ℕ) (workers : List ℕ) (x : Expired) (ss : List Session)
    → 8 * length ss + time_outs fuel x.events ≤ fuel
    → EndsCounted (archive_sessions fuel workers x ss)
unfolding archive_sessions
run-EndsCounted fuel workers x [] h = refl
run-EndsCounted fuel workers x (s ∷ ss) h =
    dispatch-EndsCounted (limit_of workers) x.cleaned _
      (dispatch-Stops fuel x.accepts x.events (s ∷ ss) workers x.next h)

each-AddsUp :
    (fuel : ℕ) (runs : List Expired) (workers : List ℕ) (before : List String) (t : Totals)
    → IsEnough fuel runs
    → AddsUp before t
    → (ws : List ℕ) × (t' : Totals) × (archive_each fuel runs workers t ≡ some (ws, t'))
      × AddsUp (before ++ map expired_run runs) t'
unfolding archive_each archive_run
each-AddsUp fuel [] workers before t f h = (workers, t, refl, rw (append-nil before) h)
each-AddsUp fuel (x ∷ xs) workers before t (f, fs) h =
    go (archive_run fuel workers x) refl (run-EndsCounted fuel workers x x.sessions f)
      (λ ws t'. each-AddsUp fuel xs ws (before ++ x.run_id ∷ []) t' fs)
  where
    next : (before ++ x.run_id ∷ []) ++ map expired_run xs ≡ before ++ x.run_id ∷ map expired_run xs
    next = append_assoc before (x.run_id ∷ []) (map expired_run xs)

    Adds : List Expired → List ℕ → Totals → List String → Type 0
    Adds ys ws t' all =
        (ws' : List ℕ) × (t'' : Totals) × (archive_each fuel ys ws t' ≡ some (ws', t''))
        × AddsUp all t''

    go :
        (o : RunEnd)
        → archive_run fuel workers x ≡ o
        → EndsCounted o
        → ((ws : List ℕ) (t' : Totals)
            → AddsUp (before ++ x.run_id ∷ []) t'
            → Adds xs ws t' ((before ++ x.run_id ∷ []) ++ map expired_run xs))
        → Adds (x ∷ xs) workers t (before ++ x.run_id ∷ map expired_run xs)
    go (archived ws s) e c ih =
        let (ws', t', p, a) =
          ih ws (add_stats x.run_id s t) (stats-AddsUp before x.run_id s t c h) in
        (ws', t', rw (e, archive_each) p, rw (← next) a)
    go raised e c ih =
        let (ws', t', p, a) =
          ih workers (add_error x.run_id t) (error-AddsUp before x.run_id t h) in
        (ws', t', rw (e, archive_each) p, rw (← next) a)
    go endless e c ih = absurd c

-- With fuel for 8 rounds for each session of a run, besides its time-outs, the archiving of the
-- expired runs ends, and it divides the runs, in their order, into those of the details and those
-- among the errors. The counts of the runs, of the sessions and of the records are those of the
-- details, and the sessions are the files.
pub archive_details-AddsUp :
    (fuel : ℕ) (checked : Bool) (ping : ℕ → Pong) (next : ℕ) (runs : List Expired)
    (workers : List ℕ)
    → IsEnough fuel runs
    → (ws : List ℕ) × (t : Totals) × (archive_details fuel checked ping next runs workers
        ≡ some (ws, t))
      × AddsUp (map expired_run runs) t
unfolding archive_details
archive_details-AddsUp fuel checked ping next runs workers f =
    each-AddsUp fuel runs (if checked then (check_workers ping next workers).0 else workers) []
      no_totals f
      (record {
        divided = nothing;
        processed = refl;
        sessions = refl;
        files = refl;
        records = refl;
      })
