-- ===== src/Tests/Races.antt =====
-- Runs of the archiver in which the lists of its sessions overlap or have gaps.
use trajproxy.Base.{ℕ, ◌≡◌, refl, false, none, some, List, [], ◌∷◌, ◌==◌, nat_eq, length, contains}
use trajproxy.Base.Dict.{get, put}
use trajproxy.Archiver.{
  Session, fill_each, assign_each, rebuild_worker, replace_worker, submit, put_back, fail,
  count_failure, fail_count, count_rebuild, retry_or_fail, abort_each, drop_exceeded, below_limit,
  exceeded,
}
use trajproxy.Archiver.Rounds.{
  Event, result, raised, Ended, ended, index_error, running, dispatch, rounds, wait_round, has_work,
  run_init, pick, cancel_each, on_death, assign_next, archived, on_done, after_assign,
}

-- The numbers of the sessions that have failed, are archived, and are active at the end.
abbrev shape : Ended → ℕ × (ℕ × ℕ)
shape (ended r) = (length r.failed_sessions, (length r.successful_session_ids, length r.active))
shape index_error = (9, (9, 9))
shape (running r) = (8, (8, 8))

abbrev four_workers : List ℕ
four_workers = 0 ∷ 1 ∷ 2 ∷ 3 ∷ []

-- Every submission fails until the fourth worker of the first pass takes the session.
abbrev late_acceptance : ℕ → Event
late_acceptance n = record {
  done = some 0;
  reply = result (record { records = 1; file = none });
  accepts = λ i. i == 3;
}

-- The only session is archived and on record as failed.
failed_and_archived :
    shape (dispatch 8 (λ i. false) late_acceptance (some "a" ∷ []) four_workers 4) ≡ (1, (1, 0))
unfolding dispatch rounds wait_round has_work run_init fill_each assign_each rebuild_worker
    replace_worker submit put_back fail count_failure fail_count count_rebuild retry_or_fail
    abort_each drop_exceeded below_limit exceeded pick cancel_each on_death assign_next archived
    on_done after_assign get put contains
failed_and_archived = refl

-- The first submission of each pass is accepted, the other fails; every task raises an exception.
abbrev exceptions : ℕ → Event
exceptions n = record { done = some 0; reply = raised; accepts = λ i. i == 0 }

abbrev eight_sessions : List Session
eight_sessions =
    some "a" ∷ some "b" ∷ some "c" ∷ some "d" ∷ some "e" ∷ some "f" ∷ some "g" ∷ some "h" ∷ []

-- The limit of rebuilds is reached in a pass that has submitted a session, which stays active.
left_active :
    shape (dispatch 20 (λ i. i == 0) exceptions eight_sessions (0 ∷ 1 ∷ []) 2) ≡ (5, (0, 1))
unfolding dispatch rounds wait_round has_work run_init fill_each assign_each rebuild_worker
    replace_worker submit put_back fail count_failure fail_count count_rebuild retry_or_fail
    abort_each drop_exceeded below_limit exceeded pick cancel_each on_death assign_next archived
    on_done after_assign get put contains
left_active = refl
