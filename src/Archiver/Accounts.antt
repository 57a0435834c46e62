-- ===== src/Archiver/Accounts.antt =====
-- Where a session of a run stands is counted: it is pending, active, archived, or it has failed.
pub mod Dropping
pub mod Settling
pub mod Turns
pub mod Ending
pub mod Results
use trajproxy.Base.{
  ℕ, suc, ◌+◌, ◌≤◌, ◌≡◌, refl, Bool, true, false, Option, none, some, List, [], ◌∷◌, ◌++◌, ◌==◌,
  string_eq, option_eq, if◌then◌else◌, leb, ltb, tally, tally-append, arith, ap, Bool-cases, inl,
  inr,
}
use trajproxy.Archiver.{
  Session, Entry, Task, Failed, Reason, Run, rebuild_worker, submit, put_back, fail, count_failure,
  fail_count, count_rebuild, with_pending, abort_each, fill_each, assign_each, retry_or_fail,
  max_session_retries, rebuild_limit, retries_exceeded,
}
use trajproxy.Archiver.Rules.{PassRule, broken, counted_back, abort, assign-rule, fill-rule}
use trajproxy.Archiver.Work.{rebuilt, rebuild-cases}

-- 1 at `s`
abbrev pub is_session : Session → Session → ℕ
is_session s x = if x == s then 1 else 0

abbrev pub of_entry : Session → Entry → ℕ
of_entry s e = is_session s e.1

abbrev pub of_task : Session → Task → ℕ
of_task s t = is_session s t.session

abbrev pub of_failed : Session → Failed → ℕ
of_failed s f = is_session s f.session

-- How often `s` is archived or still to be.
abbrev pub placed : Session → Run → ℕ
placed s r =
    tally (of_entry s) r.pending
    + tally (of_task s) r.active
    + tally (is_session s) r.successful_session_ids

abbrev pub failures : Session → Run → ℕ
failures s r = tally (of_failed s) r.failed_sessions

-- `n` more times `s` is placed or failed, and no failure is taken back.
pub record Moves (s : Session) (n : ℕ) (r r' : Run) : Type 0 where
  pub total : placed s r' + failures s r' ≡ placed s r + failures s r + n
  pub grows : failures s r ≤ failures s r'

module _ (s : Session) where
  pub submit-Moves : (w : ℕ) (e : Entry) (r : Run) → Moves s (of_entry s e) r (submit w e r)
  unfolding submit
  submit-Moves w e r = record {
    total = omega (
      arith,
      tally-append {0} (of_task s) r.active (record { worker = w; session = e.1; idx = e.0 } ∷ []),
    );
    grows = omega arith;
  }

  pub back-Moves : (e : Entry) (r : Run) → Moves s (of_entry s e) r (put_back e r)
  unfolding put_back
  back-Moves e r = record {
    total = omega (arith, tally-append {0} (of_entry s) r.pending (e ∷ []));
    grows = omega arith;
  }

  pub fail-Moves : (e : Entry) (why : Reason) (r : Run) → Moves s (of_entry s e) r (fail e why r)
  unfolding fail
  fail-Moves e why r =
      let more =
        tally-append {0} (of_failed s) r.failed_sessions
          (record { session = e.1; idx = some e.0; error = why } ∷ []) in
      record { total = omega (arith, more); grows = omega (arith, more) }

  pub retry-Moves : (e : Entry) (r : Run) → Moves s (of_entry s e) r (retry_or_fail e r)
  unfolding retry_or_fail
  retry-Moves e r = elim (Bool-cases (ltb (fail_count e.1 r) max_session_retries)) [
    | inl a ↦ rw (a, retry_or_fail) (back-Moves e r)
    | inr a ↦ rw (a, retry_or_fail) (fail-Moves e retries_exceeded r)
  ]

  abort-Moves : (es : List Entry) (r : Run) → Moves s (tally (of_entry s) es) r (abort_each es r)
  unfolding abort_each count_failure
  abort-Moves [] r = record { total = omega arith; grows = omega arith }
  abort-Moves (e ∷ es) r =
      let m = fail-Moves e rebuild_limit (count_failure e.1 r) in
      let k = abort-Moves es (fail e rebuild_limit (count_failure e.1 r)) in
      record { total = omega (arith, m.total, k.total); grows = omega (arith, m.grows, k.grows) }

  -- The queue that a pass reads is what it leaves of it.
  abort-pending : (es : List Entry) (r : Run) → (abort_each es r).pending ≡ r.pending
  unfolding abort_each fail count_failure
  abort-pending [] r = refl
  abort-pending (e ∷ es) r = abort-pending es (fail e rebuild_limit (count_failure e.1 r))

  abbrev pub PassMoves : ℕ → Run → Option Run → Type 0
  PassMoves n r none = Unit
  PassMoves n r (some r') = Moves s n r r'

  pub then-Moves :
      (n m k : ℕ) (r x y : Run) → k ≡ n + m → Moves s n r x → Moves s m x y → Moves s k r y
  then-Moves n m k r x y e a b = record {
    total = omega (arith, e, a.total, b.total);
    grows = omega (arith, a.grows, b.grows);
  }

  assign_rule :
      (limit : ℕ) (r : Run)
      → PassRule limit put_back counted_back (λ ws x. Moves s 0 r x) (PassMoves 0 r)
  unfolding count_rebuild count_failure
  assign_rule limit r = record {
    finish = λ ws x h. h;
    accepted = λ w ws e es x q h.
        let m = submit-Moves w e (with_pending es x) in
        record {
          total = omega (arith, h.total, m.total, ap (tally (of_entry s)) q);
          grows = omega (arith, h.grows, m.grows);
        };
    stopped = λ w ws e es x q h f.
        let m = back-Moves e (broken es x) in
        record {
          total = omega (arith, h.total, m.total, ap (tally (of_entry s)) q);
          grows = omega (arith, h.grows, m.grows);
        };
    lost = λ w ws e es x q h g. tt;
    refused = λ w ws e es x y q h g. elim (rebuild-cases w (broken es x)) [
      | inl f ↦ cc (f, g)
      | inr (new, f) ↦
          let same : rebuilt new (broken es x) ≡ y = cc (f, g) in
          let m = back-Moves e (count_failure e.1 (rebuilt new (broken es x))) in
          rw (← same) (record {
            total = omega (arith, h.total, m.total, ap (tally (of_entry s)) q);
            grows = omega (arith, h.grows, m.grows);
          })
    ];
  }

  pub assign-Moves :
      (limit : ℕ) (accepts : ℕ → Bool) (ws : List ℕ) (i : ℕ) (r : Run)
      → PassMoves 0 r (assign_each limit accepts i ws r)
  assign-Moves limit accepts ws i r =
      assign-rule limit accepts (λ v x. Moves s 0 r x) (PassMoves 0 r) (assign_rule limit r) ws i r
        (record { total = omega arith; grows = omega arith })

  fill_rule :
      (limit : ℕ) (r : Run) → PassRule limit abort put_back (λ ws x. Moves s 0 r x) (PassMoves 0 r)
  unfolding count_rebuild abort
  fill_rule limit r = record {
    finish = λ ws x h. h;
    accepted = (assign_rule limit r).accepted;
    stopped = λ w ws e es x q h f.
        let m = abort-Moves (es ++ e ∷ []) (broken es x) in
        record {
          total = omega (
            arith,
            h.total,
            m.total,
            ap (tally (of_entry s)) q,
            ap (tally (of_entry s)) (abort-pending (es ++ e ∷ []) (broken es x)),
            tally-append {0} (of_entry s) es (e ∷ []),
          );
          grows = omega (arith, h.grows, m.grows);
        };
    lost = λ w ws e es x q h g. tt;
    refused = λ w ws e es x y q h g. elim (rebuild-cases w (broken es x)) [
      | inl f ↦ cc (f, g)
      | inr (new, f) ↦
          let same : rebuilt new (broken es x) ≡ y = cc (f, g) in
          let m = back-Moves e (rebuilt new (broken es x)) in
          rw (← same) (record {
            total = omega (arith, h.total, m.total, ap (tally (of_entry s)) q);
            grows = omega (arith, h.grows, m.grows);
          })
    ];
  }

  pub fill-Moves :
      (limit : ℕ) (accepts : ℕ → Bool) (ws : List ℕ) (i : ℕ) (r : Run)
      → PassMoves 0 r (fill_each limit accepts i ws r)
  fill-Moves limit accepts ws i r =
      fill-rule limit accepts (λ v x. Moves s 0 r x) (PassMoves 0 r) (fill_rule limit r) ws i r
        (record { total = omega arith; grows = omega arith })
