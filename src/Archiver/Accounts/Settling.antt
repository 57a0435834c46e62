-- ===== src/Archiver/Accounts/Settling.antt =====
-- The clean-ups after the loop, and how the steps of a run compose.
use trajproxy.Base.{
  ℕ, ◌≤◌, ◌≡◌, refl, true, false, none, List, [], ◌∷◌, ◌==◌, ◌&&◌, not, not_empty, ◌∙◌, string_eq,
  option_eq, if◌then◌else◌, leb, tally, tally-append, arith, ap, Bool-cases, inl, inr,
}
use trajproxy.Archiver.{Session, Entry, Reason, Run, is_failed, rebuild_limit, no_workers}
use trajproxy.Archiver.Rounds.Outcome.{record_once, fail_rest, settle_pending, fail_pending}
use trajproxy.Archiver.Work.{equal}
use trajproxy.Archiver.Accounts.{is_session, of_entry, of_task, of_failed, failures, Moves}
use trajproxy.Archiver.Accounts.Dropping.{Accounted, is_failed-of_failed}

-- `n` times `s` gets on record, and nothing else changes for it.
record Recorded (s : Session) (n : ℕ) (r r' : Run) : Type 0 where
  grows : failures s r ≤ failures s r'
  active : r'.active ≡ r.active
  archived : r'.successful_session_ids ≡ r.successful_session_ids
  on_record : 1 ≤ n → 1 ≤ failures s r'

module _ (s : Session) (why : Reason) where
  -- The name of the session does not matter: it is `s`, or it is not counted.
  counts_once : (e : Entry) → 1 ≤ of_entry s e → e.1 ≡ s
  counts_once e h = elim (Bool-cases (e.1 == s)) [
    | inl f ↦ equal e.1 s f
    | inr f ↦ absurd (zero_not e f h)
  ]
    where
      zero_not : (e : Entry) → (e.1 == s) ≡ false → 1 ≤ of_entry s e → ⊥
      zero_not e f h = ground (arith, f, h)

  once-Recorded : (e : Entry) (r : Run) → Recorded s (of_entry s e) r (record_once why e r)
  unfolding record_once
  once-Recorded e r = elim (Bool-cases (is_failed e.1 r.failed_sessions)) [
    | inl f ↦
        rw (f, record_once)
          (record {
            grows = omega arith;
            active = refl;
            archived = refl;
            on_record = λ h.
                let failed : is_failed s r.failed_sessions ≡ true = rw (← counts_once e h) f in
                is_failed-of_failed s r.failed_sessions failed;
          })
    | inr f ↦
        let more =
          tally-append {0} (of_failed s) r.failed_sessions
            (record { session = e.1; idx = none; error = why } ∷ []) in
        rw (f, record_once)
          (record {
            grows = omega (arith, more);
            active = refl;
            archived = refl;
            on_record = λ h. omega (arith, more, h);
          })
  ]

  rest-Recorded :
      (es : List Entry) (r : Run) → Recorded s (tally (of_entry s) es) r (fail_rest why es r)
  unfolding fail_rest
  rest-Recorded [] r = record {
    grows = omega arith;
    active = refl;
    archived = refl;
    on_record = λ h. absurd (omega (arith, h));
  }
  rest-Recorded (e ∷ es) r =
      let once = once-Recorded e r in
      let more = rest-Recorded es (record_once why e r) in
      record {
        grows = omega (arith, once.grows, more.grows);
        active = more.active ∙ once.active;
        archived = more.archived ∙ once.archived;
        on_record = λ h. ground (arith, h, once.on_record, more.on_record, more.grows);
      }

  fail_pending-Accounted : (r : Run) → Accounted s r (fail_pending why r)
  fail_pending-Accounted r =
      let h = rest-Recorded r.pending r in
      let a = ap (tally (of_task s)) (h.active) in
      let b = ap (tally (is_session s)) (h.archived) in
      record {
        fewer = omega (arith, a, b);
        grows = h.grows;
        kept = λ p. ground (arith, p, a, b, h.grows, h.on_record);
      }

module _ (s : Session) where
  pub refl-Accounted : (r : Run) → Accounted s r r
  refl-Accounted r = record { fewer = omega arith; grows = omega arith; kept = λ h. h }

  pub trans-Accounted : (x y z : Run) → Accounted s x y → Accounted s y z → Accounted s x z
  trans-Accounted x y z a b = record {
    fewer = omega (arith, a.fewer, b.fewer);
    grows = omega (arith, a.grows, b.grows);
    kept = λ h. b.kept (a.kept h);
  }

  pub Moves-Accounted : (r r' : Run) → Moves s 0 r r' → Accounted s r r'
  Moves-Accounted r r' m = record {
    fewer = omega (arith, m.total, m.grows);
    grows = m.grows;
    kept = λ h. omega (arith, h, m.total);
  }

  pub settle-Accounted : (limit : ℕ) (r : Run) → Accounted s r (settle_pending limit r)
  unfolding settle_pending
  settle-Accounted limit r =
      elim (Bool-cases (leb limit r.consecutive_rebuilds && not_empty r.pending)) [
        | inl e ↦
            rw (e, settle_pending)
              (second (fail_pending rebuild_limit r) (fail_pending-Accounted s rebuild_limit r))
        | inr e ↦ rw (e, settle_pending) (second r (refl-Accounted r))
      ]
    where
      second :
          (x : Run)
          → Accounted s r x
          → Accounted s r (
              if not_empty x.pending && not (not_empty x.available_workers)
              then fail_pending no_workers x
              else x)
      second x h = elim (Bool-cases (not_empty x.pending && not (not_empty x.available_workers))) [
        | inl f ↦ rw f (
            trans-Accounted r x (fail_pending no_workers x) h
              (fail_pending-Accounted s no_workers x))
        | inr f ↦ rw f h
      ]

fail_pending-active : (why : Reason) (r : Run) → (fail_pending why r).active ≡ r.active
fail_pending-active why r = (rest-Recorded none why r.pending r).active

pub settle-active : (limit : ℕ) (r : Run) → (settle_pending limit r).active ≡ r.active
unfolding settle_pending
settle-active limit r =
    elim (Bool-cases (leb limit r.consecutive_rebuilds && not_empty r.pending)) [
      | inl e ↦ rw (e, settle_pending) (fail_pending-active rebuild_limit r)
      | inr e ↦ elim (Bool-cases (not_empty r.pending && not (not_empty r.available_workers))) [
        | inl f ↦ rw (e, settle_pending) (rw f (fail_pending-active no_workers r))
        | inr f ↦ rw (e, settle_pending) (rw f refl)
      ]
    ]
