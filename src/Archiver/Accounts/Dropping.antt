-- ===== src/Archiver/Accounts/Dropping.antt =====
-- What is dropped from the queue without a record of its own is on the record of its session.
use trajproxy.Base.{
  ℕ, ◌+◌, ◌≤◌, ◌≡◌, refl, true, false, Option, none, some, List, [], ◌∷◌, ◌==◌, ◌&&◌, not,
  string_eq, option_eq, leb, ltb, tally, tally-append, arith, Bool-cases, inl, inr,
}
use trajproxy.Base.Dict.{Dict, get}
use trajproxy.Archiver.{
  Session, Entry, Failed, Run, fail_count, max_session_retries, is_failed, below_limit, exceeded,
  drop_exceeded,
}
use trajproxy.Archiver.Work.{equal, equal_refl}
use trajproxy.Archiver.Accounts.{of_entry, of_failed, placed, failures}

-- `s` is placed no more often, no failure of it is taken back, and it is not lost.
pub record Accounted (s : Session) (r r' : Run) : Type 0 where
  pub fewer : placed s r' ≤ placed s r
  pub grows : failures s r ≤ failures s r'
  pub kept : 1 ≤ placed s r + failures s r → 1 ≤ placed s r' + failures s r'

module _ (s : Session) where
  other :
      (f : Failed) (fs : List Failed)
      → (f.session == s) ≡ false
      → is_failed s (f ∷ fs) ≡ true
      → is_failed s fs ≡ true
  other f fs e h = ground (arith, e, h)

  pub is_failed-of_failed :
      (failed : List Failed) → is_failed s failed ≡ true → 1 ≤ tally (of_failed s) failed
  is_failed-of_failed [] h = cc
  is_failed-of_failed (f ∷ fs) h = elim (Bool-cases (f.session == s)) [
    | inl e ↦ rw e (omega arith)
    | inr e ↦ rw e (omega (arith, is_failed-of_failed fs (other f fs e h)))
  ]

  exceeded_first :
      (n : ℕ) (counts : Dict Session ℕ) (failed : List Failed)
      → leb max_session_retries n ≡ true
      → 1 ≤ tally (of_failed s) failed + tally (of_failed s) (exceeded ((s, n) ∷ counts) failed)
  unfolding exceeded
  exceeded_first n counts failed h = elim (Bool-cases (is_failed s failed)) [
    | inl f ↦ omega (arith, is_failed-of_failed failed f)
    | inr f ↦ rw (h, f) (rw (equal_refl s) (omega arith))
  ]

  exceeded_more :
      (x : Session) (n : ℕ) (counts : Dict Session ℕ) (failed : List Failed)
      → tally (of_failed s) (exceeded counts failed)
        ≤ tally (of_failed s) (exceeded ((x, n) ∷ counts) failed)
  unfolding exceeded
  exceeded_more x n counts failed =
      elim (Bool-cases (leb max_session_retries n && not (is_failed x failed))) [
        | inl e ↦ rw e (omega arith)
        | inr e ↦ rw e (omega arith)
      ]

  found :
      (x : Session) (m n : ℕ) (counts : Dict Session ℕ)
      → (x == s) ≡ true
      → get s ((x, m) ∷ counts) ≡ some n
      → m ≡ n
  unfolding get
  found x m n counts e g = ground (arith, e, g)

  passed :
      (x : Session) (m n : ℕ) (counts : Dict Session ℕ)
      → (x == s) ≡ false
      → get s ((x, m) ∷ counts) ≡ some n
      → get s counts ≡ some n
  unfolding get
  passed x m n counts e g = ground (arith, e, g)

  -- A count at the limit has a record, old or new.
  exceeded-of_failed :
      (counts : Dict Session ℕ) (n : ℕ) (failed : List Failed)
      → get s counts ≡ some n
      → leb max_session_retries n ≡ true
      → 1 ≤ tally (of_failed s) failed + tally (of_failed s) (exceeded counts failed)
  unfolding get
  exceeded-of_failed [] n failed g h = cc
  exceeded-of_failed ((x, m) ∷ counts) n failed g h = elim (Bool-cases (x == s)) [
    | inl e ↦
        let same : m ≡ n = found x m n counts e g in
        rw (equal x s e, same) (exceeded_first n counts failed h)
    | inr e ↦ omega (
      arith,
      exceeded-of_failed counts n failed (passed x m n counts e g) h,
      exceeded_more x m counts failed,
    )
  ]

  below_limit-of_entry :
      (r : Run) (es : List Entry)
      → ltb (fail_count s r) max_session_retries ≡ true
      → tally (of_entry s) (below_limit r es) ≡ tally (of_entry s) es
  unfolding below_limit
  below_limit-of_entry r [] h = refl
  below_limit-of_entry r (e ∷ es) h = elim (Bool-cases (e.1 == s)) [
    | inl f ↦
        let below : ltb (fail_count e.1 r) max_session_retries ≡ true = rw (equal e.1 s f) h in
        rw (below, below_limit) (omega (arith, below_limit-of_entry r es h))
    | inr f ↦ elim (Bool-cases (ltb (fail_count e.1 r) max_session_retries)) [
      | inl g ↦ rw (g, below_limit) (omega (arith, below_limit-of_entry r es h))
      | inr g ↦ rw (g, below_limit, f) (omega (arith, below_limit-of_entry r es h))
    ]
  ]

  below_limit_fewer :
      (r : Run) (es : List Entry) → tally (of_entry s) (below_limit r es) ≤ tally (of_entry s) es
  unfolding below_limit
  below_limit_fewer r [] = omega arith
  below_limit_fewer r (e ∷ es) = ground (arith, below_limit_fewer r es)

  -- A count at the limit is in the dict.
  counted :
      (r : Run)
      → ltb (fail_count s r) max_session_retries ≡ false
      → (n : ℕ) × (get s r.session_fail_counts ≡ some n) × (leb max_session_retries n ≡ true)
  unfolding fail_count
  counted r h = go (get s r.session_fail_counts) refl
    where
      go :
          (o : Option ℕ)
          → get s r.session_fail_counts ≡ o
          → (n : ℕ) × (get s r.session_fail_counts ≡ some n) × (leb max_session_retries n ≡ true)
      go none e = absurd (ground (arith, h, e))
      go (some n) e = (n, e, ground (arith, h, e))

  pub drop-Accounted : (r : Run) → Accounted s r (drop_exceeded r)
  unfolding drop_exceeded
  drop-Accounted r =
      let more =
        tally-append {0} (of_failed s) r.failed_sessions
          (exceeded r.session_fail_counts r.failed_sessions) in
      record {
        fewer = omega (arith, below_limit_fewer r r.pending);
        grows = omega (arith, more);
        kept = λ h. elim (Bool-cases (ltb (fail_count s r) max_session_retries)) [
          | inl f ↦ omega (arith, h, more, below_limit-of_entry r r.pending f)
          | inr f ↦
              let (n, g, l) = counted r f in
              omega (arith, more, exceeded-of_failed r.session_fail_counts n r.failed_sessions g l)
        ];
      }
