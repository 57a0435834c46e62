-- ===== src/Archiver/Work/Passes.antt =====
-- The passes over the workers leave no more work, and the pass between rounds leaves less.
use Prim.Native.Nat.{min}
use trajproxy.Base.{
  ℕ, suc, ◌+◌, ◌*◌, ◌≤◌, ◌≡◌, ◌⊎◌, Bool, true, Option, none, some, List, [], ◌∷◌, nat_eq, string_eq,
  option_eq, leb, tally, tally-append, tally_mono, arith, ap, Bool-cases, inl, inr,
}
use trajproxy.Base.Dict.{Dict}
use trajproxy.Archiver.{
  Session, Entry, Task, Run, submit, put_back, count_failure, count_rebuild, with_pending,
  assign_each,
}
use trajproxy.Archiver.Rules.{broken, assign-rule}
use trajproxy.Archiver.Work.{
  equal_refl, chances, waits, runs, work, FewerChances, chances-count, FewerChances-count, rebuilt,
  rebuild-cases,
}

-- The weight of a pending session during a pass.
abbrev pub due : Dict Session ℕ → Entry → ℕ
due counts e = 2 * chances counts e.1 + 1 + min 1 (chances counts e.1)

abbrev pub load : Run → ℕ
load r = tally (due r.session_fail_counts) r.pending + tally (runs r.session_fail_counts) r.active

module _ (r r' : Run) (h : FewerChances r r') where
  pub fewer_waits :
      (p : List Entry)
      → tally (waits r'.session_fail_counts) p ≤ tally (waits r.session_fail_counts) p
  fewer_waits p = tally_mono _ _ p (λ e. omega (arith, h e.1))

  pub fewer_runs :
      (p : List Task) → tally (runs r'.session_fail_counts) p ≤ tally (runs r.session_fail_counts) p
  fewer_runs p = tally_mono _ _ p (λ e. omega (arith, h e.session))

  pub fewer_due :
      (p : List Entry) → tally (due r'.session_fail_counts) p ≤ tally (due r.session_fail_counts) p
  fewer_due p = tally_mono _ _ p (λ e. omega (arith, h e.1))

  -- The first session of the pass fails to be submitted.
  pub due_waits :
      (p : List Entry)
      → tally (due r'.session_fail_counts) p ≤ tally (waits r.session_fail_counts) p
  due_waits p = tally_mono _ _ p (λ e. omega (arith, h e.1))

submit-load :
    (w : ℕ) (e : Entry) (es : List Entry) (r : Run)
    → r.pending ≡ e ∷ es
    → load (submit w e (with_pending es r)) ≤ load r
unfolding submit
submit-load w e es r q = omega (
  arith,
  ap (tally (due r.session_fail_counts)) q,
  tally-append {0} (runs r.session_fail_counts) r.active
      (record { worker = w; session = e.1; idx = e.0 } ∷ []),
)

refuse-load :
    (e : Entry) (r : Run)
    → load (put_back e (count_failure e.1 r)) ≤ load r + due r.session_fail_counts e
unfolding put_back count_failure
refuse-load e r =
    let counted = count_failure e.1 r in
    let h = FewerChances-count e.1 r in
    omega (
      arith,
      h e.1,
      fewer_due r counted h r.pending,
      fewer_runs r counted h r.active,
      tally-append {0} (due counted.session_fail_counts) r.pending (e ∷ []),
    )

submit-lighter :
    (w : ℕ) (e : Entry) (es : List Entry) (r : Run)
    → suc (load (submit w e (with_pending es r)))
      ≤ tally (waits r.session_fail_counts) (e ∷ es) + tally (runs r.session_fail_counts) r.active
unfolding submit
submit-lighter w e es r = omega (
  arith,
  due_waits r r (λ s. omega arith) es,
  tally-append {0} (runs r.session_fail_counts) r.active
      (record { worker = w; session = e.1; idx = e.0 } ∷ []),
)

-- The first refusal of a pass: the session has a chance less, or none is left to it.
refuse-lighter :
    (e : Entry) (r : Run)
    → suc (load (put_back e (count_failure e.1 r))) ≤ work r + waits r.session_fail_counts e
unfolding put_back count_failure
refuse-lighter e r =
    let counted = count_failure e.1 r in
    let h = FewerChances-count e.1 r in
    ground (
      arith,
      chances-count e.1 e.1 r,
      equal_refl e.1,
      due_waits r counted h r.pending,
      fewer_runs r counted h r.active,
      tally-append {0} (due counted.session_fail_counts) r.pending (e ∷ []),
    )

-- A pass that ends leaves at most this.
abbrev pub Within : ℕ → Option Run → Type 0
Within b none = Unit
Within b (some r) = load r ≤ b

-- A pass that has a worker and a session ends with less, or at the limit of rebuilds.
abbrev pub Progress : ℕ → ℕ → Option Run → Type 0
Progress limit b none = Unit
Progress limit b (some r) = (suc (load r) ≤ b) ⊎ (leb limit r.consecutive_rebuilds ≡ true)

Within-Progress : (limit m b : ℕ) (o : Option Run) → suc m ≤ b → Within m o → Progress limit b o
Within-Progress limit m b none g h = tt
Within-Progress limit m b (some r) g h = inl (omega (arith, g, h))

module _ (limit : ℕ) (accepts : ℕ → Bool) where
  assign-Within :
      (b : ℕ) (ws : List ℕ) (i : ℕ) (r : Run)
      → load r ≤ b
      → Within b (assign_each limit accepts i ws r)
  unfolding put_back count_rebuild
  assign-Within b =
      assign-rule limit accepts (λ ws r. load r ≤ b) (Within b)
        (record {
          finish = λ ws r h. h;
          accepted = λ w ws e es r q h. omega (arith, submit-load w e es r q, h);
          stopped = λ w ws e es r q h f. omega (
            arith,
            ap (tally (due r.session_fail_counts)) q,
            h,
            tally-append {0} (due r.session_fail_counts) es (e ∷ []),
          );
          lost = λ w ws e es r q h g. tt;
          refused = λ w ws e es r r' q h g. elim (rebuild-cases w (broken es r)) [
            | inl f ↦ cc (f, g)
            | inr (new, f) ↦
                let same : rebuilt new (broken es r) ≡ r' = cc (f, g) in
                rw (← same) (
                  omega (
                    arith,
                    ap (tally (due r.session_fail_counts)) q,
                    h,
                    refuse-load e (rebuilt new (broken es r)),
                  ))
          ];
        })

  pub assign-Progress :
      (b : ℕ) (w : ℕ) (ws : List ℕ) (e : Entry) (es : List Entry) (i : ℕ) (r : Run)
      → r.pending ≡ e ∷ es
      → work r ≤ b
      → Progress limit b (assign_each limit accepts i (w ∷ ws) r)
  unfolding assign_each put_back count_rebuild
  assign-Progress b w ws e es i r q h =
      let weight = ap (tally (waits r.session_fail_counts)) q in
      let given = submit w e (with_pending es r) in
      elim (Bool-cases (accepts i)) [
        | inl a ↦
            rw (q, assign_each)
              (rw a (
                Within-Progress limit (load given) b (assign_each limit accepts (suc i) ws given)
                  (omega (arith, weight, h, submit-lighter w e es r))
                  (assign-Within (load given) ws (suc i) given (omega arith))))
        | inr a ↦ elim (Bool-cases (leb limit (broken es r).consecutive_rebuilds)) [
          | inl f ↦ rw (q, assign_each) (rw (a, f) (inr f))
          | inr f ↦ elim (rebuild-cases w (broken es r)) [
            | inl g ↦ rw (q, assign_each) (rw (a, f, g) tt)
            | inr (new, g) ↦
                let back = put_back e (count_failure e.1 (rebuilt new (broken es r))) in
                rw (q, assign_each)
                  (rw (a, f, g)
                    (Within-Progress limit (load back) b (assign_each limit accepts (suc i) ws back)
                      (omega (arith, weight, h, refuse-lighter e (rebuilt new (broken es r))))
                      (assign-Within (load back) ws (suc i) back (omega arith))))
          ]
        ]
      ]
