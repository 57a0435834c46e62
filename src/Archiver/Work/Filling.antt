-- ===== src/Archiver/Work/Filling.antt =====
-- The first pass, which gives each worker a session, leaves no more work.
use trajproxy.Base.{
  ℕ, ◌≤◌, ◌≡◌, Bool, Option, none, some, List, [], ◌∷◌, ◌++◌, tally, tally-append, arith, ap, inl,
  inr,
}
use trajproxy.Archiver.{
  Entry, Run, submit, put_back, fail, count_failure, count_rebuild, with_pending, abort_each,
  fill_each, rebuild_limit,
}
use trajproxy.Archiver.Rules.{broken, abort, fill-rule}
use trajproxy.Archiver.Crew.{SameCrew-abort}
use trajproxy.Archiver.Work.{
  waits, runs, work, FewerChances, FewerChances-count, rebuilt, rebuild-cases,
}
use trajproxy.Archiver.Work.Passes.{fewer_runs}

FewerChances-abort : (es : List Entry) (r : Run) → FewerChances r (abort_each es r)
unfolding abort_each fail
FewerChances-abort [] r s = omega arith
FewerChances-abort (e ∷ es) r s = omega (
  arith,
  FewerChances-abort es (fail e rebuild_limit (count_failure e.1 r)) s,
  FewerChances-count e.1 r s,
)

abort-work :
    (es : List Entry) (r : Run)
    → work (with_pending [] (abort_each es r)) ≤ tally (runs r.session_fail_counts) r.active
abort-work es r =
    let kept = SameCrew-abort es r in
    rw (kept.0) (omega (arith, fewer_runs r (abort_each es r) (FewerChances-abort es r) r.active))

abbrev pub AtMost : ℕ → Option Run → Type 0
AtMost b none = Unit
AtMost b (some r) = work r ≤ b

module _ (limit : ℕ) (accepts : ℕ → Bool) where
  pub fill-AtMost :
      (b : ℕ) (ws : List ℕ) (i : ℕ) (r : Run)
      → work r ≤ b
      → AtMost b (fill_each limit accepts i ws r)
  unfolding put_back count_rebuild submit abort
  fill-AtMost b =
      fill-rule limit accepts (λ ws r. work r ≤ b) (AtMost b)
        (record {
          finish = λ ws r h. h;
          accepted = λ w ws e es r q h. omega (
            arith,
            ap (tally (waits r.session_fail_counts)) q,
            h,
            tally-append {0} (runs r.session_fail_counts) r.active
                (record { worker = w; session = e.1; idx = e.0 } ∷ []),
          );
          stopped = λ w ws e es r q h f. omega (arith, h, abort-work (es ++ e ∷ []) (broken es r));
          lost = λ w ws e es r q h g. tt;
          refused = λ w ws e es r r' q h g. elim (rebuild-cases w (broken es r)) [
            | inl f ↦ cc (f, g)
            | inr (new, f) ↦
                let same : rebuilt new (broken es r) ≡ r' = cc (f, g) in
                rw (← same) (
                  omega (
                    arith,
                    ap (tally (waits r.session_fail_counts)) q,
                    h,
                    tally-append {0} (waits r.session_fail_counts) es (e ∷ []),
                  ))
          ];
        })
