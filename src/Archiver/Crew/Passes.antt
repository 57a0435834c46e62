-- ===== src/Archiver/Crew/Passes.antt =====
-- The loops over the workers: each worker is in the list when its turn comes.
use trajproxy.Base.{ℕ, ◌≡◌, refl, Bool, Option, none, some, List, [], ◌∷◌, ◌++◌}
use trajproxy.Archiver.{
  Entry, Run, put_back, count_failure, count_rebuild, with_pending, fill_each, assign_each,
}
use trajproxy.Archiver.Rules.{PassRule, broken, counted_back, abort, assign-rule, fill-rule}
use trajproxy.Archiver.Crew.{
  Crew, SameCrew, same-Crew, SameCrew-abort, rebuild-Crew, submit-Crew, none-Crew,
}

-- The pass ends, and leaves the workers in order.
abbrev pub PassesWell : Option Run → Type 0
PassesWell none = ⊥
PassesWell (some r) = Crew [] r

broken-Crew : (ws : List ℕ) (es : List Entry) (r : Run) → Crew ws r → Crew ws (broken es r)
unfolding count_rebuild
broken-Crew ws es r k = same-Crew ws r (broken es r) (refl, refl, refl) k

-- The steps of a pass, where a session that is refused or stopped at leaves the workers alone.
Crew-rule :
    (limit : ℕ) (stop again : Entry → Run → Run)
    → ((e : Entry) (r : Run) → SameCrew r (stop e r))
    → ((e : Entry) (r : Run) → SameCrew r (again e r))
    → PassRule limit stop again Crew PassesWell
Crew-rule limit stop again hs ha = record {
  finish = λ ws r k. none-Crew ws r k;
  accepted = λ w ws e es r q k.
      submit-Crew w e ws (with_pending es r)
        (same-Crew (w ∷ ws) r (with_pending es r) (refl, refl, refl) k);
  stopped = λ w ws e es r q k f.
      same-Crew [] (broken es r) (stop e (broken es r)) (hs e (broken es r))
        (none-Crew (w ∷ ws) (broken es r) (broken-Crew (w ∷ ws) es r k));
  lost = λ w ws e es r q k g.
      let (x, f, k', c) = rebuild-Crew w ws (broken es r) (broken-Crew (w ∷ ws) es r k) in
      cc (f, g);
  refused = λ w ws e es r r' q k g.
      let (x, f, k', c) = rebuild-Crew w ws (broken es r) (broken-Crew (w ∷ ws) es r k) in
      let same : x ≡ r' = cc (f, g) in same-Crew ws r' (again e r') (ha e r') (rw (← same) k');
}

SameCrew-put_back : (e : Entry) (r : Run) → SameCrew r (put_back e r)
unfolding put_back
SameCrew-put_back e r = (refl, refl, refl)

module _ (limit : ℕ) (accepts : ℕ → Bool) where
  pub fill-PassesWell :
      (ws : List ℕ) (i : ℕ) (r : Run) → Crew ws r → PassesWell (fill_each limit accepts i ws r)
  unfolding abort
  fill-PassesWell = fill-rule limit accepts Crew PassesWell (
      Crew-rule limit abort put_back (λ e r. SameCrew-abort (r.pending ++ e ∷ []) r)
        SameCrew-put_back)

  pub assign-PassesWell :
      (ws : List ℕ) (i : ℕ) (r : Run) → Crew ws r → PassesWell (assign_each limit accepts i ws r)
  unfolding put_back count_failure
  assign-PassesWell =
      assign-rule limit accepts Crew PassesWell
        (Crew-rule limit put_back counted_back SameCrew-put_back (λ e r. (refl, refl, refl)))
