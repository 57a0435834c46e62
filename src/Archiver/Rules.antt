-- ===== src/Archiver/Rules.antt =====
-- Induction over the passes: what each step of a pass keeps, the pass keeps.
use trajproxy.Base.{
  ℕ, suc, ◌≡◌, refl, Bool, true, Option, none, some, List, [], ◌∷◌, ◌++◌, leb, Bool-cases,
  Option-cases, inl, inr,
}
use trajproxy.Archiver.{
  Entry, Run, rebuild_worker, submit, put_back, count_failure, count_rebuild, with_pending,
  abort_each, fill_each, assign_each,
}

-- The state in which a submission has failed.
abbrev pub broken : List Entry → Run → Run
broken es r = count_rebuild (with_pending es r)

-- What a pass keeps: `P` at the workers that are left, `Q` at the end.
pub record PassRule (limit : ℕ) (stop again : Entry → Run → Run) (P : List ℕ → Run → Type 0)
    (Q : Option Run → Type 0) : Type 0 where
  pub finish : (ws : List ℕ) (r : Run) → P ws r → Q (some r)
  pub accepted :
      (w : ℕ) (ws : List ℕ) (e : Entry) (es : List Entry) (r : Run)
      → r.pending ≡ e ∷ es
      → P (w ∷ ws) r
      → P ws (submit w e (with_pending es r))
  pub stopped :
      (w : ℕ) (ws : List ℕ) (e : Entry) (es : List Entry) (r : Run)
      → r.pending ≡ e ∷ es
      → P (w ∷ ws) r
      → leb limit (broken es r).consecutive_rebuilds ≡ true
      → Q (some (stop e (broken es r)))
  pub lost :
      (w : ℕ) (ws : List ℕ) (e : Entry) (es : List Entry) (r : Run)
      → r.pending ≡ e ∷ es
      → P (w ∷ ws) r
      → rebuild_worker w (broken es r) ≡ none
      → Q none
  pub refused :
      (w : ℕ) (ws : List ℕ) (e : Entry) (es : List Entry) (r r' : Run)
      → r.pending ≡ e ∷ es
      → P (w ∷ ws) r
      → rebuild_worker w (broken es r) ≡ some r'
      → P ws (again e r')

-- How a refused session is treated by the pass between rounds, and at the limit by the first pass.
abbrev pub counted_back : Entry → Run → Run
counted_back e r = put_back e (count_failure e.1 r)

unfoldable pub abort : Entry → Run → Run
abort e r = with_pending [] (abort_each (r.pending ++ e ∷ []) r)

module _ (limit : ℕ) (accepts : ℕ → Bool) (P : List ℕ → Run → Type 0)
    (Q : Option Run → Type 0) where
  pub assign-rule :
      PassRule limit put_back counted_back P Q
      → (ws : List ℕ) (i : ℕ) (r : Run) → P ws r
      → Q (assign_each limit accepts i ws r)
  unfolding assign_each
  assign-rule h [] i r p = h.finish [] r p
  assign-rule h (w ∷ ws) i r p = go r.pending refl (assign-rule h ws (suc i))
    where
      go :
          (queue : List Entry)
          → r.pending ≡ queue
          → ((x : Run) → P ws x → Q (assign_each limit accepts (suc i) ws x))
          → Q (assign_each limit accepts i (w ∷ ws) r)
      go [] q ih = rw (q, assign_each) (h.finish (w ∷ ws) r p)
      go (e ∷ es) q ih = elim (Bool-cases (accepts i)) [
        | inl a ↦
            rw (q, assign_each)
              (rw a (ih (submit w e (with_pending es r)) (h.accepted w ws e es r q p)))
        | inr a ↦ elim (Bool-cases (leb limit (broken es r).consecutive_rebuilds)) [
          | inl f ↦ rw (q, assign_each) (rw (a, f) (h.stopped w ws e es r q p f))
          | inr f ↦ elim (Option-cases (rebuild_worker w (broken es r))) [
            | inl g ↦ rw (q, assign_each) (rw (a, f, g) (h.lost w ws e es r q p g))
            | inr (x, g) ↦
                rw (q, assign_each)
                  (rw (a, f, g) (ih (counted_back e x) (h.refused w ws e es r x q p g)))
          ]
        ]
      ]

  pub fill-rule :
      PassRule limit abort put_back P Q
      → (ws : List ℕ) (i : ℕ) (r : Run) → P ws r
      → Q (fill_each limit accepts i ws r)
  unfolding fill_each abort count_rebuild
  fill-rule h [] i r p = h.finish [] r p
  fill-rule h (w ∷ ws) i r p = go r.pending refl (fill-rule h ws (suc i))
    where
      go :
          (queue : List Entry)
          → r.pending ≡ queue
          → ((x : Run) → P ws x → Q (fill_each limit accepts (suc i) ws x))
          → Q (fill_each limit accepts i (w ∷ ws) r)
      go [] q ih = rw (q, fill_each) (h.finish (w ∷ ws) r p)
      go (e ∷ es) q ih = elim (Bool-cases (accepts i)) [
        | inl a ↦
            rw (q, fill_each)
              (rw a (ih (submit w e (with_pending es r)) (h.accepted w ws e es r q p)))
        | inr a ↦ elim (Bool-cases (leb limit (broken es r).consecutive_rebuilds)) [
          | inl f ↦ rw (q, fill_each) (rw (a, f) (h.stopped w ws e es r q p f))
          | inr f ↦ elim (Option-cases (rebuild_worker w (broken es r))) [
            | inl g ↦ rw (q, fill_each) (rw (a, f, g) (h.lost w ws e es r q p g))
            | inr (x, g) ↦
                rw (q, fill_each) (rw (a, f, g) (ih (put_back e x) (h.refused w ws e es r x q p g)))
          ]
        ]
      ]
