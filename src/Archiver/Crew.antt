-- ===== src/Archiver/Crew.antt =====
-- The workers of a run: the list of the workers and the tasks that they have.
pub mod Passes
pub mod Turns
use trajproxy.Base.{
  ℕ, zero, suc, ◌+◌, ◌≤◌, ◌≡◌, refl, Bool, true, false, Option, none, some, List, [], ◌∷◌, ◌++◌,
  ◌==◌, nat_eq, if◌then◌else◌, leb, tally, tally-append, arith, Bool-cases, inl, inr,
}
use trajproxy.Archiver.{
  Entry, Task, Run, replace_worker, rebuild_worker, submit, put_back, fail, count_failure,
  fail_count, count_rebuild, with_pending, retry_or_fail, abort_each, fill_each, assign_each,
  drop_exceeded,
}

-- 1 at `w`
abbrev pub is_worker : ℕ → ℕ → ℕ
is_worker w v = if v == w then 1 else 0

abbrev pub has_task : ℕ → Task → ℕ
has_task w t = is_worker w t.worker

abbrev pub count : ℕ → List ℕ → ℕ
count w ws = tally (is_worker w) ws

abbrev pub tasks : ℕ → List Task → ℕ
tasks w ts = tally (has_task w) ts

-- The workers are distinct, the ones to come are new, and each has at most one task. `free` are
-- workers that have none.
pub record Crew (free : List ℕ) (r : Run) : Type 0 where
  pub busy : (w : ℕ) → tasks w r.active + count w free ≤ count w r.available_workers
  pub distinct : (w : ℕ) → count w r.available_workers ≤ 1
  pub ahead : (w : ℕ) → r.next_worker ≤ w → count w r.available_workers ≡ 0

-- The steps that touch neither the workers nor the tasks.
abbrev pub SameCrew : Run → Run → Type 0
SameCrew r r' =
    (r'.active ≡ r.active)
    × (r'.available_workers ≡ r.available_workers)
    × (r'.next_worker ≡ r.next_worker)

pub same-Crew : (free : List ℕ) (r r' : Run) → SameCrew r r' → Crew free r → Crew free r'
same-Crew free r r' (a, b, c) k = record {
  busy = λ w. rw (a, b) (k.busy w);
  distinct = λ w. rw b (k.distinct w);
  ahead = λ w h. rw b (k.ahead w (omega (arith, c, h)));
}

pub SameCrew-retry : (e : Entry) (r : Run) → SameCrew r (retry_or_fail e r)
unfolding retry_or_fail put_back fail
SameCrew-retry e r = ground arith

pub SameCrew-abort : (es : List Entry) (r : Run) → SameCrew r (abort_each es r)
unfolding abort_each fail count_failure
SameCrew-abort [] r = (refl, refl, refl)
SameCrew-abort (e ∷ es) r = SameCrew-abort es (fail e _ (count_failure e.1 r))

count-replace :
    (dead new : ℕ) (ws : List ℕ)
    → 1 ≤ count dead ws
    → (ws' : List ℕ) × (replace_worker dead new ws ≡ some ws')
      × ((w : ℕ) → count w ws' + is_worker w dead ≡ count w ws + is_worker w new)
unfolding replace_worker
count-replace dead new [] h = absurd (omega (arith, h))
count-replace dead new (v ∷ ws) h = elim (Bool-cases (v == dead)) [
  | inl e ↦ (new ∷ ws, rw (e, replace_worker) refl, λ w. ground (arith, e, nat_eq.beq_iff v dead))
  | inr e ↦
      let (ws', p, q) = count-replace dead new ws (ground (arith, h, e)) in
      (v ∷ ws', rw (e, p, replace_worker) refl, λ w. omega (arith, q w))
]

-- A worker that has no task is replaced.
pub rebuild-Crew :
    (dead : ℕ) (free : List ℕ) (r : Run)
    → Crew (dead ∷ free) r
    → (r' : Run) × (rebuild_worker dead r ≡ some r')
      × Crew free r'
      × (r'.consecutive_rebuilds ≡ r.consecutive_rebuilds)
unfolding rebuild_worker
rebuild-Crew dead free r k =
    let (ws, p, q) =
      count-replace dead r.next_worker r.available_workers (ground (arith, k.busy dead)) in
    (
      record r {
        available_workers = ws;
        worker_rebuilds = suc r.worker_rebuilds;
        next_worker = suc r.next_worker;
      },
      rw (p, rebuild_worker) refl,
      record {
        busy = λ w. ground (arith, k.busy w, k.distinct w, q w);
        distinct = λ w. ground (arith, k.distinct w, q w, k.ahead w);
        ahead = λ w h. ground (arith, q w, k.ahead w, h);
      },
      refl,
    )

pub submit-Crew :
    (w : ℕ) (e : Entry) (free : List ℕ) (r : Run) → Crew (w ∷ free) r → Crew free (submit w e r)
unfolding submit
submit-Crew w e free r k = record {
  busy = λ v. omega (
    arith,
    k.busy v,
    tally-append {0} (has_task v) r.active (record { worker = w; session = e.1; idx = e.0 } ∷ []),
  );
  distinct = k.distinct;
  ahead = k.ahead;
}

pub free-Crew : (free : List ℕ) (w : ℕ) (r : Run) → Crew (w ∷ free) r → Crew free r
free-Crew free w r k = record {
  busy = λ v. omega (arith, k.busy v);
  distinct = k.distinct;
  ahead = k.ahead;
}

pub none-Crew : (free : List ℕ) (r : Run) → Crew free r → Crew [] r
none-Crew [] r k = k
none-Crew (w ∷ free) r k = none-Crew free r (free-Crew free w r k)
