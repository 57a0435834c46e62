-- ===== src/Archiver/Work/Rounds.antt =====
-- A round after which the loop goes on leaves less work.
use trajproxy.Base.{
  ℕ, zero, suc, ◌+◌, ◌*◌, ◌≤◌, ◌≡◌, refl, Bool, true, false, Option, none, some, List, [], ◌∷◌,
  if◌then◌else◌, leb, tally, arith, ap, Bool-cases, inl, inr, is_some, length,
}
use trajproxy.Archiver.{Session, Entry, Task, Run, fail, assign_each, drop_exceeded}
use trajproxy.Archiver.Rounds.{
  Reply, result, died, raised, Event, pick, archived, on_done, Round, again, left, crashed, going,
  after_assign, wait_round, has_work, numbered,
}
use trajproxy.Base.Dict.{get}
use trajproxy.Archiver.Crew.Turns.{tally-pick}
use trajproxy.Archiver.Work.{chances, waits, runs, work}
use trajproxy.Archiver.Work.Filling.{AtMost}
use trajproxy.Archiver.Work.Passes.{Progress, assign-Progress}
use trajproxy.Archiver.Work.Turns.{below_limit-work, on_death-AtMost, assign_next-AtMost}

on_done-AtMost :
    (limit : ℕ) (reply : Reply) (accepted : Bool) (t : Task) (r : Run)
    → AtMost
        (work r + 2 * chances r.session_fail_counts t.session)
        (on_done limit reply accepted t r)
unfolding on_done archived fail
on_done-AtMost limit (result a) accepted t r =
    assign_next-AtMost _ limit accepted t.worker (archived a t r) (omega arith)
on_done-AtMost limit died accepted t r = on_death-AtMost limit t r
on_done-AtMost limit raised accepted t r = omega arith

-- A round after which the loop goes on leaves less than `b`.
abbrev pub Eased : ℕ → Round → Type 0
Eased b (again r) = suc (work r) ≤ b
Eased b (left r) = Unit
Eased b crashed = Unit

pub going-Eased : (m b : ℕ) (o : Option Run) → suc m ≤ b → AtMost m o → Eased b (going o)
going-Eased m b none g h = tt
going-Eased m b (some r) g h = omega (arith, g, h)

after-Eased : (b limit : ℕ) (o : Option Run) → Progress limit b o → Eased b (after_assign limit o)
unfolding after_assign drop_exceeded
after-Eased b limit none h = tt
after-Eased b limit (some r) h = elim (Bool-cases (leb limit r.consecutive_rebuilds)) [
  | inl f ↦ rw (f, after_assign) tt
  | inr f ↦
      rw (f, after_assign)
        (elim h [
          | inl g ↦ omega (arith, g, below_limit-work r r.pending)
          | inr g ↦ ground (arith, f, g)
        ])
]

pass_over :
    (limit : ℕ) (accepts : ℕ → Bool) (all : List ℕ) (w : ℕ) (ws : List ℕ) (x : Entry)
    (p : List Entry) (r : Run)
    → all ≡ w ∷ ws
    → r.pending ≡ x ∷ p
    → Progress limit (work r) (assign_each limit accepts 0 all r)
pass_over limit accepts all w ws x p r f e =
    rw f (assign-Progress limit accepts (work r) w ws x p 0 r e (omega arith))

pub assign-Eased :
    (limit : ℕ) (ev : Event) (r : Run)
    → r.active ≡ []
    → has_work limit r ≡ true
    → Eased (work r) (wait_round limit ev [] r)
unfolding wait_round has_work
assign-Eased limit ev r q h = go r.pending r.available_workers refl refl
  where
    go :
        (p : List Entry) (ws : List ℕ)
        → r.pending ≡ p
        → r.available_workers ≡ ws
        → Eased (work r) (wait_round limit ev [] r)
    go [] ws e f = absurd (ground (arith, h, q, e))
    go (x ∷ p) [] e f = absurd (ground (arith, h, q, f))
    go (x ∷ p) (w ∷ ws) e f =
        after-Eased (work r) limit (assign_each limit ev.accepts 0 r.available_workers r)
          (pass_over limit ev.accepts r.available_workers w ws x p r f e)

pub done-Eased :
    (limit : ℕ) (ev : Event) (n : ℕ) (t : Task) (ts : List Task) (r : Run)
    → r.active ≡ t ∷ ts
    → ev.done ≡ some n
    → Eased (work r) (wait_round limit ev (t ∷ ts) r)
unfolding wait_round
done-Eased limit ev n t ts r q d =
    let done = (pick n t ts).0 in
    let rest = record r { active = (pick n t ts).1 } in
    rw (d, wait_round)
      (going-Eased (work rest + 2 * chances r.session_fail_counts done.session) (work r)
        (on_done limit ev.reply (ev.accepts 0) done rest)
        (omega (
          arith,
          tally-pick (runs r.session_fail_counts) n t ts,
          ap (tally (runs r.session_fail_counts)) q,
        ))
        (on_done-AtMost limit ev.reply (ev.accepts 0) done rest))

pub more-Eased : (b c : ℕ) (o : Round) → b ≤ c → Eased b o → Eased c o
more-Eased b c (again r) g h = omega (arith, g, h)
more-Eased b c (left r) g h = tt
more-Eased b c crashed g h = tt

pub no_work : (limit : ℕ) (r : Run) → work r ≤ 0 → has_work limit r ≡ false
unfolding has_work
no_work limit r h = go r.pending r.active refl refl
  where
    go :
        (p : List Entry) (ts : List Task) → r.pending ≡ p → r.active ≡ ts → has_work limit r ≡ false
    go [] [] e f = ground (arith, e, f)
    go (x ∷ p) ts e f = absurd (omega (arith, h, ap (tally (waits r.session_fail_counts)) e))
    go [] (t ∷ ts) e f = absurd (omega (arith, h, ap (tally (runs r.session_fail_counts)) f))

-- The rounds in which `ray.wait` runs into its time-out.
unfoldable pub time_outs : ℕ → (ℕ → Event) → ℕ
time_outs zero events = 0
time_outs (suc n) events = (if is_some (events n).done then 0 else 1) + time_outs n events

pub work-numbered :
    (n : ℕ) (sessions : List Session) → tally (waits []) (numbered n sessions) ≡ 8 * length sessions
unfolding chances get
work-numbered n [] = omega arith
work-numbered n (s ∷ ss) = omega (arith, work-numbered (suc n) ss)

pub wait_round-Eased :
    (limit : ℕ) (ev : Event) (ts : List Task) (r : Run)
    → r.active ≡ ts
    → has_work limit r ≡ true
    → Eased (work r + (if is_some ev.done then 0 else 1)) (wait_round limit ev ts r)
unfolding wait_round
wait_round-Eased limit ev [] r q h =
    more-Eased (work r) _ (wait_round limit ev [] r) (omega arith) (assign-Eased limit ev r q h)
wait_round-Eased limit ev (t ∷ ts) r q h = go ev.done refl
  where
    go :
        (d : Option ℕ)
        → ev.done ≡ d
        → Eased (work r + (if is_some ev.done then 0 else 1)) (wait_round limit ev (t ∷ ts) r)
    go none d = simp (d, wait_round) (omega arith)
    go (some n) d =
        more-Eased (work r) _ (wait_round limit ev (t ∷ ts) r) (omega arith)
          (done-Eased limit ev n t ts r q d)
