-- ===== src/Archiver/Work.antt =====
-- The work that is left: how often the sessions of a run can still be submitted and fail.
pub mod Passes
pub mod Filling
pub mod Turns
pub mod Rounds
pub mod Ending
pub mod Stops
use trajproxy.Base.{
  ℕ, suc, ◌+◌, ◌-◌, ◌*◌, ◌≤◌, ◌<◌, ◌≡◌, refl, ◌⊎◌, Bool, true, false, Option, none, some, List, [],
  ◌∷◌, ◌++◌, ◌==◌, nat_eq, string_eq, option_eq, option_beq_iff, ==_refl, if◌then◌else◌, ltb, leb,
  tally, tally-append, tally_mono, arith, Bool-cases, Option-cases, inl, inr,
}
use trajproxy.Base.Dict.{Dict, get, put}
use trajproxy.Base.Dict.Laws.{get-put}
use trajproxy.Archiver.{
  Session, Entry, Task, Run, rebuild_worker, replace_worker, put_back, fail, count_failure,
  fail_count, retry_or_fail, max_session_retries,
}

pub equal : (s x : Session) → (s == x) ≡ true → s ≡ x
equal s x e = (option_beq_iff s x).0 e

pub equal_refl : (s : Session) → (s == s) ≡ true
equal_refl s = ==_refl s

-- The failures that a session has left before it is given up.
unfoldable pub chances : Dict Session ℕ → Session → ℕ
chances counts s = 3 - elim (get s counts) [ none ↦ 0 | some n ↦ n ]

abbrev pub waits : Dict Session ℕ → Entry → ℕ
waits counts e = 2 * chances counts e.1 + 2

abbrev pub runs : Dict Session ℕ → Task → ℕ
runs counts t = 2 * chances counts t.session + 1

-- The work of a state between rounds.
abbrev pub work : Run → ℕ
work r = tally (waits r.session_fail_counts) r.pending + tally (runs r.session_fail_counts) r.active

abbrev pub FewerChances : Run → Run → Type 0
FewerChances r r' =
    (s : Session) → chances r'.session_fail_counts s ≤ chances r.session_fail_counts s

chances-put :
    (s x : Session) (n : ℕ) (counts : Dict Session ℕ)
    → chances (put s n counts) x ≡ (if s == x then 3 - n else chances counts x)
unfolding chances
chances-put s x n counts = elim (Bool-cases (s == x)) [
  | inl e ↦ rw (get-put s x n counts) (simp e)
  | inr e ↦ rw (get-put s x n counts) (simp e)
]

chances_fail :
    (s : Session) (r : Run) → 3 - (fail_count s r + 1) ≡ chances r.session_fail_counts s - 1
unfolding chances fail_count
chances_fail s r = omega arith

pub chances-count :
    (s x : Session) (r : Run)
    → chances (count_failure s r).session_fail_counts x
      ≡ chances r.session_fail_counts x - (if s == x then 1 else 0)
unfolding count_failure
chances-count s x r = elim (Bool-cases (s == x)) [
  | inl e ↦
      rw (chances-put s x (fail_count s r + 1) r.session_fail_counts)
        (simp e (rw (← equal s x e) (chances_fail s r)))
  | inr e ↦ rw (chances-put s x (fail_count s r + 1) r.session_fail_counts) (simp e (omega arith))
]

pub FewerChances-count : (s : Session) (r : Run) → FewerChances r (count_failure s r)
FewerChances-count s r x = ground (arith, chances-count s x r)

pub chances_left :
    (s : Session) (r : Run)
    → ltb (fail_count s r) max_session_retries ≡ true
    → 1 ≤ chances r.session_fail_counts s
unfolding chances fail_count
chances_left s r h = ground (arith, h)

pub no_chances :
    (s : Session) (r : Run)
    → ltb (fail_count s r) max_session_retries ≡ false
    → chances r.session_fail_counts s ≡ 0
unfolding chances fail_count
no_chances s r h = ground (arith, h)

-- The list of the workers with the replacement.
abbrev pub rebuilt : List ℕ → Run → Run
rebuilt ws r = record r {
  available_workers = ws;
  worker_rebuilds = suc r.worker_rebuilds;
  next_worker = suc r.next_worker;
}

pub rebuild-cases :
    (dead : ℕ) (r : Run)
    → (rebuild_worker dead r ≡ none)
      ⊎ ((ws : List ℕ) × (rebuild_worker dead r ≡ some (rebuilt ws r)))
unfolding rebuild_worker
rebuild-cases dead r = elim (Option-cases (replace_worker dead r.next_worker r.available_workers)) [
  | inl e ↦ inl (rw (e, rebuild_worker) refl)
  | inr (ws, e) ↦ inr (ws, rw (e, rebuild_worker) refl)
]
