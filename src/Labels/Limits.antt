-- ===== src/Labels/Limits.antt =====
-- Sequences of calls of the label guard.
use mathlib.Core.Path.{transport}
use trajproxy.Base.{
  ◌+◌, ◌≤◌, ◌≡◌, refl, ap, String, Bool, true, false, List, [], ◌∷◌, All, string_eq, leb, ◌==◌,
  ◌||◌, ◌&&◌, not, is_some, length, contains, arith, Bool-cases, inl, inr, leb→lt,
}
use trajproxy.Base.Dict.{Dict, get, put, pop, move_to_end, Distinct}
use trajproxy.Base.Dict.Laws.{
  get-put, get-pop, get-move, pop-Distinct, put-Distinct, move-Distinct, total-pop, total-put,
  total-move, length-total,
}
use trajproxy.Labels.{
  Guard, max_run_ids, guard_init, evict_first, make_space, safe_run_id_label,
  unregister_known_run_id, register_known_run_id, Call, registered, unregistered, labelled,
  call_one, calls,
}

-- `register_known_run_id` has no limit of its own.
abbrev pub IsGuarded : Call → Type 0
IsGuarded (registered run_id) = ⊥
IsGuarded (unregistered run_id) = Unit
IsGuarded (labelled run_id) = Unit

pub record IsBounded (d : Dict String Unit) : Type 0 where
  pub distinct : Distinct d
  pub small : length d ≤ max_run_ids

pop-IsBounded : (k : String) (d : Dict String Unit) → IsBounded d → IsBounded (pop k d)
pop-IsBounded k d h = record {
  distinct = pop-Distinct k d h.distinct;
  small =
      omega
        (arith, length-total (pop k d), length-total d, total-pop (λ _. 1) k d h.distinct, h.small);
}

move-IsBounded : (k : String) (d : Dict String Unit) → IsBounded d → IsBounded (move_to_end k d)
move-IsBounded k d h = record {
  distinct = move-Distinct k d h.distinct;
  small = omega (
    arith,
    length-total (move_to_end k d),
    length-total d,
    total-move (λ _. 1) k d h.distinct,
    h.small,
  );
}

put-IsBounded :
    (k : String) (d : Dict String Unit)
    → Distinct d
    → length d + 1 ≤ max_run_ids
    → IsBounded (put k tt d)
put-IsBounded k d h n = record {
  distinct = put-Distinct k tt d h;
  small = omega (arith, length-total (put k tt d), length-total d, total-put (λ _. 1) k tt d, n);
}

make_space-room :
    (g : Guard)
    → IsBounded g.known
    → Distinct (make_space g).known × (length (make_space g).known + 1 ≤ max_run_ids)
unfolding make_space evict_first
make_space-room g h = elim (Bool-cases (leb max_run_ids (length g.known))) [
  | inr small ↦
      rw (small, make_space) (h.distinct, omega (arith, leb→lt max_run_ids (length g.known) small))
  | inl full ↦ rw (full, make_space) (go g.known refl)
]
  where
    go :
        (d : Dict String Unit)
        → g.known ≡ d
        → Distinct (evict_first g).known × (length (evict_first g).known + 1 ≤ max_run_ids)
    go [] e = let same : (evict_first g).known ≡ [] = ground (arith, e) in rw same (tt, omega arith)
    go ((k, u) ∷ d) e =
        let same : (evict_first g).known ≡ d = ground (arith, e) in
        let once : Distinct ((k, u) ∷ d) = transport (ap Distinct e) h.distinct in
        rw same (once.1, omega (arith, ap length e, h.small))

call_one-IsBounded :
    (c : Call) (g : Guard) → IsGuarded c → IsBounded g.known → IsBounded (call_one c g).known
unfolding call_one unregister_known_run_id safe_run_id_label
call_one-IsBounded (registered run_id) g i h = elim i [ ]
call_one-IsBounded (unregistered run_id) g i h = elim (Bool-cases (is_some (get run_id g.known))) [
  | inl there ↦ rw (there, call_one, unregister_known_run_id) (pop-IsBounded run_id g.known h)
  | inr absent ↦ rw (absent, call_one, unregister_known_run_id) h
]
call_one-IsBounded (labelled run_id) g i h = elim (Bool-cases (run_id == "")) [
  | inl empty ↦ rw (empty, call_one, safe_run_id_label) h
  | inr named ↦
      rw (named, call_one, safe_run_id_label)
        (elim (Bool-cases (is_some (get run_id g.known))) [
          | inl there ↦ rw there (move-IsBounded run_id g.known h)
          | inr absent ↦ rw absent (
              put-IsBounded run_id (make_space g).known (make_space-room g h).0
                (make_space-room g h).1)
        ])
]

calls-IsBounded :
    (cs : List Call) (g : Guard)
    → All IsGuarded cs
    → IsBounded g.known
    → IsBounded (calls cs g).known
unfolding calls
calls-IsBounded [] g i h = h
calls-IsBounded (c ∷ cs) g i h =
    calls-IsBounded cs (call_one c g) i.1 (call_one-IsBounded c g i.0 h)

-- The label that a call hands out.
unfoldable pub was_labelled : String → List Call → Bool
was_labelled k [] = false
was_labelled k (labelled run_id ∷ cs) = (run_id == k && not (run_id == "")) || was_labelled k cs
was_labelled k (registered run_id ∷ cs) = was_labelled k cs
was_labelled k (unregistered run_id ∷ cs) = was_labelled k cs

-- The id is a label, or its clean-up was called.
abbrev pub accounted : String → Guard → Bool
accounted k g = is_some (get k g.known) || contains k g.cleaned

accounted-make_space :
    (k : String) (g : Guard) → accounted k g ≡ true → accounted k (make_space g) ≡ true
unfolding make_space evict_first contains get
accounted-make_space k g h = go g.known refl
  where
    go : (d : Dict String Unit) → g.known ≡ d → accounted k (make_space g) ≡ true
    go [] e = ground (arith, e, h)
    go ((j, u) ∷ d) e = ground (arith, e, h)

accounted-call_one :
    (k : String) (c : Call) (g : Guard) → accounted k g ≡ true → accounted k (call_one c g) ≡ true
unfolding call_one register_known_run_id unregister_known_run_id safe_run_id_label contains
accounted-call_one k (registered run_id) g h = ground (arith, h, get-put run_id k tt g.known)
accounted-call_one k (unregistered run_id) g h =
    ground (arith, h, get-pop run_id k g.known, string_eq.beq_iff run_id k)
accounted-call_one k (labelled run_id) g h = ground (
  arith,
  h,
  accounted-make_space k g h,
  get-move run_id k g.known,
  get-put run_id k tt (make_space g).known,
)

accounted-calls :
    (k : String) (cs : List Call) (g : Guard)
    → accounted k g ≡ true
    → accounted k (calls cs g) ≡ true
unfolding calls
accounted-calls k [] g h = h
accounted-calls k (c ∷ cs) g h = accounted-calls k cs (call_one c g) (accounted-call_one k c g h)

labelled-accounted :
    (k run_id : String) (g : Guard)
    → (run_id == k && not (run_id == "")) ≡ true
    → accounted k (call_one (labelled run_id) g) ≡ true
unfolding call_one safe_run_id_label
labelled-accounted k run_id g h = ground (
  arith,
  h,
  string_eq.beq_iff run_id k,
  get-move run_id k g.known,
  get-put run_id k tt (make_space g).known,
)

was_labelled-accounted :
    (k : String) (cs : List Call) (g : Guard)
    → was_labelled k cs ≡ true
    → accounted k (calls cs g) ≡ true
unfolding was_labelled calls
was_labelled-accounted k [] g h = ground (arith, h)
was_labelled-accounted k (registered run_id ∷ cs) g h =
    was_labelled-accounted k cs (call_one (registered run_id) g) h
was_labelled-accounted k (unregistered run_id ∷ cs) g h =
    was_labelled-accounted k cs (call_one (unregistered run_id) g) h
was_labelled-accounted k (labelled run_id ∷ cs) g h =
    elim (Bool-cases (run_id == k && not (run_id == ""))) [
      | inl now ↦
          accounted-calls k cs (call_one (labelled run_id) g) (labelled-accounted k run_id g now)
      | inr later ↦
          was_labelled-accounted k cs (call_one (labelled run_id) g) (ground (arith, h, later))
    ]

-- After any calls but `register_known_run_id` at most 30 run ids are labels, each once, and every
-- run id that was ever handed out as a label is still known or its clean-up was called.
pub calls_lem :
    (cs : List Call)
    → All IsGuarded cs
    → IsBounded (calls cs guard_init).known
      × ((k : String) → was_labelled k cs ≡ true → accounted k (calls cs guard_init) ≡ true)
unfolding guard_init
calls_lem cs h = (
  calls-IsBounded cs guard_init h (record { distinct = tt; small = omega arith }),
  λ k e. was_labelled-accounted k cs guard_init e,
)
