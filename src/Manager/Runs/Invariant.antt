-- ===== src/Manager/Runs/Invariant.antt =====
-- The invariant of the manager along a run, event by event.
use trajproxy.Base.{
  ℕ, ◌<◌, ◌≡◌, refl, Bool, Option, none, some, List, [], ◌∷◌, string_eq, pair_eq, is_some, arith,
  inl, inr, Option-cases, Bool-cases,
}
use trajproxy.Base.Dict.{get, total}
use trajproxy.Models.{ModelKey, ModelConfig}
use trajproxy.Tokenizers.Counts.{IsCounted-empty}
use trajproxy.Manager.{Manager, config_of, touch}
use trajproxy.Manager.Loading.{Loaded, Entered, finished, suspended, hang, enter, resume, Suspended}
use trajproxy.Manager.Registry.{register_from_config}
use trajproxy.Manager.Soundness.{occurrences}
use trajproxy.Manager.Soundness.Entering.{
  IsLoading, IsSettled, LoadedWell, EnteredWell, enter-Settled, resume-Settled,
}
use trajproxy.Manager.Soundness.Harmless.{
  IsHarmless, IsHarmless-refl, IsLoading-IsHarmless, put_dynamic-IsHarmless, touch-IsHarmless,
  evict_idle-IsHarmless, clear_cache-IsHarmless, unregister_by_key-IsHarmless,
}
use trajproxy.Manager.Soundness.Syncs.{
  full_sync-IsHarmless, register_static-IsHarmless, register_begin-IsHarmless, rollback-IsHarmless,
  unregister_local-IsHarmless,
}
use trajproxy.Manager.Runs.{
  System, Event, static_registered, dynamic_registered, database_failed, unregistered, notified,
  removal_notified, synced, found_in_database, requested, entered, loaded, idle_scanned, cleared,
  request, settle, after_enter, take_lock, finish_load, act, step, run, init,
}

module _ {T : Type 0} where
  pub record IsConsistent (s : System T) : Type 0 where
    pub settled : IsSettled s.lost s.manager
    pub loading : (l : Suspended) → s.loading ≡ some l → IsLoading l s.manager

  pub act-IsHarmless : (ev : Event T) (m : Manager T) → IsHarmless m (act ev m)
  unfolding act register_from_config
  act-IsHarmless (static_registered fs r) m = register_static-IsHarmless fs r m
  act-IsHarmless (dynamic_registered fs r) m = register_begin-IsHarmless fs r m
  act-IsHarmless (database_failed key) m = rollback-IsHarmless key m
  act-IsHarmless (unregistered key) m = unregister_local-IsHarmless key m
  act-IsHarmless (notified c) m = put_dynamic-IsHarmless _ c m
  act-IsHarmless (removal_notified key) m = unregister_by_key-IsHarmless key m
  act-IsHarmless (synced db) m = full_sync-IsHarmless db m
  act-IsHarmless (found_in_database key c) m = put_dynamic-IsHarmless key c m
  act-IsHarmless (idle_scanned now) m = evict_idle-IsHarmless now m
  act-IsHarmless cleared m = clear_cache-IsHarmless m
  act-IsHarmless (requested key now) m = IsHarmless-refl m
  act-IsHarmless (entered built now) m = IsHarmless-refl m
  act-IsHarmless (loaded t built now) m = IsHarmless-refl m

  harmless_step :
      (s : System T) (m' : Manager T)
      → IsHarmless s.manager m'
      → IsConsistent s
      → IsConsistent (record s { manager = m' })
  harmless_step s m' h c = record {
    settled = record {
      sound = h.sound s.lost c.settled.sound;
      owned = h.owned c.settled.owned;
      limit = rw h.limit c.settled.limit;
    };
    loading = λ l e. IsLoading-IsHarmless c.settled.sound.distinct h (c.loading l e);
  }

  request-Consistent :
      (key : ModelKey) (now : ℕ) (s : System T) → IsConsistent s → IsConsistent (request key now s)
  unfolding request
  request-Consistent key now s c = elim (Bool-cases (is_some (get key s.manager.processor_cache))) [
    | inl e ↦
        rw (e, request)
          (harmless_step s (touch key now s.manager) (touch-IsHarmless key now s.manager) c)
    | inr e ↦ elim (Option-cases (config_of key s.manager)) [
      | inl f ↦ rw (e, request) (rw f c)
      | inr (cfg, f) ↦ rw (e, request) (rw f (record { settled = c.settled; loading = c.loading }))
    ]
  ]

  settle-Consistent :
      (l : Loaded T) (rest : List (ModelKey × ModelConfig)) (s : System T)
      → LoadedWell s.lost l
      → IsConsistent (settle l rest s)
  unfolding settle
  settle-Consistent l rest s h = record { settled = h; loading = λ l e. cc }

  -- The step ends, and what it leaves is consistent.
  abbrev pub StepsWell : Option (System T) → Type 0
  StepsWell none = ⊥
  StepsWell (some s) = IsConsistent s

  after_enter-StepsWell :
      (key : ModelKey) (config : ModelConfig) (r : Entered T) (rest : List (ModelKey × ModelConfig))
      (s : System T)
      → EnteredWell s.lost key config r
      → StepsWell (after_enter key config r rest s)
  unfolding after_enter
  after_enter-StepsWell key config (finished l) rest s h = settle-Consistent l rest s h
  after_enter-StepsWell key config (suspended path m) rest s h = record {
    settled = h.0;
    loading = λ l e.
        let same : record { key = key; config = config; path = path } ≡ l = cc (e) in
        rw (← same) (h.1);
  }
  after_enter-StepsWell key config hang rest s h = h

  take_lock-StepsWell :
      (built : Bool) (now : ℕ) (loading : Option Suspended)
      (waiting : List (ModelKey × ModelConfig)) (s : System T)
      → IsConsistent s
      → StepsWell (take_lock built now loading waiting s)
  unfolding take_lock
  take_lock-StepsWell built now (some l) waiting s c = c
  take_lock-StepsWell built now none [] s c = c
  take_lock-StepsWell built now none ((key, config) ∷ rest) s c =
      after_enter-StepsWell key config (enter key config built now s.manager) rest s
        (enter-Settled s.lost key config built now s.manager c.settled)

  finish_load-Consistent :
      (t : Option T) (built : Bool) (now : ℕ) (loading : Option Suspended) (s : System T)
      → s.loading ≡ loading
      → IsConsistent s
      → IsConsistent (finish_load t built now loading s)
  unfolding finish_load
  finish_load-Consistent t built now none s e c = c
  finish_load-Consistent t built now (some l) s e c =
      settle-Consistent (resume l.key l.config l.path t built now s.manager) s.waiting s
        (resume-Settled s.lost l t built now s.manager c.settled (c.loading l e))

  step-StepsWell : (ev : Event T) (s : System T) → IsConsistent s → StepsWell (step ev s)
  unfolding step
  step-StepsWell (requested key now) s c = request-Consistent key now s c
  step-StepsWell (entered built now) s c = take_lock-StepsWell built now s.loading s.waiting s c
  step-StepsWell (loaded t built now) s c = finish_load-Consistent t built now s.loading s refl c
  step-StepsWell ev s c = harmless_step s (act ev s.manager) (act-IsHarmless ev s.manager) c

  ends_well :
      (r : Option (System T)) → StepsWell r → (s' : System T) × (r ≡ some s') × IsConsistent s'
  ends_well none w = absurd w
  ends_well (some s') w = (s', refl, w)

  run-cons :
      (ev : Event T) (evs : List (Event T)) (s t s' : System T)
      → step ev s ≡ some t
      → run evs t ≡ some s'
      → run (ev ∷ evs) s ≡ some s'
  unfolding run
  run-cons ev evs s t s' e r = rw (e, run) r

  -- From a consistent state every sequence of events ends, and leaves a consistent state.
  pub run-Consistent :
      (evs : List (Event T)) (s : System T)
      → IsConsistent s
      → (s' : System T) × (run evs s ≡ some s') × IsConsistent s'
  run-Consistent [] s c = (s, (unfold run in refl), c)
  run-Consistent (ev ∷ evs) s c =
      let (t, e, w) = ends_well (step ev s) (step-StepsWell ev s c) in
      let (s', r, c') = run-Consistent evs t w in (s', run-cons ev evs s t s' e r, c')

  pub init-Consistent : (size timeout : ℕ) → 0 < size → IsConsistent (init {T = T} size timeout)
  unfolding init get total occurrences
  init-Consistent size timeout h = record {
    settled = record {
      sound = record {
        distinct = tt;
        bounded = omega arith;
        timed = λ k. refl;
        counted = IsCounted-empty;
        exact = λ q. refl;
        shared = λ k x q p r. cc;
      };
      owned = λ k p. cc;
      limit = h;
    };
    loading = λ l e. cc;
  }
