-- ===== src/Manager/Runs/Limits.antt =====
-- What the invariant leaves out of a run: the limit of the cache, and the references that are lost.
use Prim.Native.Nat.{zero}
use trajproxy.Base.{
  ℕ, suc, ◌≡◌, refl, ◌∙◌, String, Bool, true, false, Option, none, some, List, [], ◌∷◌, All, ◌==◌,
  nat_eq, string_eq, pair_eq, arith, inl, inr, Option-cases, Bool-cases, length,
}
use trajproxy.Base.Dict.{get}
use trajproxy.Models.{ModelKey, ModelConfig, truthy}
use trajproxy.Tokenizers.{Fetch, hit, miss, key_missing, look_up, store_loaded}
use trajproxy.Manager.{Manager, Processor, config_of, make_room, evict_one, new_processor}
use trajproxy.Manager.Loading.{
  Loaded, Entered, finished, suspended, hang, insert_checked, build, create_processor, enter,
  resume, Suspended,
}
use trajproxy.Manager.Soundness.Entering.{limit-touch}
use trajproxy.Manager.Soundness.Evictions.{limit-evict_one}
use trajproxy.Manager.Runs.{
  System, Event, requested, entered, loaded, request, settle, after_enter, take_lock, finish_load,
  act, step, run,
}
use trajproxy.Manager.Runs.Invariant.{act-IsHarmless}

-- The constructor of `Processor` returns in this event.
abbrev pub IsBuilt : {T : Type 0} → Event T → Type 0
IsBuilt (entered built now) = built ≡ true
IsBuilt (loaded t built now) = built ≡ true
IsBuilt _ = Unit

module _ {T : Type 0} where
  -- What a load leaves: the limit of `m`, and nothing lost if the constructor returned.
  pub record IsTidy (built : Bool) (m : Manager T) (l : Loaded T) : Type 0 where
    pub limit : l.manager.cache_max_size ≡ m.cache_max_size
    pub kept : built ≡ true → l.lost ≡ []

  insert_checked-Tidy :
      (key : ModelKey) (config : ModelConfig) (now : ℕ) (x : Processor T) (m : Manager T)
      (built : Bool)
      → IsTidy built m (insert_checked key config now x m)
  unfolding insert_checked
  insert_checked-Tidy key config now x m built = elim (Option-cases (config_of key m)) [
    | inl e ↦ rw (e, insert_checked) (record { limit = refl; kept = λ b. refl })
    | inr (c, e) ↦ elim (Bool-cases (c.oid == config.oid)) [
      | inl f ↦ rw (e, insert_checked) (rw f (record { limit = refl; kept = λ b. refl }))
      | inr f ↦ rw (e, insert_checked) (rw f (record { limit = refl; kept = λ b. refl }))
    ]
  ]

  build-Tidy :
      (key : ModelKey) (config : ModelConfig) (t : Option T) (built : Bool) (now : ℕ)
      (m : Manager T)
      → IsTidy built m (build key config t built now m)
  unfolding build
  build-Tidy key config t true now m =
      insert_checked-Tidy key config now (new_processor config t) m true
  build-Tidy key config t false now m = record { limit = refl; kept = λ b. cc }

  abbrev pub EnteredTidy : Bool → Manager T → Entered T → Type 0
  EnteredTidy built m (finished l) = IsTidy built m l
  EnteredTidy built m (suspended path m') = m'.cache_max_size ≡ m.cache_max_size
  EnteredTidy built m hang = Unit

  create-Tidy :
      (key : ModelKey) (config : ModelConfig) (built : Bool) (now : ℕ) (m : Manager T)
      → EnteredTidy built m (create_processor key config built now m)
  unfolding create_processor
  create-Tidy key config built now m = elim (Bool-cases config.token_in_token_out) [
    | inr direct ↦ simp (direct, create_processor) (build-Tidy key config none built now m)
    | inl tito ↦ elim (Option-cases (truthy config.tokenizer_path)) [
      | inl e ↦ simp (tito, e, create_processor) (record { limit = refl; kept = λ b. refl })
      | inr (path, e) ↦ go path e tito (look_up path m.tokenizer_cache) refl
    ]
  ]
    where
      go :
          (path : String)
          → truthy config.tokenizer_path ≡ some path
          → config.token_in_token_out ≡ true
          → (f : Fetch T) → look_up path m.tokenizer_cache ≡ f
          → EnteredTidy built m (create_processor key config built now m)
      go path e tito (hit t tokens) f =
          simp (tito, e, f, create_processor)
            (let b =
                build-Tidy key config (some t) built now (record m { tokenizer_cache = tokens }) in
              record { limit = b.limit; kept = b.kept })
      go path e tito miss f = simp (tito, e, f, create_processor)
      go path e tito key_missing f =
          simp (tito, e, f, create_processor) (record { limit = refl; kept = λ b. refl })

  limit-make_room :
      (fuel : ℕ) (m m' : Manager T)
      → make_room fuel m ≡ some m'
      → m'.cache_max_size ≡ m.cache_max_size
  unfolding make_room
  limit-make_room zero m m' e = cc
  limit-make_room (suc fuel) m m' e =
      ground (arith, limit-make_room fuel (evict_one m) m', limit-evict_one m)

  enter-Tidy :
      (key : ModelKey) (config : ModelConfig) (built : Bool) (now : ℕ) (m : Manager T)
      → EnteredTidy built m (enter key config built now m)
  unfolding enter
  enter-Tidy key config built now m = elim (Option-cases (get key m.processor_cache)) [
    | inr (x, e) ↦ rw (e, enter) (record { limit = limit-touch key now m; kept = λ b. refl })
    | inl e ↦ elim (Option-cases (make_room (suc (length m.processor_cache)) m)) [
      | inl f ↦ rw (e, enter) (rw f tt)
      | inr (m', f) ↦
          rw (e, enter)
            (rw f (
              moved m' (limit-make_room (suc (length m.processor_cache)) m m' f)
                (create_processor key config built now m') (create-Tidy key config built now m')))
    ]
  ]
    where
      moved :
          (m' : Manager T)
          → m'.cache_max_size ≡ m.cache_max_size
          → (r : Entered T) → EnteredTidy built m' r
          → EnteredTidy built m r
      moved m' e (finished l) h = record { limit = h.limit ∙ e; kept = h.kept }
      moved m' e (suspended path m'') h = h ∙ e
      moved m' e hang h = tt

  resume-Tidy :
      (l : Suspended) (t : Option T) (built : Bool) (now : ℕ) (m : Manager T)
      → IsTidy built m (resume l.key l.config l.path t built now m)
  unfolding resume
  resume-Tidy l none built now m = record { limit = refl; kept = λ b. refl }
  resume-Tidy l (some t) built now m =
      let b =
        build-Tidy l.key l.config (some t) built now
          (record m { tokenizer_cache = store_loaded l.path t m.tokenizer_cache }) in
      record { limit = b.limit; kept = b.kept }

  -- What a step keeps of the limit and of the references that are lost.
  pub record IsTidyStep (built : Type 0) (s t : System T) : Type 0 where
    pub limit : t.manager.cache_max_size ≡ s.manager.cache_max_size
    pub kept : built → s.lost ≡ [] → t.lost ≡ []

  settle-Tidy :
      (l : Loaded T) (rest : List (ModelKey × ModelConfig)) (s : System T) (built : Bool)
      → IsTidy built s.manager l
      → IsTidyStep (built ≡ true) s (settle l rest s)
  unfolding settle
  settle-Tidy l rest s built h = record { limit = h.limit; kept = λ b e. rw (h.kept b) e }

  take_lock-Tidy :
      (built : Bool) (now : ℕ) (loading : Option Suspended)
      (waiting : List (ModelKey × ModelConfig)) (s t : System T)
      → take_lock built now loading waiting s ≡ some t
      → IsTidyStep (built ≡ true) s t
  unfolding take_lock after_enter
  take_lock-Tidy built now (some l) waiting s t e =
      let same : s ≡ t = cc in rw (← same) (record { limit = refl; kept = λ b f. f })
  take_lock-Tidy built now none [] s t e =
      let same : s ≡ t = cc in rw (← same) (record { limit = refl; kept = λ b f. f })
  take_lock-Tidy built now none ((key, config) ∷ rest) s t e =
      go (enter key config built now s.manager) (enter-Tidy key config built now s.manager) e
    where
      go :
          (r : Entered T)
          → EnteredTidy built s.manager r
          → after_enter key config r rest s ≡ some t
          → IsTidyStep (built ≡ true) s t
      go (finished l) h f =
          let same : settle l rest s ≡ t = cc (f) in rw (← same) (settle-Tidy l rest s built h)
      go (suspended path m') h f = record {
        limit = ground (arith, h, f);
        kept = λ b g. ground (arith, f, g);
      }
      go hang h f = cc (f)

  finish_load-Tidy :
      (x : Option T) (built : Bool) (now : ℕ) (loading : Option Suspended) (s : System T)
      → IsTidyStep (built ≡ true) s (finish_load x built now loading s)
  unfolding finish_load
  finish_load-Tidy x built now none s = record { limit = refl; kept = λ b f. f }
  finish_load-Tidy x built now (some l) s =
      settle-Tidy _ s.waiting s built (resume-Tidy l x built now s.manager)

  request-Tidy : (key : ModelKey) (now : ℕ) (s : System T) → IsTidyStep Unit s (request key now s)
  unfolding request
  request-Tidy key now s = record {
    limit = ground (arith, limit-touch key now s.manager);
    kept = λ b f. ground (arith, f);
  }

  step-Tidy : (ev : Event T) (s t : System T) → step ev s ≡ some t → IsTidyStep (IsBuilt ev) s t
  unfolding step
  step-Tidy (requested key now) s t e =
      let same : request key now s ≡ t = cc in rw (← same) (request-Tidy key now s)
  step-Tidy (entered built now) s t e = take_lock-Tidy built now s.loading s.waiting s t e
  step-Tidy (loaded x built now) s t e =
      let same : finish_load x built now s.loading s ≡ t = cc in
      rw (← same) (finish_load-Tidy x built now s.loading s)
  step-Tidy ev s t e =
      let same : record s { manager = act ev s.manager } ≡ t = cc in
      rw (← same) (record { limit = (act-IsHarmless ev s.manager).limit; kept = λ b f. f })

  pub limit-run :
      (evs : List (Event T)) (s t : System T)
      → run evs s ≡ some t
      → t.manager.cache_max_size ≡ s.manager.cache_max_size
  unfolding run
  limit-run [] s t e = ground (arith, e)
  limit-run (ev ∷ evs) s t e = elim (Option-cases (step ev s)) [
    | inl f ↦ absurd (ground (arith, e, f))
    | inr (s', f) ↦ limit-run evs s' t (ground (arith, e, f)) ∙ (step-Tidy ev s s' f).limit
  ]

  pub lost-run :
      (evs : List (Event T)) (s t : System T)
      → run evs s ≡ some t
      → All IsBuilt evs
      → s.lost ≡ []
      → t.lost ≡ []
  unfolding run
  lost-run [] s t e b h = ground (arith, e, h)
  lost-run (ev ∷ evs) s t e b h = elim (Option-cases (step ev s)) [
    | inl f ↦ absurd (ground (arith, e, f))
    | inr (s', f) ↦ lost-run evs s' t (ground (arith, e, f)) b.1 ((step-Tidy ev s s' f).kept b.0 h)
  ]
