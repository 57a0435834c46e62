-- ===== src/Manager/Soundness/Entering.antt =====
-- What a load leaves, on every path: `enter`, `create_processor`, `build` and `resume`.
use Prim.Native.Nat.{zero}
use trajproxy.Base.{
  ℕ, suc, ◌<◌, ◌≡◌, refl, ◌∙◌, String, Bool, true, false, Option, none, some, List, ◌++◌, ◌==◌,
  string_eq, nat_eq, pair_eq, length, is_some, arith, inl, inr, Option-cases, Bool-cases, leb,
}
use trajproxy.Base.Dict.{get}
use trajproxy.Base.Dict.Laws.{get-put, get-move}
use trajproxy.Models.{ModelKey, ModelConfig, key_iff, truthy}
use trajproxy.Tokenizers.{Fetch, hit, miss, key_missing, look_up, store_loaded}
use trajproxy.Tokenizers.Counts.{
  look_up-hit, look_up-counted, look_up-miss, cache-store_loaded_self,
}
use trajproxy.Manager.{
  Manager, Processor, release_processor, new_processor, config_of, held_path, touch, make_room,
  evict_one,
}
use trajproxy.Manager.Loading.{
  Loaded, Entered, finished, suspended, hang, lost_path, insert_checked, build, create_processor,
  enter, resume, Suspended,
}
use trajproxy.Manager.Soundness.{held, Sound}
use trajproxy.Manager.Soundness.Evictions.{make_room-Sound, touch-Sound}
use trajproxy.Manager.Soundness.Loads.{insert-Sound, drop-Sound, hit-Sound, stored-Sound}

module _ {T : Type 0} where
  -- A cached processor has a configuration: there are no orphans.
  abbrev pub Owned : Manager T → Type 0
  Owned m =
      (k : ModelKey) → is_some (get k m.processor_cache) ≡ true → is_some (config_of k m) ≡ true

  -- What holds while a task is suspended in its thread.
  pub record IsLoading (l : Suspended) (m : Manager T) : Type 0 where
    pub new : get l.key m.processor_cache ≡ none
    pub room : length m.processor_cache < m.cache_max_size
    pub unloaded : get l.path m.tokenizer_cache.cache ≡ none
    pub path : held_path l.config.tokenizer_path l.config.token_in_token_out ≡ some l.path

  pub record IsSettled (lost : List String) (m : Manager T) : Type 0 where
    pub sound : Sound lost m
    pub owned : Owned m
    pub limit : 0 < m.cache_max_size

  insert_checked-Settled :
      (lost : List String) (key : ModelKey) (config : ModelConfig) (now : ℕ) (x : Processor T)
      (m : Manager T)
      → get key m.processor_cache ≡ none
      → length m.processor_cache < m.cache_max_size
      → ((q : String) → held x ≡ some q → get q m.tokenizer_cache.cache ≡ x.tokenizer)
      → IsSettled (lost_path (held x) ++ lost) m
      → IsSettled
          ((insert_checked key config now x m).lost ++ lost)
          (insert_checked key config now x m).manager
  unfolding insert_checked
  insert_checked-Settled lost key config now x m new room own h =
      elim (Option-cases (config_of key m)) [
        | inl e ↦ rw (e, insert_checked) dropped
        | inr (c, e) ↦ elim (Bool-cases (c.oid == config.oid)) [
          | inr f ↦ rw (e, insert_checked) (rw f dropped)
          | inl f ↦
              rw (e, insert_checked)
                (rw f (record {
                  sound = insert-Sound key now x m new room own h.sound;
                  owned = λ k p.
                      ground
                        (arith, p, e, h.owned k, get-put key k x m.processor_cache, key_iff key k);
                  limit = h.limit;
                }))
        ]
      ]
    where
      dropped :
          IsSettled lost (record m { tokenizer_cache = release_processor x m.tokenizer_cache })
      dropped = record { sound = drop-Sound x m h.sound; owned = h.owned; limit = h.limit }

  -- The invariant after a load that has ended.
  abbrev pub LoadedWell : List String → Loaded T → Type 0
  LoadedWell lost l = IsSettled (l.lost ++ lost) l.manager

  build-Settled :
      (lost : List String) (key : ModelKey) (config : ModelConfig) (tokenizer : Option T)
      (built : Bool) (now : ℕ) (m : Manager T)
      → get key m.processor_cache ≡ none
      → length m.processor_cache < m.cache_max_size
      → ((q : String)
          → held_path config.tokenizer_path config.token_in_token_out ≡ some q
          → get q m.tokenizer_cache.cache ≡ tokenizer)
      → IsSettled (lost_path (held_path config.tokenizer_path config.token_in_token_out) ++ lost) m
      → LoadedWell lost (build key config tokenizer built now m)
  unfolding build
  build-Settled lost key config tokenizer true now m new room own h =
      insert_checked-Settled lost key config now (new_processor config tokenizer) m new room own h
  build-Settled lost key config tokenizer false now m new room own h = h

  -- What is true of each way in which `_load_processor` leaves the lock or its first half.
  abbrev pub EnteredWell : List String → ModelKey → ModelConfig → Entered T → Type 0
  EnteredWell lost key config (finished l) = LoadedWell lost l
  EnteredWell lost key config (suspended path m) =
      IsSettled lost m × IsLoading (record { key = key; config = config; path = path }) m
  EnteredWell lost key config hang = ⊥

  create-with_path :
      (lost : List String) (key : ModelKey) (config : ModelConfig) (built : Bool) (now : ℕ)
      (m : Manager T) (path : String)
      → get key m.processor_cache ≡ none
      → length m.processor_cache < m.cache_max_size
      → config.token_in_token_out ≡ true
      → truthy config.tokenizer_path ≡ some path
      → IsSettled lost m
      → EnteredWell lost key config (create_processor key config built now m)
  unfolding create_processor
  create-with_path lost key config built now m path new room tito p h =
      go (look_up path m.tokenizer_cache) refl
    where
      held_is : held_path config.tokenizer_path config.token_in_token_out ≡ some path
      held_is = rw tito p

      go :
          (f : Fetch T)
          → look_up path m.tokenizer_cache ≡ f
          → EnteredWell lost key config (create_processor key config built now m)
      go (hit t tokens) e =
          rw (tito, create_processor)
            (rw p (
              rw e (
                build-Settled lost key config (some t) built now
                  (record m { tokenizer_cache = tokens }) new room
                  (λ q r.
                    let found = look_up-hit path q m.tokenizer_cache e in
                    let same : q ≡ path = cc (held_is) in found.1 ∙ rw same (found.2))
                  (rw held_is (record {
                    sound = hit-Sound path t tokens m e h.sound;
                    owned = h.owned;
                    limit = h.limit;
                  })))))
      go miss e =
          rw (tito, create_processor)
            (rw p (
              rw e (
                h,
                record {
                  new = new;
                  room = room;
                  unloaded = look_up-miss path m.tokenizer_cache e;
                  path = p;
                },
              )))
      go key_missing e = absurd (look_up-counted path m.tokenizer_cache h.sound.counted e)

  create-direct :
      (lost : List String) (key : ModelKey) (config : ModelConfig) (built : Bool) (now : ℕ)
      (m : Manager T)
      → get key m.processor_cache ≡ none
      → length m.processor_cache < m.cache_max_size
      → config.token_in_token_out ≡ false
      → IsSettled lost m
      → EnteredWell lost key config (create_processor key config built now m)
  unfolding create_processor
  create-direct lost key config built now m new room direct h =
      let none_held : held_path config.tokenizer_path config.token_in_token_out ≡ none =
        rw direct in
      simp (direct, create_processor)
        (build-Settled lost key config none built now m new room (λ q r. cc (none_held))
          (rw none_held h))

  create-no_path :
      (lost : List String) (key : ModelKey) (config : ModelConfig) (built : Bool) (now : ℕ)
      (m : Manager T)
      → config.token_in_token_out ≡ true
      → truthy config.tokenizer_path ≡ none
      → IsSettled lost m
      → EnteredWell lost key config (create_processor key config built now m)
  unfolding create_processor
  create-no_path lost key config built now m tito e h = rw (tito, create_processor) (rw e h)

  create-Settled :
      (lost : List String) (key : ModelKey) (config : ModelConfig) (built : Bool) (now : ℕ)
      (m : Manager T)
      → get key m.processor_cache ≡ none
      → length m.processor_cache < m.cache_max_size
      → IsSettled lost m
      → EnteredWell lost key config (create_processor key config built now m)
  create-Settled lost key config built now m new room h =
      elim (Bool-cases config.token_in_token_out) [
        | inr direct ↦ create-direct lost key config built now m new room direct h
        | inl tito ↦ elim (Option-cases (truthy config.tokenizer_path)) [
          | inl e ↦ create-no_path lost key config built now m tito e h
          | inr (path, e) ↦ create-with_path lost key config built now m path new room tito e h
        ]
      ]

  pub touch-Owned : (key : ModelKey) (now : ℕ) (m : Manager T) → Owned m → Owned (touch key now m)
  unfolding touch config_of
  touch-Owned key now m h k p = ground (arith, p, h k, get-move key k m.processor_cache)

  pub limit-touch :
      (key : ModelKey) (now : ℕ) (m : Manager T)
      → (touch key now m).cache_max_size ≡ m.cache_max_size
  unfolding touch
  limit-touch key now m = ground arith

  evict_one-absent :
      (m : Manager T) (k : ModelKey)
      → get k m.processor_cache ≡ none
      → get k (evict_one m).processor_cache ≡ none
  unfolding evict_one get
  evict_one-absent m k p = ground arith

  evict_one-Owned : (m : Manager T) → Owned m → Owned (evict_one m)
  unfolding evict_one config_of get
  evict_one-Owned m h k p = ground (arith, p, h k)

  -- The loop takes keys out, and nothing else.
  make_room-keeps :
      (fuel : ℕ) (m m' : Manager T)
      → make_room fuel m ≡ some m'
      → (Owned m → Owned m')
        × ((k : ModelKey) → get k m.processor_cache ≡ none → get k m'.processor_cache ≡ none)
  unfolding make_room
  make_room-keeps zero m m' e = cc
  make_room-keeps (suc fuel) m m' e =
      elim (Bool-cases (leb m.cache_max_size (length m.processor_cache))) [
        | inr f ↦ let same : m ≡ m' = ground (arith, e, f) in (rw same (λ o. o), rw same (λ k p. p))
        | inl f ↦
            let (a, b) = make_room-keeps fuel (evict_one m) m' (ground (arith, e, f)) in
            (λ o. a (evict_one-Owned m o), λ k p. b k (evict_one-absent m k p))
      ]

  pub enter-Settled :
      (lost : List String) (key : ModelKey) (config : ModelConfig) (built : Bool) (now : ℕ)
      (m : Manager T)
      → IsSettled lost m
      → EnteredWell lost key config (enter key config built now m)
  unfolding enter
  enter-Settled lost key config built now m h = elim (Option-cases (get key m.processor_cache)) [
    | inr (x, e) ↦
        rw (e, enter)
          (record {
            sound = touch-Sound key now m h.sound;
            owned = touch-Owned key now m h.owned;
            limit = rw limit-touch h.limit;
          })
    | inl e ↦
        let (m', r, sound, room, same) =
          make_room-Sound (suc (length m.processor_cache)) m (omega arith) h.limit h.sound in
        let (owned, absent) = make_room-keeps (suc (length m.processor_cache)) m m' r in
        rw (e, enter)
          (rw r (
            create-Settled lost key config built now m' (absent key e) room
              (record { sound = sound; owned = owned h.owned; limit = rw same h.limit })))
  ]

  pub resume-Settled :
      (lost : List String) (l : Suspended) (loaded : Option T) (built : Bool) (now : ℕ)
      (m : Manager T)
      → IsSettled lost m
      → IsLoading l m
      → LoadedWell lost (resume l.key l.config l.path loaded built now m)
  unfolding resume
  resume-Settled lost l none built now m h u = h
  resume-Settled lost l (some t) built now m h u =
      build-Settled lost l.key l.config (some t) built now
        (record m { tokenizer_cache = store_loaded l.path t m.tokenizer_cache }) u.new u.room
        (λ q r.
          let same : q ≡ l.path = cc (u.path) in
          rw same (cache-store_loaded_self l.path t m.tokenizer_cache))
        (rw u.path (record {
          sound = stored-Sound l.path t m u.unloaded h.sound;
          owned = h.owned;
          limit = h.limit;
        }))
