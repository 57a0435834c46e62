-- ===== src/Manager/Soundness/Harmless.antt =====
-- The operations that may run at any moment, also while another task loads: they keep the
-- invariant, take processors out of the cache and never put one in, and load no tokenizer.
use trajproxy.Base.{
  ℕ, ◌≤◌, ◌≡◌, refl, sym, ap, ◌∙◌, String, true, false, none, List, [], ◌∷◌, ◌==◌, string_eq,
  nat_eq, pair_eq, length, is_some, arith, inl, inr, Option-cases, Bool-cases,
}
use trajproxy.Base.Dict.{Dict, get, pop, put, move_to_end, Distinct}
use trajproxy.Base.Dict.Laws.{
  get-pop, get-put, get-move, pop-Distinct, move-Distinct, length-total, total-move,
}
use trajproxy.Models.{ModelKey, ModelConfig}
use trajproxy.Manager.{
  Manager, Processor, config_of, touch, discard, discard_all, evict_idle, idle_keys, clear_cache,
  release_all, release_processor,
}
use trajproxy.Manager.Registry.{unregister_by_key}
use trajproxy.Manager.Soundness.{Sound, length-pop-le, cache-release_processor_absent}
use trajproxy.Manager.Soundness.Evictions.{
  discard-Sound, touch-Sound, clear_cache-Sound, evict_idle-cases,
}
use trajproxy.Manager.Soundness.Entering.{Owned, IsLoading, touch-Owned, limit-touch}
use trajproxy.Tokenizers.{TokenizerCache}
use trajproxy.Manager.Loading.{Suspended}

module _ {T : Type 0} where
  pub record IsHarmless (m m' : Manager T) : Type 0 where
    pub sound : (lost : List String) → Sound lost m → Sound lost m'
    pub owned : Owned m → Owned m'
    pub distinct : Distinct m.processor_cache → Distinct m'.processor_cache
    pub absent : (k : ModelKey) → get k m.processor_cache ≡ none → get k m'.processor_cache ≡ none
    pub shorter : Distinct m.processor_cache → length m'.processor_cache ≤ length m.processor_cache
    pub unloaded :
        (p : String) → get p m.tokenizer_cache.cache ≡ none → get p m'.tokenizer_cache.cache ≡ none
    pub limit : m'.cache_max_size ≡ m.cache_max_size

  pub IsHarmless-refl : (m : Manager T) → IsHarmless m m
  IsHarmless-refl m = record {
    sound = λ lost h. h;
    owned = λ h. h;
    distinct = λ h. h;
    absent = λ k h. h;
    shorter = λ h. omega arith;
    unloaded = λ p h. h;
    limit = refl;
  }

  pub IsHarmless-trans :
      {m m' m'' : Manager T} → IsHarmless m m' → IsHarmless m' m'' → IsHarmless m m''
  IsHarmless-trans h h' = record {
    sound = λ lost s. h'.sound lost (h.sound lost s);
    owned = λ o. h'.owned (h.owned o);
    distinct = λ d. h'.distinct (h.distinct d);
    absent = λ k e. h'.absent k (h.absent k e);
    shorter = λ d. omega (arith, h.shorter d, h'.shorter (h.distinct d));
    unloaded = λ p e. h'.unloaded p (h.unloaded p e);
    limit = h'.limit ∙ h.limit;
  }

  -- A suspended load stays possible.
  pub IsLoading-IsHarmless :
      {l : Suspended} {m m' : Manager T}
      → Distinct m.processor_cache
      → IsHarmless m m'
      → IsLoading l m
      → IsLoading l m'
  IsLoading-IsHarmless {l} d h u = record {
    new = h.absent l.key u.new;
    room = omega (arith, u.room, h.shorter d, h.limit);
    unloaded = h.unloaded l.path u.unloaded;
    path = u.path;
  }

  -- `IsHarmless` of a change that touches the configurations alone.
  configs-IsHarmless :
      (m : Manager T) (static dynamic : Dict ModelKey ModelConfig)
      → (Owned m → Owned (record m { config_configs = static; dynamic_configs = dynamic }))
      → IsHarmless m (record m { config_configs = static; dynamic_configs = dynamic })
  configs-IsHarmless m static dynamic o = record {
    sound = λ lost h. h;
    owned = o;
    distinct = λ h. h;
    absent = λ k h. h;
    shorter = λ h. omega arith;
    unloaded = λ p h. h;
    limit = refl;
  }

  pub put_dynamic-IsHarmless :
      (key : ModelKey) (c : ModelConfig) (m : Manager T)
      → IsHarmless m (record m { dynamic_configs = put key c m.dynamic_configs })
  unfolding config_of
  put_dynamic-IsHarmless key c m =
      configs-IsHarmless m m.config_configs (put key c m.dynamic_configs)
        (λ o k p. ground (arith, p, o k, get-put key k c m.dynamic_configs))

  pub put_static-IsHarmless :
      (key : ModelKey) (c : ModelConfig) (m : Manager T)
      → IsHarmless m (record m { config_configs = put key c m.config_configs })
  unfolding config_of
  put_static-IsHarmless key c m =
      configs-IsHarmless m (put key c m.config_configs) m.dynamic_configs
        (λ o k p. ground (arith, p, o k, get-put key k c m.config_configs))

  discard-unloaded :
      (key : ModelKey) (m : Manager T) (p : String)
      → get p m.tokenizer_cache.cache ≡ none
      → get p (discard key m).tokenizer_cache.cache ≡ none
  unfolding discard
  discard-unloaded key m p h = elim (Option-cases (get key m.processor_cache)) [
    | inl e ↦ rw (e, discard) h
    | inr (x, e) ↦ rw (e, discard) (cache-release_processor_absent x p m.tokenizer_cache h)
  ]

  -- `discard` of a key, with the dynamic configurations changed at that key only.
  pub discard-IsHarmless :
      (key : ModelKey) (m : Manager T) (dynamic : Dict ModelKey ModelConfig)
      → ((k : ModelKey) → (key == k) ≡ false → get k dynamic ≡ get k m.dynamic_configs)
      → IsHarmless m (discard key (record m { dynamic_configs = dynamic }))
  unfolding config_of discard
  discard-IsHarmless key m dynamic same = record {
    sound = λ lost h. discard-Sound key (record m { dynamic_configs = dynamic }) h;
    owned = λ o k p. let (other, there) = split k p in ground (arith, o k there, same k other);
    distinct = λ h. pop-Distinct key m.processor_cache h;
    absent = λ k h. ground (arith, h, get-pop key k m.processor_cache);
    shorter = λ h. length-pop-le key m.processor_cache h;
    unloaded = λ p h. discard-unloaded key (record m { dynamic_configs = dynamic }) p h;
    limit = refl;
  }
    where
      split :
          (k : ModelKey)
          → is_some (get k (pop key m.processor_cache)) ≡ true
          → ((key == k) ≡ false) × (is_some (get k m.processor_cache) ≡ true)
      split k p = ground (arith, p, get-pop key k m.processor_cache)

  pub discard_only-IsHarmless : (key : ModelKey) (m : Manager T) → IsHarmless m (discard key m)
  discard_only-IsHarmless key m = discard-IsHarmless key m m.dynamic_configs (λ k h. refl)

  pub unregister_by_key-IsHarmless :
      (key : ModelKey) (m : Manager T) → IsHarmless m (unregister_by_key key m)
  unfolding unregister_by_key
  unregister_by_key-IsHarmless key m =
      discard-IsHarmless key m (pop key m.dynamic_configs)
        (λ k h. ground (arith, h, get-pop key k m.dynamic_configs))

  discard_all-IsHarmless : (ks : List ModelKey) (m : Manager T) → IsHarmless m (discard_all ks m)
  unfolding discard_all
  discard_all-IsHarmless [] m = IsHarmless-refl m
  discard_all-IsHarmless (k ∷ ks) m =
      IsHarmless-trans (discard_only-IsHarmless k m) (discard_all-IsHarmless ks (discard k m))

  touch-Distinct :
      (key : ModelKey) (now : ℕ) (m : Manager T)
      → Distinct m.processor_cache
      → Distinct (touch key now m).processor_cache
  unfolding touch
  touch-Distinct key now m h = elim (Bool-cases (is_some (get key m.processor_cache))) [
    | inl e ↦ rw (e, touch) (move-Distinct key m.processor_cache h)
    | inr e ↦ rw (e, touch) h
  ]

  get-touch :
      (key k : ModelKey) (now : ℕ) (m : Manager T)
      → get k m.processor_cache ≡ get k (touch key now m).processor_cache
  unfolding touch
  get-touch key k now m = ground (arith, get-move key k m.processor_cache)

  touch-shorter :
      (key : ModelKey) (now : ℕ) (m : Manager T)
      → Distinct m.processor_cache
      → length (touch key now m).processor_cache ≤ length m.processor_cache
  unfolding touch
  touch-shorter key now m h = ground (
    arith,
    length-total m.processor_cache,
    length-total (move_to_end key m.processor_cache),
    total-move (λ _. 1) key m.processor_cache h,
  )

  tokens-touch :
      (key : ModelKey) (now : ℕ) (m : Manager T)
      → (touch key now m).tokenizer_cache ≡ m.tokenizer_cache
  unfolding touch
  tokens-touch key now m = ground arith

  pub evict_idle-IsHarmless : (now : ℕ) (m : Manager T) → IsHarmless m (evict_idle now m)
  evict_idle-IsHarmless now m = elim (evict_idle-cases now m) [
    | inl e ↦ rw e (IsHarmless-refl m)
    | inr e ↦ rw e (discard_all-IsHarmless (idle_keys now m.idle_timeout m.last_access_time) m)
  ]

  pub touch-IsHarmless : (key : ModelKey) (now : ℕ) (m : Manager T) → IsHarmless m (touch key now m)
  touch-IsHarmless key now m = record {
    sound = λ lost h. touch-Sound key now m h;
    owned = λ h. touch-Owned key now m h;
    distinct = λ h. touch-Distinct key now m h;
    absent = λ k h. sym (get-touch key k now m) ∙ h;
    shorter = λ h. touch-shorter key now m h;
    unloaded = λ p h. ap (λ (c : TokenizerCache T). get p c.cache) (tokens-touch key now m) ∙ h;
    limit = limit-touch key now m;
  }

  release_all-unloaded :
      (d : List (ModelKey × Processor T)) (c : TokenizerCache T) (p : String)
      → get p c.cache ≡ none
      → get p (release_all d c).cache ≡ none
  unfolding release_all
  release_all-unloaded [] c p h = h
  release_all-unloaded ((k, x) ∷ d) c p h =
      release_all-unloaded d (release_processor x c) p (cache-release_processor_absent x p c h)

  pub clear_cache-IsHarmless : (m : Manager T) → IsHarmless m (clear_cache m)
  unfolding clear_cache get
  clear_cache-IsHarmless m = record {
    sound = λ lost h. clear_cache-Sound m h;
    owned = λ o k p. cc;
    distinct = λ h. tt;
    absent = λ k h. refl;
    shorter = λ h. omega arith;
    unloaded = λ p h. release_all-unloaded m.processor_cache m.tokenizer_cache p h;
    limit = refl;
  }
