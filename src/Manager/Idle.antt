-- ===== src/Manager/Idle.antt =====
-- Eviction: the idle scan key by key, and the loop that makes room, with a limit of zero.
use Prim.Native.Nat.{zero}
use trajproxy.Base.{
  ℕ, suc, ◌-◌, ◌≡◌, refl, Bool, false, Option, none, some, List, [], ◌∷◌, arith, string_eq, pair_eq,
  if◌then◌else◌, contains, ltb, length,
}
use trajproxy.Base.Dict.{Dict, get, Distinct}
use trajproxy.Base.Dict.Laws.{get-pop}
use trajproxy.Models.{ModelKey, ModelConfig, key_iff}
use trajproxy.Manager.{
  Manager, Processor, discard, discard_all, idle_keys, evict_idle, make_room, evict_one,
}
use trajproxy.Manager.Loading.{hang, enter}
use trajproxy.Manager.Soundness.Evictions.{limit-evict_one}

-- The key has an access time that is more than `timeout` ago.
abbrev pub is_idle : ℕ → ℕ → Option ℕ → Bool
is_idle now timeout none = false
is_idle now timeout (some t) = ltb timeout (now - t)

contains-idle_keys :
    (k : ModelKey) (now timeout : ℕ) (d : Dict ModelKey ℕ)
    → Distinct d
    → contains k (idle_keys now timeout d) ≡ is_idle now timeout (get k d)
unfolding contains idle_keys get
contains-idle_keys k now timeout [] h = refl
contains-idle_keys k now timeout ((j, t) ∷ d) h =
    ground (arith, contains-idle_keys k now timeout d h.1, h.0, key_iff j k)

module _ {T : Type 0} where
  discard_all-processor :
      (k : ModelKey) (ks : List ModelKey) (m : Manager T)
      → get k (discard_all ks m).processor_cache
        ≡ (if contains k ks then none else get k m.processor_cache)
  unfolding discard_all discard contains
  discard_all-processor k [] m = refl
  discard_all-processor k (j ∷ ks) m =
      ground (arith, discard_all-processor k ks (discard j m), get-pop j k m.processor_cache)

  -- With each key once among the access times, the scan drops exactly the processors whose last access is more than the timeout ago.
  pub evict_idle_lem :
      (k : ModelKey) (now : ℕ) (m : Manager T)
      → Distinct m.last_access_time
      → get k (evict_idle now m).processor_cache ≡ (
          if is_idle now m.idle_timeout (get k m.last_access_time)
          then none
          else get k m.processor_cache)
  unfolding evict_idle get
  evict_idle_lem k now m h = go m.processor_cache refl
    where
      go :
          (d : Dict ModelKey (Processor T))
          → m.processor_cache ≡ d
          → get k (evict_idle now m).processor_cache ≡ (
              if is_idle now m.idle_timeout (get k m.last_access_time)
              then none
              else get k m.processor_cache)
      go [] e = ground (arith, e)
      go (x ∷ d) e = ground (
        arith,
        e,
        discard_all-processor k (idle_keys now m.idle_timeout m.last_access_time) m,
        contains-idle_keys k now m.idle_timeout m.last_access_time h,
      )

  make_room-zero : (fuel : ℕ) (m : Manager T) → m.cache_max_size ≡ 0 → make_room fuel m ≡ none
  unfolding make_room
  make_room-zero zero m h = refl
  make_room-zero (suc fuel) m h =
      ground (arith, make_room-zero fuel (evict_one m), limit-evict_one m, h)

  -- With a limit of zero the eviction loop never ends, whatever the fuel: the first load of a
  -- model that is not cached hangs.
  pub enter-zero_limit :
      (key : ModelKey) (config : ModelConfig) (built : Bool) (now fuel : ℕ) (m : Manager T)
      → m.cache_max_size ≡ 0
      → get key m.processor_cache ≡ none
      → (make_room fuel m ≡ none) × (enter key config built now m ≡ hang)
  unfolding enter
  enter-zero_limit key config built now fuel m h e = (
    make_room-zero fuel m h,
    rw (e, enter) (rw (make_room-zero (suc (length m.processor_cache)) m h)),
  )
