-- ===== src/Manager/Sync/Spec.antt =====
-- `full_sync` key by key: what it leaves of the dynamic configurations and of the cache.
use trajproxy.Base.{
  ◌≡◌, refl, true, not, ◌&&◌, Option, none, some, List, [], ◌∷◌, map, arith, ◌==◌, string_eq,
  pair_eq, if◌then◌else◌, is_some, contains,
}
use trajproxy.Base.Dict.{Dict, get, Distinct}
use trajproxy.Base.Dict.Laws.{get-pop, get-put}
use trajproxy.Models.{ModelKey, ModelConfig, key_of, key_iff}
use trajproxy.Manager.{Manager, Processor, discard}
use trajproxy.Manager.Sync.{
  sync_one, sync_each, remove_one, remove_each, full_sync, same_settings, stale_keys,
}
use trajproxy.Manager.Registry.{register_from_config}

-- The database's list by key.
abbrev pub table : List ModelConfig → Dict ModelKey ModelConfig
table = map (λ c. (key_of c, c))

-- The configuration of a key after a synchronisation: `old` in memory, `new` in the database.
abbrev pub synced_config : Option ModelConfig → Option ModelConfig → Option ModelConfig
synced_config old none = none
synced_config none (some c) = some c
synced_config (some o) (some c) = if same_settings o c then some o else some c

-- The processor of the key: dropped if the configuration is gone or has changed.
abbrev pub synced_processor {ℓ} :
    {A : Type ℓ} → Option ModelConfig → Option ModelConfig → Option A → Option A
synced_processor none new x = x
synced_processor (some o) none x = none
synced_processor (some o) (some c) x = if same_settings o c then x else none

-- What the first loop leaves of a key: nothing changes where the database has no entry.
abbrev first_config : Option ModelConfig → Option ModelConfig → Option ModelConfig
first_config old none = old
first_config old (some c) = synced_config old (some c)

module _ {T : Type 0} where
  sync_one-config :
      (k : ModelKey) (c : ModelConfig) (m : Manager T)
      → get k (sync_one c m).dynamic_configs ≡ (
          if key_of c == k
          then synced_config (get k m.dynamic_configs) (some c)
          else get k m.dynamic_configs)
  unfolding sync_one discard
  sync_one-config k c m =
      ground (arith, get-put (key_of c) k c m.dynamic_configs, key_iff (key_of c) k)

  sync_one-processor :
      (k : ModelKey) (c : ModelConfig) (m : Manager T)
      → get k (sync_one c m).processor_cache ≡ (
          if key_of c == k
          then synced_processor (get k m.dynamic_configs) (some c) (get k m.processor_cache)
          else get k m.processor_cache)
  unfolding sync_one discard
  sync_one-processor k c m =
      ground (arith, get-pop (key_of c) k m.processor_cache, key_iff (key_of c) k)

  abbrev first_processor :
      Option ModelConfig → Option ModelConfig → Option (Processor T) → Option (Processor T)
  first_processor old none x = x
  first_processor old (some c) x = synced_processor old (some c) x

  sync_each-config :
      (k : ModelKey) (db : List ModelConfig) (m : Manager T)
      → Distinct (table db)
      → get k (sync_each db m).dynamic_configs
        ≡ first_config (get k m.dynamic_configs) (get k (table db))
  unfolding sync_each get
  sync_each-config k [] m h = refl
  sync_each-config k (c ∷ db) m h = ground (
    arith,
    sync_each-config k db (sync_one c m) h.1,
    sync_one-config k c m,
    h.0,
    key_iff (key_of c) k,
  )

  sync_each-processor :
      (k : ModelKey) (db : List ModelConfig) (m : Manager T)
      → Distinct (table db)
      → get k (sync_each db m).processor_cache
        ≡ first_processor (get k m.dynamic_configs) (get k (table db)) (get k m.processor_cache)
  unfolding sync_each get
  sync_each-processor k [] m h = refl
  sync_each-processor k (c ∷ db) m h = ground (
    arith,
    sync_each-processor k db (sync_one c m) h.1,
    sync_one-config k c m,
    sync_one-processor k c m,
    h.0,
    key_iff (key_of c) k,
  )

  remove_each-config :
      (k : ModelKey) (ks : List ModelKey) (m : Manager T)
      → get k (remove_each ks m).dynamic_configs
        ≡ (if contains k ks then none else get k m.dynamic_configs)
  unfolding remove_each remove_one discard contains
  remove_each-config k [] m = refl
  remove_each-config k (j ∷ ks) m =
      ground (arith, remove_each-config k ks (remove_one j m), get-pop j k m.dynamic_configs)

  remove_each-processor :
      (k : ModelKey) (ks : List ModelKey) (m : Manager T)
      → get k (remove_each ks m).processor_cache
        ≡ (if contains k ks then none else get k m.processor_cache)
  unfolding remove_each remove_one discard contains
  remove_each-processor k [] m = refl
  remove_each-processor k (j ∷ ks) m =
      ground (arith, remove_each-processor k ks (remove_one j m), get-pop j k m.processor_cache)

contains-stale_keys :
    {V : Type 0} (k : ModelKey) (db : List ModelKey) (d : Dict ModelKey V)
    → contains k (stale_keys db d) ≡ (is_some (get k d) && not (contains k db))
unfolding stale_keys contains get
contains-stale_keys k db [] = refl
contains-stale_keys k db ((j, v) ∷ d) = ground (arith, contains-stale_keys k db d, key_iff j k)

contains-keys :
    (k : ModelKey) (db : List ModelConfig) → contains k (map key_of db) ≡ is_some (get k (table db))
unfolding contains get
contains-keys k [] = refl
contains-keys k (c ∷ db) = ground (arith, contains-keys k db)

module _ {T : Type 0} where
  -- For a database list with each key once, `full_sync` leaves for every key: the database's
  -- configuration, or the one in memory if its six settings agree with it; no configuration if
  -- the database has none; and the cached processor, unless the configuration has gone or changed.
  pub full_sync_lem :
      (k : ModelKey) (db : List ModelConfig) (m : Manager T)
      → Distinct (table db)
      → (get k (full_sync db m).dynamic_configs
          ≡ synced_config (get k m.dynamic_configs) (get k (table db)))
        × (get k (full_sync db m).processor_cache
            ≡ synced_processor
                (get k m.dynamic_configs)
                (get k (table db))
                (get k m.processor_cache))
  unfolding full_sync
  full_sync_lem k db m h =
      let stale = stale_keys (map key_of db) m.dynamic_configs in
      (
        ground (
          arith,
          remove_each-config k stale (sync_each db m),
          sync_each-config k db m h,
          contains-stale_keys k (map key_of db) m.dynamic_configs,
          contains-keys k db,
        ),
        ground (
          arith,
          remove_each-processor k stale (sync_each db m),
          sync_each-processor k db m h,
          contains-stale_keys k (map key_of db) m.dynamic_configs,
          contains-keys k db,
        ),
      )

  -- A notification leaves the processor of its model in the cache, whatever settings it brings; and
  -- a full synchronisation after it, with a list that has each key once and the same settings for
  -- this model, leaves it there too.
  pub full_sync-stale :
      (c c' : ModelConfig) (db : List ModelConfig) (m : Manager T) (x : Processor T)
      → get (key_of c) m.processor_cache ≡ some x
      → Distinct (table db)
      → get (key_of c) (table db) ≡ some c'
      → same_settings c c' ≡ true
      → get (key_of c) (full_sync db (register_from_config c m)).processor_cache ≡ some x
  unfolding register_from_config
  full_sync-stale c c' db m x there once listed agree = ground (
    arith,
    (full_sync_lem (key_of c) db (register_from_config c m) once).1,
    get-put (key_of c) (key_of c) c m.dynamic_configs,
    key_iff (key_of c) (key_of c),
  )
