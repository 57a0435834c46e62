-- ===== src/Manager/Runs.antt =====
-- The manager as its tasks drive it: an event is what one task does between two points where it
-- gives up control, and a run is any sequence of events. A task that must load waits in the queue
-- of `_load_lock` with the configuration that it has read before.
pub mod Invariant
pub mod Limits
pub mod Results
use trajproxy.Base.{
  ℕ, ◌<◌, ◌≡◌, refl, String, Bool, true, false, Option, none, some, List, [], ◌∷◌, ◌++◌, string_eq,
  pair_eq, is_some, arith, inl, inr, Option-cases, if◌then◌else◌,
}
use trajproxy.Base.Dict.{get, put, Distinct, total}
use trajproxy.Models.{ModelKey, ModelConfig, Result, ok, raise}
use trajproxy.Tokenizers
use trajproxy.Manager.{Manager, config_of, touch, evict_idle, clear_cache}
use trajproxy.Manager.Registry.{
  FileSystem, Registration, register_static, register_begin, rollback, unregister_local,
  register_from_config, unregister_by_key,
}
use trajproxy.Manager.Sync.{full_sync}
use trajproxy.Manager.Loading.{Loaded, Entered, finished, suspended, hang, enter, resume, Suspended}
use trajproxy.Manager.Soundness.Syncs.{after}

pub record System (T : Type 0) : Type 0 where
  pub manager : Manager T
  pub waiting : List (ModelKey × ModelConfig)
  pub loading : Option Suspended
  -- references that failed constructors have left behind
  pub lost : List String

pub data Event (T : Type 0) : Type 0 where
  static_registered dynamic_registered : FileSystem → Registration → Event T
  database_failed : ModelKey → Event T
  unregistered : ModelKey → Event T
  -- the callbacks of `ModelSynchronizer`
  notified : ModelConfig → Event T
  removal_notified : ModelKey → Event T
  synced : List ModelConfig → Event T
  -- `try_get_or_sync_from_db` has found the key in the database
  found_in_database : ModelKey → ModelConfig → Event T
  -- `get_processor_async` up to the lock
  requested : ModelKey → ℕ → Event T
  -- the first waiting task takes the lock: whether the constructor of `Processor` will return
  entered : Bool → ℕ → Event T
  -- the thread of the suspended task ends
  loaded : Option T → Bool → ℕ → Event T
  idle_scanned : ℕ → Event T
  cleared : Event T

module _ {T : Type 0} where
  -- A hit marks the processor as used; a miss with a configuration waits for the lock.
  unfoldable pub request : ModelKey → ℕ → System T → System T
  request key now s =
      if is_some (get key s.manager.processor_cache)
      then record s { manager = touch key now s.manager }
      else elim (config_of key s.manager) [
        | none ↦ s
        | some c ↦ record s { waiting = s.waiting ++ (key, c) ∷ [] }
      ]

  unfoldable pub settle : Loaded T → List (ModelKey × ModelConfig) → System T → System T
  settle l waiting s = record s {
    manager = l.manager;
    waiting = waiting;
    loading = none;
    lost = l.lost ++ s.lost;
  }

  after_enter :
      ModelKey
      → ModelConfig
      → Entered T
      → List (ModelKey × ModelConfig)
      → System T
      → Option (System T)
  unfolding settle
  after_enter key c (finished l) rest s = some (settle l rest s)
  after_enter key c (suspended path m) rest s = some (record s {
    manager = m;
    waiting = rest;
    loading = some (record { key = key; config = c; path = path });
  })
  after_enter key c hang rest s = none

  take_lock :
      Bool → ℕ → Option Suspended → List (ModelKey × ModelConfig) → System T → Option (System T)
  unfolding after_enter
  take_lock built now (some l) waiting s = some s
  take_lock built now none [] s = some s
  take_lock built now none ((key, c) ∷ rest) s =
      after_enter key c (enter key c built now s.manager) rest s

  finish_load : Option T → Bool → ℕ → Option Suspended → System T → System T
  unfolding settle
  finish_load t built now none s = s
  finish_load t built now (some l) s =
      settle (resume l.key l.config l.path t built now s.manager) s.waiting s

  -- What an event without loading does to the manager.
  unfoldable pub act : Event T → Manager T → Manager T
  act (static_registered fs r) m = after (λ m'. m') m (register_static fs r m)
  act (dynamic_registered fs r) m = after (λ p. p.1) m (register_begin fs r m)
  act (database_failed key) m = after (λ m'. m') m (rollback key m)
  act (unregistered key) m = (unregister_local key m).1
  act (notified c) m = register_from_config c m
  act (removal_notified key) m = unregister_by_key key m
  act (synced db) m = full_sync db m
  act (found_in_database key c) m = record m { dynamic_configs = put key c m.dynamic_configs }
  act (idle_scanned now) m = evict_idle now m
  act cleared m = clear_cache m
  act (requested key now) m = m
  act (entered built now) m = m
  act (loaded t built now) m = m

  -- `none`: the event never ends.
  unfoldable pub step : Event T → System T → Option (System T)
  unfolding request take_lock finish_load act
  step (requested key now) s = some (request key now s)
  step (entered built now) s = take_lock built now s.loading s.waiting s
  step (loaded t built now) s = some (finish_load t built now s.loading s)
  step ev s = some (record s { manager = act ev s.manager })

  unfoldable pub run : List (Event T) → System T → Option (System T)
  unfolding step
  run [] s = some s
  run (ev ∷ evs) s = elim (step ev s) [ none ↦ none | some s' ↦ run evs s' ]

  -- `ProcessorManager.__init__`, with the two limits of the configuration file.
  unfoldable pub init : ℕ → ℕ → System T
  init cache_max_size idle_timeout = record {
    manager = record {
      config_configs = [];
      dynamic_configs = [];
      processor_cache = [];
      cache_max_size = cache_max_size;
      tokenizer_cache = Tokenizers.empty;
      last_access_time = [];
      idle_timeout = idle_timeout;
    };
    waiting = [];
    loading = none;
    lost = [];
  }
