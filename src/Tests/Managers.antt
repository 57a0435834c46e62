-- ===== src/Tests/Managers.antt =====
-- The theorems on `ProcessorManager` at concrete inputs; the tokenizer objects are numbers.
use trajproxy.Base.{
  ℕ, ◌+◌, ◌≤◌, ◌<◌, ◌≡◌, refl, String, true, false, none, some, List, [], ◌∷◌, length, string_eq,
  pair_eq, is_some, arith, if◌then◌else◌, ◌==◌,
}
use trajproxy.Base.Dict.{Dict, get, put, pop, total, Distinct}
use trajproxy.Models.{ModelKey, ModelConfig, raise, database_error, key_error, value_error}
use trajproxy.Tokenizers.Counts.{count}
use trajproxy.Manager.{Manager, Processor, config_of, discard, new_processor, evict_idle, make_room}
use trajproxy.Manager.Soundness.{held, uses, occurrences}
use trajproxy.Manager.Registry.{
  FileSystem, Registration, checked_config, register_static, register_begin, register_dynamic,
  unregister_dynamic, unregister_local, unregister_by_key, register_from_config,
}
use trajproxy.Manager.Registry.Effects.{
  register_begin_lem, register_dynamic-failed, unregister_dynamic_lem,
}
use trajproxy.Manager.Sync.{full_sync, same_settings}
use trajproxy.Manager.Sync.Spec.{full_sync_lem, full_sync-stale}
use trajproxy.Manager.Loading.{hang, enter}
use trajproxy.Manager.Idle.{evict_idle_lem, enter-zero_limit}
use trajproxy.Manager.Runs.{
  System, Event, notified, requested, entered, loaded, removal_notified, run, init,
}
use trajproxy.Manager.Runs.Results.{
  run-bounded, run-no_orphans, run-counts, run-counts_exact, run-shared,
}

abbrev config : ℕ → String → ModelConfig
config oid name = record {
  oid = oid;
  url = "http://host/v1/";
  api_key = "key";
  tokenizer_path = some "tokens";
  run_id = "run";
  model_name = name;
  token_in_token_out = true;
  tool_parser = "";
  reasoning_parser = "";
  updated_at = some oid;
}

abbrev key_a : ModelKey
key_a = ("run", "a")

abbrev key_b : ModelKey
key_b = ("run", "b")

-- Two models with one tokenizer and room for one processor, and a constructor that raises.
abbrev events : List (Event ℕ)
events =
    notified (config 1 "a")
    ∷ requested key_a 10
    ∷ entered true 11
    ∷ loaded (some 7) true 12
    ∷ notified (config 2 "b")
    ∷ requested key_b 13
    ∷ entered true 14
    ∷ loaded (some 8) false 15
    ∷ []

abbrev built_events : List (Event ℕ)
built_events =
    notified (config 1 "a")
    ∷ requested key_a 10
    ∷ entered true 11
    ∷ loaded (some 7) true 12
    ∷ removal_notified key_a
    ∷ []

run-bounded_example :
    (s : System ℕ) × (run events (init 1 300) ≡ some s)
    × (length s.manager.processor_cache ≤ 1)
    × Distinct s.manager.processor_cache
    × ((k : ModelKey)
        → is_some (get k s.manager.last_access_time) ≡ is_some (get k s.manager.processor_cache))
run-bounded_example = run-bounded 1 300 events (omega arith)

run-no_orphans_example :
    (s : System ℕ) × (run events (init 1 300) ≡ some s)
    × ((k : ModelKey)
        → is_some (get k s.manager.processor_cache) ≡ true
        → is_some (config_of k s.manager) ≡ true)
run-no_orphans_example = run-no_orphans 1 300 events (omega arith)

run-counts_example :
    (s : System ℕ) × (run events (init 1 300) ≡ some s)
    × ((q : String)
        → count q s.manager.tokenizer_cache
          ≡ total (uses q) s.manager.processor_cache + occurrences q s.lost)
run-counts_example = run-counts 1 300 events (omega arith)

run-counts_exact_example :
    (s : System ℕ) × (run built_events (init 1 300) ≡ some s)
    × ((q : String) → count q s.manager.tokenizer_cache ≡ total (uses q) s.manager.processor_cache)
run-counts_exact_example =
    run-counts_exact 1 300 built_events (omega arith) (tt, (tt, (refl, (refl, (tt, tt)))))

run-shared_example :
    (s : System ℕ) × (run events (init 1 300) ≡ some s)
    × ((k : ModelKey) (x : Processor ℕ) (q : String)
        → get k s.manager.processor_cache ≡ some x
        → held x ≡ some q
        → (get q s.manager.tokenizer_cache.cache ≡ x.tokenizer)
          × (0 < count q s.manager.tokenizer_cache))
run-shared_example = run-shared 1 300 events (omega arith)

-- One model in the cache, with its configuration.
abbrev processor_a : Processor ℕ
processor_a = new_processor (config 1 "a") (some 7)

abbrev manager : ℕ → Dict ModelKey (Processor ℕ) → Manager ℕ
manager size cached = record {
  config_configs = [];
  dynamic_configs = (key_a, config 1 "a") ∷ [];
  processor_cache = cached;
  cache_max_size = size;
  tokenizer_cache = record { cache = ("tokens", 7) ∷ []; ref_counts = ("tokens", 1) ∷ [] };
  last_access_time = (key_a, 10) ∷ [];
  idle_timeout = 300;
}

abbrev one : Manager ℕ
one = manager 1 ((key_a, processor_a) ∷ [])

full_sync_lem_example :
    (get key_a (full_sync (config 2 "b" ∷ []) one).dynamic_configs ≡ none)
    × (get key_a (full_sync (config 2 "b" ∷ []) one).processor_cache ≡ none)
unfolding get
full_sync_lem_example = full_sync_lem key_a (config 2 "b" ∷ []) one (refl, tt)

-- The same model at another address.
abbrev moved : ModelConfig
moved = record (config 3 "a") { url = "http://other/v1/" }

full_sync-stale_example :
    get key_a (full_sync (moved ∷ []) (register_from_config moved one)).processor_cache
    ≡ some processor_a
unfolding get same_settings
full_sync-stale_example =
    full_sync-stale moved moved (moved ∷ []) one processor_a refl (refl, tt) refl refl

evict_idle_lem_example : get key_a (evict_idle 311 one).processor_cache ≡ none
unfolding get
evict_idle_lem_example = evict_idle_lem key_a 311 one (refl, tt)

enter-zero_limit_example :
    (make_room 5 (manager 0 []) ≡ none) × (enter key_a (config 1 "a") true 20 (manager 0 []) ≡ hang)
unfolding get
enter-zero_limit_example = enter-zero_limit key_a (config 1 "a") true 20 5 (manager 0 []) refl refl

abbrev files : FileSystem
files = record {
  is_absolute = λ p. false;
  exists = λ p. true;
  join = λ a b. b;
  models_dir = "models";
}

abbrev registration : Registration
registration = record {
  oid = 9;
  now = 20;
  model_name = "b";
  url = "http://host/v1";
  api_key = "key";
  tokenizer_path = some "tokens";
  token_in_token_out = true;
  run_id = "run";
  tool_parser = "";
  reasoning_parser = "";
}

abbrev config_b : ModelConfig
config_b = record (config 9 "b") { url = "http://host/v1"; updated_at = some 20 }

abbrev both : Manager ℕ
both = record one { dynamic_configs = (key_a, config 1 "a") ∷ (key_b, config_b) ∷ [] }

register_begin_lem_example :
    ((k : ModelKey) → config_of k both ≡ (if key_b == k then some config_b else config_of k one))
    × (register_static files registration both ≡ raise value_error)
    × (register_begin files registration both ≡ raise value_error)
unfolding register_begin checked_config get put
register_begin_lem_example =
    register_begin_lem files files registration registration one both config_b refl refl

-- Another task removes the model while the database is awaited.
register_dynamic-failed_example :
    (get key_b
        (register_dynamic files registration true
          (unregister_by_key key_b)
          false
          one).1.dynamic_configs
      ≡ none)
    × (((register_dynamic files registration true (unregister_by_key key_b) false one).0
          ≡ raise key_error)
        × ((register_dynamic files registration true (unregister_by_key key_b) false one).1
            ≡ unregister_by_key key_b both))
unfolding register_begin checked_config unregister_by_key get put pop discard
register_dynamic-failed_example =
    register_dynamic-failed files registration (unregister_by_key key_b) one both config_b refl

abbrev removed_a : Manager ℕ
removed_a = (unregister_local key_a one).1

-- While the database is awaited, which fails, another task removes the other key.
unregister_dynamic_lem_example :
    (get key_a removed_a.dynamic_configs ≡ none)
    × (get key_a removed_a.processor_cache ≡ none)
    × ((unregister_dynamic "a" "run" true (unregister_by_key key_b) none one).1
        ≡ unregister_by_key key_b removed_a)
    × ((unregister_dynamic "a" "run" true (unregister_by_key key_b) none one).0
        ≡ raise database_error)
unfolding get
unregister_dynamic_lem_example =
    unregister_dynamic_lem "a" "run" true (unregister_by_key key_b) none one key_a
