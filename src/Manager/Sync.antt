-- ===== src/Manager/Sync.antt =====
-- `ProcessorManager.full_sync`: the dynamic configurations follow the database's list.
pub mod Spec
use trajproxy.Base.{
  ℕ, suc, String, Bool, true, false, Option, none, some, List, [], ◌∷◌, map, ◌==◌, string_eq, ◌&&◌,
  pair_eq, if◌then◌else◌, not, contains,
}
use trajproxy.Base.Dict.{Dict, get, pop, put}
use trajproxy.Models.{ModelKey, ModelConfig, key_of}
use trajproxy.Manager.{Manager, discard}

abbrev pub bool_beq : Bool → Bool → Bool
bool_beq true b = b
bool_beq false b = not b

abbrev pub option_beq : Option String → Option String → Bool
option_beq none none = true
option_beq none (some b) = false
option_beq (some a) none = false
option_beq (some a) (some b) = a == b

-- The comparison of the six settings; `run_id` and `model_name` are the key, `updated_at` is left out.
unfoldable pub same_settings : ModelConfig → ModelConfig → Bool
same_settings a b =
    option_beq a.tokenizer_path b.tokenizer_path
    && bool_beq a.token_in_token_out b.token_in_token_out
    && a.url == b.url
    && a.api_key == b.api_key
    && a.tool_parser == b.tool_parser
    && a.reasoning_parser == b.reasoning_parser

-- `set(local.keys()) - db_keys`; a set has no order, and here the order is that of the dict.
unfoldable pub stale_keys : {V : Type 0} → List ModelKey → Dict ModelKey V → List ModelKey
stale_keys db [] = []
stale_keys db ((k, v) ∷ d) = let rest = stale_keys db d in if contains k db then rest else k ∷ rest

module _ {T : Type 0} where
  -- One round of the first loop: a new configuration, or one that may have changed.
  unfoldable pub sync_one : ModelConfig → Manager T → Manager T
  sync_one c m = elim (get (key_of c) m.dynamic_configs) [
    | none ↦ record m { dynamic_configs = put (key_of c) c m.dynamic_configs }
    | some existing ↦
        if same_settings existing c
        then m
        else discard (key_of c) (record m { dynamic_configs = put (key_of c) c m.dynamic_configs })
  ]

  unfoldable pub sync_each : List ModelConfig → Manager T → Manager T
  sync_each [] m = m
  sync_each (c ∷ cs) m = sync_each cs (sync_one c m)

  unfoldable pub remove_one : ModelKey → Manager T → Manager T
  remove_one key m = discard key (record m { dynamic_configs = pop key m.dynamic_configs })

  unfoldable pub remove_each : List ModelKey → Manager T → Manager T
  remove_each [] m = m
  remove_each (k ∷ ks) m = remove_each ks (remove_one k m)

  -- The keys to remove are computed from the keys before the first loop.
  unfoldable pub full_sync : List ModelConfig → Manager T → Manager T
  unfolding stale_keys sync_each remove_each
  full_sync db m = remove_each (stale_keys (map key_of db) m.dynamic_configs) (sync_each db m)
