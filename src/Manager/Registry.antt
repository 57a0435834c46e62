-- ===== src/Manager/Registry.antt =====
-- `ProcessorManager`: registration, removal, and the callbacks of `ModelSynchronizer`.
-- The file system (`os.path`) and the database are not part of the program: they are arguments.
pub mod Effects
use Prim.Native.Nat.{zero, ◌+◌}
use mathlib.Core.List.{foldl}
use text.Mathlib.Text.{starts_with, find?}
use trajproxy.Base.{
  ℕ, suc, String, Bool, true, false, Option, none, some, List, [], ◌∷◌, ◌++◌, map, ◌==◌, string_eq,
  nat_eq, pair_eq, if◌then◌else◌, is_some, ◌&&◌, ◌||◌, not, contains,
}
use trajproxy.Base.Dict.{Dict, get, pop, put}
use trajproxy.Models.{
  ModelKey, ModelConfig, key_of, truthy, Result, ok, raise, value_error, key_error, database_error,
  ◌>>=◌,
}
use trajproxy.Manager.{Manager, Processor, config_of, discard, discard_all}

pub record FileSystem : Type 0 where
  pub is_absolute : String → Bool
  pub exists : String → Bool
  pub join : String → String → String
  pub models_dir : String

unfoldable pub resolve_tokenizer_path : FileSystem → String → Result String
resolve_tokenizer_path fs tokenizer =
    let local_path = fs.join fs.models_dir tokenizer in
    if fs.is_absolute tokenizer
    then (if fs.exists tokenizer then ok tokenizer else raise value_error)
    else if is_some (find? tokenizer "/") && not (starts_with tokenizer "/")
    then (if fs.exists local_path then ok local_path else ok tokenizer)
    else if fs.exists local_path
    then ok local_path
    else raise value_error

-- The arguments of a registration. `oid` and `now` are the identity of the `ModelConfig` that it
-- creates, and `utcnow()`.
pub record Registration : Type 0 where
  pub oid : ℕ
  pub now : ℕ
  pub model_name : String
  pub url : String
  pub api_key : String
  pub tokenizer_path : Option String
  pub token_in_token_out : Bool
  pub run_id : String
  pub tool_parser : String
  pub reasoning_parser : String

abbrev pub reg_key : Registration → ModelKey
reg_key r = (r.run_id, r.model_name)

-- `None` in direct mode; in token mode a path is required, and resolved.
unfoldable pub resolved_path : FileSystem → Option String → Bool → Result (Option String)
unfolding resolve_tokenizer_path
resolved_path fs path false = ok none
resolved_path fs path true = elim (truthy path) [
  | none ↦ raise value_error
  | some p ↦ do q ← resolve_tokenizer_path fs p; ok (some q)
]

module _ {T : Type 0} where
  -- `key in self._config_configs or key in self._dynamic_configs`
  unfoldable pub is_registered : ModelKey → Manager T → Bool
  is_registered key m = is_some (get key m.config_configs) || is_some (get key m.dynamic_configs)

  -- The checks and the new `ModelConfig`, which both registrations make in the same way.
  unfoldable pub checked_config : FileSystem → Registration → Manager T → Result ModelConfig
  unfolding is_registered resolved_path
  checked_config fs r m = if is_registered (reg_key r) m then raise value_error else do
    path ← resolved_path fs r.tokenizer_path r.token_in_token_out
    ok (record {
      oid = r.oid;
      url = r.url;
      api_key = r.api_key;
      tokenizer_path = path;
      run_id = r.run_id;
      model_name = r.model_name;
      token_in_token_out = r.token_in_token_out;
      tool_parser = r.tool_parser;
      reasoning_parser = r.reasoning_parser;
      updated_at = some r.now;
    })

  unfoldable pub register_static : FileSystem → Registration → Manager T → Result (Manager T)
  register_static fs r m = do
    c ← checked_config fs r m
    ok (record m { config_configs = put (reg_key r) c m.config_configs })

  -- `register_dynamic_processor` up to the database: the configuration stands in memory.
  unfoldable pub register_begin :
      FileSystem → Registration → Manager T → Result (ModelConfig × Manager T)
  register_begin fs r m = do
    c ← checked_config fs r m
    ok (c, record m { dynamic_configs = put (reg_key r) c m.dynamic_configs })

  -- Its handler of a database failure. `del` raises `KeyError` if another task has removed the
  -- configuration, and nothing after it is done.
  unfoldable pub rollback : ModelKey → Manager T → Result (Manager T)
  rollback key m = elim (get key m.dynamic_configs) [
    | none ↦ raise key_error
    | some _ ↦ ok (discard key (record m { dynamic_configs = pop key m.dynamic_configs }))
  ]

  after_rollback : Result (Manager T) → Manager T → Result ModelConfig × Manager T
  after_rollback (ok m') m = (raise database_error, m')
  after_rollback (raise e) m = (raise e, m)

  -- `during` is what other tasks do while the database is awaited, `stored` whether it succeeds.
  register_finish :
      ModelConfig
      → Bool
      → (Manager T → Manager T)
      → Bool
      → Manager T
      → Result ModelConfig × Manager T
  unfolding after_rollback
  register_finish c false during stored m = (ok c, m)
  register_finish c true during true m = (ok c, during m)
  register_finish c true during false m =
      let m' = during m in after_rollback (rollback (key_of c) m') m'

  unfoldable pub register_dynamic :
      FileSystem
      → Registration
      → Bool
      → (Manager T → Manager T)
      → Bool
      → Manager T
      → Result ModelConfig × Manager T
  unfolding register_begin register_finish
  register_dynamic fs r persist during stored m = elim (register_begin fs r m) [
    | ok (c, m') ↦ register_finish c persist during stored m'
    | raise e ↦ (raise e, m)
  ]

  -- The part of `unregister_dynamic_processor` before the database.
  unfoldable pub unregister_local : ModelKey → Manager T → Bool × Manager T
  unregister_local key m = elim (get key m.dynamic_configs) [
    | none ↦ (false, m)
    | some _ ↦ (true, discard key (record m { dynamic_configs = pop key m.dynamic_configs }))
  ]

  -- The row in the database. `during` is what other tasks do while it is awaited, and `deleted` what
  -- the database did: `none` is a failure.
  unfoldable pub unregister_stored :
      Bool → (Manager T → Manager T) → Option Bool → Manager T → Result Bool × Manager T
  unregister_stored false during deleted m = (ok true, m)
  unregister_stored true during none m = (raise database_error, during m)
  unregister_stored true during (some success) m = (ok true, during m)

  unfoldable pub unregister_dynamic :
      String
      → String
      → Bool
      → (Manager T → Manager T)
      → Option Bool
      → Manager T
      → Result Bool × Manager T
  unfolding unregister_local unregister_stored
  unregister_dynamic model_name run_id persist during deleted m =
      let (found, m') = unregister_local (run_id, model_name) m in
      if found then unregister_stored persist during deleted m' else (ok false, m')

  unfoldable pub register_from_config : ModelConfig → Manager T → Manager T
  register_from_config c m = record m { dynamic_configs = put (key_of c) c m.dynamic_configs }

  unfoldable pub unregister_by_key : ModelKey → Manager T → Manager T
  unregister_by_key key m = discard key (record m { dynamic_configs = pop key m.dynamic_configs })
