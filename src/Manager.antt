-- ===== src/Manager.antt =====
-- `ProcessorManager` (traj_proxy/proxy_core/processor_manager.py): the state, and the operations on
-- the LRU cache of processors. The time of `time.monotonic()` is an argument. `T` is the
-- tokenizer object of the library.
pub mod Registry
pub mod Sync
pub mod Loading
pub mod Soundness
pub mod Runs
pub mod Idle
use Prim.Native.Char.{code}
use Prim.Native.String
use trajproxy.Base.{
  ℕ, zero, suc, ◌-◌, ◌≡◌, String, Bool, true, false, Option, none, some, List, [], ◌∷◌, map, ◌==◌,
  string_eq, nat_eq, pair_eq, leb, ltb, nat_beq, if◌then◌else◌, length, is_some, ◌&&◌,
}
use trajproxy.Base.Dict.{Dict, get, pop, put, move_to_end, pop_first}
use trajproxy.Models.{ModelKey, ModelConfig, truthy}
use trajproxy.Tokenizers.{TokenizerCache, release}

pub record InferClient : Type 0 where
  pub base_url : String
  pub api_key : String

-- What the manager reads of a `Processor`.
pub record Processor (T : Type 0) : Type 0 where
  pub model : String
  pub run_id : String
  pub tokenizer_path : Option String
  pub infer_client : InferClient
  pub tool_parser_name : String
  pub reasoning_parser_name : String
  pub updated_at : Option ℕ
  pub token_in_token_out : Bool
  pub tokenizer : Option T

pub record Manager (T : Type 0) : Type 0 where
  pub config_configs : Dict ModelKey ModelConfig
  pub dynamic_configs : Dict ModelKey ModelConfig
  pub processor_cache : Dict ModelKey (Processor T)
  pub cache_max_size : ℕ
  pub tokenizer_cache : TokenizerCache T
  pub last_access_time : Dict ModelKey ℕ
  pub idle_timeout : ℕ

-- `url.rstrip("/")`, of the constructor of `InferClient`
rstrip_slash : String → String
rstrip_slash String.[] = String.[]
rstrip_slash (String.◌∷◌ c s) =
    let r = rstrip_slash s in
    if nat_beq (code c) b'/' && r == String.[] then String.[] else String.◌∷◌ c r

-- The path whose tokenizer a processor of this path and mode holds a reference to.
abbrev pub held_path : Option String → Bool → Option String
held_path path true = truthy path
held_path path false = none

-- `[key for key, last_time in ….items() if now - last_time > self._idle_timeout]`
unfoldable pub idle_keys : ℕ → ℕ → Dict ModelKey ℕ → List ModelKey
idle_keys now timeout [] = []
idle_keys now timeout ((k, t) ∷ d) =
    let rest = idle_keys now timeout d in if ltb timeout (now - t) then k ∷ rest else rest

module _ {T : Type 0} where
  unfoldable pub new_processor : ModelConfig → Option T → Processor T
  unfolding rstrip_slash
  new_processor c tokenizer = record {
    model = c.model_name;
    run_id = c.run_id;
    tokenizer_path = c.tokenizer_path;
    infer_client = record { base_url = rstrip_slash c.url; api_key = c.api_key };
    tool_parser_name = c.tool_parser;
    reasoning_parser_name = c.reasoning_parser;
    updated_at = c.updated_at;
    token_in_token_out = c.token_in_token_out;
    tokenizer = tokenizer;
  }

  -- `self._config_configs.get(key) or self._dynamic_configs.get(key)`
  unfoldable pub config_of : ModelKey → Manager T → Option ModelConfig
  config_of key m = elim (get key m.config_configs) [
    | none ↦ get key m.dynamic_configs
    | some c ↦ some c
  ]

  unfoldable pub touch : ModelKey → ℕ → Manager T → Manager T
  touch key now m =
      if is_some (get key m.processor_cache)
      then record m {
        processor_cache = move_to_end key m.processor_cache;
        last_access_time = put key now m.last_access_time;
      }
      else m

  unfoldable pub release_processor : Processor T → TokenizerCache T → TokenizerCache T
  release_processor p tokens = elim (held_path p.tokenizer_path p.token_in_token_out) [
    | none ↦ tokens
    | some path ↦ release path tokens
  ]

  -- Takes a key out of the cache and of the access times, and releases the processor that stood
  -- there: `old = self._processor_cache.pop(key, None)`, `if old: await self._release…(old)`.
  unfoldable pub discard : ModelKey → Manager T → Manager T
  unfolding release_processor
  discard key m = record m {
    processor_cache = pop key m.processor_cache;
    last_access_time = pop key m.last_access_time;
    tokenizer_cache = elim (get key m.processor_cache) [
      | none ↦ m.tokenizer_cache
      | some p ↦ release_processor p m.tokenizer_cache
    ];
  }

  unfoldable pub evict_one : Manager T → Manager T
  unfolding release_processor
  evict_one m = elim (pop_first m.processor_cache) [
    | none ↦ m
    | some ((key, p), rest) ↦ record m {
      processor_cache = rest;
      last_access_time = pop key m.last_access_time;
      tokenizer_cache = release_processor p m.tokenizer_cache;
    }
  ]

  -- `while len(self._processor_cache) >= self._cache_max_size`, on fuel.
  unfoldable pub make_room : ℕ → Manager T → Option (Manager T)
  make_room zero m = none
  make_room (suc fuel) m =
      let rest = make_room fuel (evict_one m) in
      if leb m.cache_max_size (length m.processor_cache) then rest else some m

  -- The keys that `_evict_idle_processors` found, in turn.
  unfoldable pub discard_all : List ModelKey → Manager T → Manager T
  discard_all [] m = m
  discard_all (k ∷ ks) m = discard_all ks (discard k m)

  unfoldable pub evict_idle : ℕ → Manager T → Manager T
  unfolding idle_keys discard_all
  evict_idle now m = elim m.processor_cache [
    | [] ↦ m
    | e ∷ d ↦ discard_all (idle_keys now m.idle_timeout m.last_access_time) m
  ]

  unfoldable pub release_all : List (ModelKey × Processor T) → TokenizerCache T → TokenizerCache T
  unfolding release_processor
  release_all [] tokens = tokens
  release_all ((k, p) ∷ d) tokens = release_all d (release_processor p tokens)

  unfoldable pub clear_cache : Manager T → Manager T
  unfolding release_all
  clear_cache m = record m {
    processor_cache = [];
    last_access_time = [];
    tokenizer_cache = release_all m.processor_cache m.tokenizer_cache;
  }
