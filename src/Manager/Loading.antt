-- ===== src/Manager/Loading.antt =====
-- `ProcessorManager._load_processor` and the tasks that run beside it. `_load_lock` lets one task
-- load at a time; the others wait in its queue. Loading is suspended only in the thread that runs
-- `AutoTokenizer.from_pretrained`, and there the other tasks go on: a load is an `enter` and, after
-- a tokenizer miss, a later `resume`, with any operations between them.
use trajproxy.Base.{
  ℕ, suc, String, Bool, true, false, Option, none, some, List, [], ◌∷◌, ◌==◌, string_eq, nat_eq,
  pair_eq, if◌then◌else◌, length,
}
use trajproxy.Base.Dict.{get, put}
use trajproxy.Models.{ModelKey, ModelConfig, truthy}
use trajproxy.Tokenizers.{hit, miss, key_missing, look_up, store_loaded}
use trajproxy.Manager.{
  Manager, Processor, new_processor, config_of, touch, release_processor, make_room, held_path,
}

-- `lost` are references that a failed constructor of `Processor` leaves behind: the tokenizer
-- was counted, and nobody will release it.
pub record Loaded (T : Type 0) : Type 0 where
  pub result : Option (Processor T)
  pub manager : Manager T
  pub lost : List String

pub data Entered (T : Type 0) : Type 0 where
  finished : Loaded T → Entered T
  suspended : String → Manager T → Entered T
  -- `while` does not end: the limit is zero and the cache is empty.
  hang : Entered T

abbrev pub lost_path : Option String → List String
lost_path none = []
lost_path (some p) = p ∷ []

module _ {T : Type 0} where
  -- After the build: the configuration must be there and be the very object that was built from.
  unfoldable pub insert_checked : ModelKey → ModelConfig → ℕ → Processor T → Manager T → Loaded T
  unfolding config_of release_processor
  insert_checked key config now p m =
      let dropped : Loaded T = record {
        result = none;
        manager = record m { tokenizer_cache = release_processor p m.tokenizer_cache };
        lost = [];
      } in
      elim (config_of key m) [
        | none ↦ dropped
        | some current ↦
            if current.oid == config.oid
            then record {
              result = some p;
              manager = record m {
                processor_cache = put key p m.processor_cache;
                last_access_time = put key now m.last_access_time;
              };
              lost = [];
            }
            else dropped
      ]

  -- The rest of `_create_processor` once the tokenizer is there; `built` is whether the constructor
  -- of `Processor` returns.
  unfoldable pub build : ModelKey → ModelConfig → Option T → Bool → ℕ → Manager T → Loaded T
  unfolding insert_checked new_processor
  build key config tokenizer true now m =
      insert_checked key config now (new_processor config tokenizer) m
  build key config tokenizer false now m = record {
    result = none;
    manager = m;
    lost = lost_path (held_path config.tokenizer_path config.token_in_token_out);
  }

  failed : Manager T → Entered T
  failed m = finished (record { result = none; manager = m; lost = [] })

  -- `_create_processor` from its start up to the tokenizer.
  unfoldable pub create_processor : ModelKey → ModelConfig → Bool → ℕ → Manager T → Entered T
  unfolding failed build
  create_processor key config built now m =
      if config.token_in_token_out
      then elim (truthy config.tokenizer_path) [
        | none ↦ failed m
        | some path ↦ elim (look_up path m.tokenizer_cache) [
          | hit t tokens ↦
              finished (build key config (some t) built now (record m { tokenizer_cache = tokens }))
          | miss ↦ suspended path m
          | key_missing ↦ failed m
        ]
      ]
      else finished (build key config none built now m)

  -- `_load_processor` from the moment the lock is held.
  unfoldable pub enter : ModelKey → ModelConfig → Bool → ℕ → Manager T → Entered T
  unfolding create_processor touch
  enter key config built now m = elim (get key m.processor_cache) [
    | some p ↦ finished (record { result = some p; manager = touch key now m; lost = [] })
    | none ↦ elim (make_room (suc (length m.processor_cache)) m) [
      | none ↦ hang
      | some m' ↦ create_processor key config built now m'
    ]
  ]

  -- The thread has ended: with a tokenizer, or (`none`) with an exception.
  unfoldable pub resume :
      ModelKey → ModelConfig → String → Option T → Bool → ℕ → Manager T → Loaded T
  unfolding build
  resume key config path loaded built now m = elim loaded [
    | none ↦ record { result = none; manager = m; lost = [] }
    | some t ↦
        build key config (some t) built now
          (record m { tokenizer_cache = store_loaded path t m.tokenizer_cache })
  ]

-- The task that holds the lock while its tokenizer is loaded in a thread.
pub record Suspended : Type 0 where
  pub key : ModelKey
  pub config : ModelConfig
  pub path : String
