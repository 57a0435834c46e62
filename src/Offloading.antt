-- ===== src/Offloading.antt =====
-- `OffloadingRepository` (traj_proxy/store/decorators/offloading_repository.py): it keeps the large
-- `routed_experts` field of a response out of the database, by storing it as a blob and a marker in
-- its place. Serialization, the time and the wrapped repository are not part of the program: they
-- are fields of `Env`.
pub mod Keys
pub mod Refs
pub mod Extracts
pub mod Inserts
pub mod Fetches
use trajproxy.Base.{
  ℕ, suc, ◌+◌, ◌*◌, String, Bool, true, false, Option, none, some, List, [], ◌∷◌, ◌++◌,
  if◌then◌else◌, ltb, length, string_eq,
}
use trajproxy.Texts.{Text}
use trajproxy.Json.{
  Json, null, boolean, number, text, array, object, Items, no_items, item, Fields, no_fields, field,
  field_of, with_field,
}
use trajproxy.Offloading.Keys.{make_blob_key, present}
use trajproxy.Offloading.Refs.{RefTable, Backend, csb, local, insert_ref}

-- What it reads and changes of `ProcessContext`; `none` is a response that is not a dict.
pub record Context : Type 0 where
  pub token_response : Option Fields
  pub raw_response : Option Fields
  pub session_id : Option Text
  pub request_id : Text

pub data Source : Type 0 where
  token_response raw_response : Source

pub record Env : Type 0 where
  -- `json.dumps(…).encode("utf-8")`; `none` is an exception
  pub serialize : Json → Option (List ℕ)
  pub now : ℕ
  pub ttl_hours : ℕ
  pub ref_works : Bool
  -- whether the n-th call of `inner.insert` returns
  pub inner_works : ℕ → Bool
  pub backend : Backend
  pub marker_config : Fields
  pub blob_key_prefix : Text

-- A background task, and what the calls have done so far.
pub record Upload : Type 0 where
  pub blob_key : Text
  pub data_bytes : List ℕ
  pub request_id : Text

pub record World : Type 0 where
  pub refs : RefTable
  pub tasks : List Upload
  pub stored : List Context
  pub inner_calls : ℕ

-- The fields of `data["choices"][0]`, where it is a dict.
unfoldable pub first_choice : Fields → Option Fields
first_choice data_fields = elim (field_of "choices" data_fields) [
  | some (array (item (object choice) rest)) ↦ some choice
  | _ ↦ none
]

-- `isinstance(re_value, dict) and re_value.get("_offloaded") is True`
unfoldable pub is_marker : Json → Bool
is_marker (object fs) = elim (field_of "_offloaded" fs) [ some (boolean true) ↦ true | _ ↦ false ]
is_marker _ = false

-- One round of the loop of `_extract`.
unfoldable pub routed_experts_of : Option Fields → Option Json
unfolding first_choice is_marker
routed_experts_of none = none
routed_experts_of (some data_fields) = elim (first_choice data_fields) [
  | none ↦ none
  | some choice ↦ elim (field_of "routed_experts" choice) [
    | none ↦ none
    | some v ↦ if is_marker v then none else some v
  ]
]

unfoldable pub extract : Context → Option (Json × Source)
unfolding routed_experts_of
extract context = elim (routed_experts_of context.token_response) [
  | some v ↦ some (v, token_response)
  | none ↦ elim (routed_experts_of context.raw_response) [
    | some v ↦ some (v, raw_response)
    | none ↦ none
  ]
]

-- data["choices"][0]["routed_experts"] = v, for a response that `_extract` has found.
unfoldable pub with_routed_experts : Json → Fields → Fields
with_routed_experts v data_fields = elim (field_of "choices" data_fields) [
  | some (array (item (object choice) rest)) ↦
      with_field "choices" (array (item (object (with_field "routed_experts" v choice)) rest))
        data_fields
  | _ ↦ data_fields
]

abbrev map_response : (Fields → Fields) → Option Fields → Option Fields
map_response f none = none
map_response f (some d) = some (f d)

unfoldable pub put_routed_experts : Source → Json → Context → Context
unfolding with_routed_experts
put_routed_experts token_response v context = record context {
  token_response = map_response (with_routed_experts v) context.token_response;
}
put_routed_experts raw_response v context = record context {
  raw_response = map_response (with_routed_experts v) context.raw_response;
}

-- `self._marker_config.get(name, "")`; its values are texts
abbrev config_text : String → Fields → Json
config_text name config = elim (field_of name config) [ none ↦ text [] | some v ↦ v ]

-- The f-string of `access_path`.
abbrev as_text : Json → Text
as_text (text t) = t
as_text _ = []

unfoldable pub build_marker : Backend → Fields → Text → Json
build_marker csb config blob_key = object (
    field "_offloaded" (boolean true) (
      field "backend" (text (b'c' ∷ b's' ∷ b'b' ∷ [])) (
        field "location"
          (object (
            field "endpoint" (config_text "endpoint" config) (
              field "bucket" (config_text "bucket" config)
                (field "key" (text blob_key) no_fields))))
          no_fields)))
build_marker local config blob_key = object (
    field "_offloaded" (boolean true) (
      field "backend" (text (b'l' ∷ b'o' ∷ b'c' ∷ b'a' ∷ b'l' ∷ [])) (
        field "location"
          (object (
            field "path" (text (as_text (config_text "access_path" config) ++ b'/' ∷ blob_key))
              no_fields))
          no_fields)))

-- `_ROUTE_EXPERTS_MAX_BYTES`
abbrev pub max_bytes : ℕ
max_bytes = 50 * 1024 * 1024

-- `returned` is false where `insert` raises.
pub record Outcome : Type 0 where
  pub returned : Bool
  pub context : Context
  pub world : World

unfoldable pub inner_insert : Env → Context → World → Outcome
inner_insert env context w =
    if env.inner_works w.inner_calls
    then record {
      returned = true;
      context = context;
      world = record w { stored = w.stored ++ context ∷ []; inner_calls = suc w.inner_calls };
    }
    else record {
      returned = false;
      context = context;
      world = record w { inner_calls = suc w.inner_calls };
    }

-- Too large: the call of `inner.insert` stands inside the `try`, so if it raises, the handler
-- calls it again.
unfoldable pub insert_oversize : Env → Context → World → Outcome
unfolding inner_insert
insert_oversize env context w =
    let first = inner_insert env context w in
    if first.returned then first else inner_insert env context first.world

-- The last step: on a failure the original data is put back.
unfoldable pub insert_marked : Env → Json → Source → Context → World → Outcome
unfolding inner_insert put_routed_experts
insert_marked env re_data source context w =
    let o = inner_insert env context w in
    if o.returned then o else record o { context = put_routed_experts source re_data context }

unfoldable pub insert_offloaded : Env → Json → Source → Text → List ℕ → Context → World → Outcome
unfolding insert_marked build_marker
insert_offloaded env re_data source blob_key serialized context w =
    insert_marked env re_data source
      (put_routed_experts source (build_marker env.backend env.marker_config blob_key) context)
      (record w {
        refs =
            insert_ref context.request_id (present context.session_id) blob_key env.backend
              (length serialized) (env.now + env.ttl_hours * 3600) w.refs;
        tasks =
            w.tasks
            ++ record {
              blob_key = blob_key;
              data_bytes = serialized;
              request_id = context.request_id;
            }
              ∷ [];
      })

unfoldable pub insert_extracted : Env → Json → Source → Option Text → Context → World → Outcome
unfolding insert_oversize insert_offloaded
insert_extracted env re_data source run_id context w = elim (env.serialize re_data) [
  | none ↦ inner_insert env context w
  | some serialized ↦
      if ltb max_bytes (length serialized)
      then insert_oversize env context w
      else if env.ref_works
      then insert_offloaded env re_data source
          (make_blob_key env.blob_key_prefix run_id context.session_id context.request_id)
          serialized context w
      else inner_insert env context w
]

unfoldable pub insert : Env → Option Text → Context → World → Outcome
unfolding insert_extracted extract
insert env run_id context w = elim (extract context) [
  | none ↦ inner_insert env context w
  | some (re_data, source) ↦ insert_extracted env re_data source run_id context w
]
