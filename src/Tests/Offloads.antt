-- ===== src/Tests/Offloads.antt =====
-- The theorems on `OffloadingRepository` and its references at concrete inputs.
use trajproxy.Base.{
  ℕ, ◌≡◌, refl, sym, true, false, Option, none, some, List, [], ◌∷◌, arith, nat_eq, list_eq,
}
use trajproxy.Base.Dict.{Dict, get, put}
use trajproxy.Base.Dict.Laws.{get-put}
use trajproxy.Models.{Result, ok, raise, key_error}
use trajproxy.Texts.{Text}
use trajproxy.Texts.Laws.{text_iff}
use trajproxy.Json.{number, array, object, item, no_items, field, no_fields}
use trajproxy.Offloading.Refs.{
  Ref, RefTable, csb, uploading, IsLater, marked_ready, marked_consumed, changes, changes_lem,
}
use trajproxy.Offloading.{Context, Env, World, Upload, insert}
use trajproxy.Offloading.Inserts.{IsSafe, insert_lem}
use trajproxy.Offloading.Fetches.{
  BlobStorage, ReadsBack, ready_with, not_found, get_route_experts, get_route_experts-tenant,
  upload_and_mark_ready, upload-get_route_experts,
}

-- Here `inner.insert` fails.
abbrev env : Env
env = record {
  serialize = λ v. some (1 ∷ []);
  now = 1000;
  ttl_hours = 72;
  ref_works = true;
  inner_works = λ n. false;
  backend = csb;
  marker_config = no_fields;
  blob_key_prefix = 112 ∷ [];
}

abbrev context : Context
context = record {
  token_response = some (
      field "choices" (array (item (object (field "routed_experts" (number 5) no_fields)) no_items))
        no_fields);
  raw_response = none;
  session_id = some (115 ∷ []);
  request_id = 113 ∷ [];
}

abbrev world : World
world = record { refs = []; tasks = []; stored = []; inner_calls = 0 }

insert_lem_example : IsSafe env context world (insert env none context world)
insert_lem_example = insert_lem env none context world

abbrev row : Ref
row = record {
  session_id = 115 ∷ [];
  blob_key = 107 ∷ [];
  backend = csb;
  status = uploading;
  size_bytes = 1;
  ready_at = none;
  consumed_at = none;
  expires_at = 2000;
}

abbrev refs : RefTable
refs = (113 ∷ [], row) ∷ []

changes_lem_example :
    (r : Ref) × (get
        (113 ∷ [])
        (changes (marked_ready 1001 (113 ∷ []) ∷ marked_consumed 1002 (113 ∷ []) ∷ []) refs)
      ≡ some r)
    × IsLater row r
unfolding get
changes_lem_example =
    changes_lem (marked_ready 1001 (113 ∷ []) ∷ marked_consumed 1002 (113 ∷ []) ∷ []) (113 ∷ [])
      refs row refl

abbrev open_stream : Text → Result ℕ
open_stream key = ok 1

get_route_experts-tenant_example :
    get_route_experts (some refs) (some open_stream) (116 ∷ []) (113 ∷ []) ≡ ok not_found
unfolding get
get_route_experts-tenant_example =
    get_route_experts-tenant refs (some open_stream) (116 ∷ []) (113 ∷ []) row refl
      (λ e. ground (arith, e))

abbrev upload : Upload
upload = record { blob_key = 107 ∷ []; data_bytes = 1 ∷ []; request_id = 113 ∷ [] }

-- A storage that keeps its blobs in a dict, whose streams are the bytes.
abbrev blob_of : Option (List ℕ) → Result (List ℕ)
blob_of none = raise key_error
blob_of (some bytes) = ok bytes

abbrev dict_storage : BlobStorage (Dict Text (List ℕ)) (List ℕ)
dict_storage = record {
  put = λ key bytes blobs. some (put key bytes blobs);
  open_stream = λ blobs key. blob_of (get key blobs);
}

dict_storage-ReadsBack : ReadsBack dict_storage (λ bytes. bytes)
dict_storage-ReadsBack key bytes blobs blobs' e =
    ground (arith, sym e, get-put key key bytes blobs, text_iff key key)

upload-get_route_experts_example :
    let after = upload_and_mark_ready dict_storage true 1001 upload [] refs in
    get_route_experts (some after.1) (some (dict_storage.open_stream after.0)) (115 ∷ []) (113 ∷ [])
    ≡ ok (ready_with (107 ∷ []) (1 ∷ []))
unfolding get
upload-get_route_experts_example =
    upload-get_route_experts dict_storage (λ bytes. bytes) true 1001 upload [] refs row 107 []
      dict_storage-ReadsBack refl refl refl refl
