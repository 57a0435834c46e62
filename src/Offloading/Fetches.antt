-- ===== src/Offloading/Fetches.antt =====
-- `get_route_experts` of `TrajectoryProvider` (traj_proxy/proxy_core/provider.py), the background
-- task `_upload_and_mark_ready`, and how they agree. The blob storage is an argument.
use trajproxy.Base.{
  ℕ, ◌≡◌, ◌≢◌, refl, sym, ap, ◌∙◌, Bool, true, false, Option, none, some, List, [], ◌∷◌,
  if◌then◌else◌, ◌&&◌, is_some, ◌==◌, list_eq, nat_eq, arith, Bool-cases, inl, inr,
}
use trajproxy.Base.Dict.{get}
use trajproxy.Base.Dict.Laws.{get-put}
use trajproxy.Models.{Result, ok, raise}
use trajproxy.Texts.{Text}
use trajproxy.Texts.Laws.{text_iff}
use trajproxy.Offloading.Refs.{
  Ref, RefTable, uploading, ready, consumed, to_ready, get_for_fetch, mark_ready,
}
use trajproxy.Offloading.{Upload}

-- `H` is the handle of an open stream.
pub data Answer (H : Type 0) : Type 0 where
  not_found : Answer H
  uploading_for : ℕ → Answer H
  ready_with : Text → H → Answer H
  gone : Answer H

module _ {H : Type 0} where
  unfoldable pub open_ready : (Text → Result H) → Text → Result (Answer H)
  open_ready open_stream [] = ok not_found
  open_ready open_stream (c ∷ key) = elim (open_stream (c ∷ key)) [
    | ok handle ↦ ok (ready_with (c ∷ key) handle)
    | raise e ↦ raise e
  ]

  -- The `match` on the status, which has these three values only.
  unfoldable pub answer : (Text → Result H) → Ref → Result (Answer H)
  unfolding open_ready
  answer open_stream r = elim r.status [
    | uploading ↦ ok (uploading_for 30)
    | ready ↦ open_ready open_stream r.blob_key
    | consumed ↦ ok gone
  ]

  -- `none` for a repository or a storage that was not injected.
  unfoldable pub get_route_experts :
      Option RefTable → Option (Text → Result H) → Text → Text → Result (Answer H)
  unfolding get_for_fetch answer
  get_route_experts none storage session_id request_id = ok not_found
  get_route_experts (some refs) none session_id request_id = ok not_found
  get_route_experts (some refs) (some open_stream) session_id request_id =
      elim (get_for_fetch session_id request_id refs) [
        | none ↦ ok not_found
        | some r ↦ answer open_stream r
      ]

  -- Without the tenant's own session the answer is the one for a missing row, whatever the table
  -- holds under the request.
  pub get_route_experts-tenant :
      (refs : RefTable) (storage : Option (Text → Result H)) (session request : Text) (r : Ref)
      → get request refs ≡ some r
      → r.session_id ≢ session
      → get_route_experts (some refs) storage session request ≡ ok not_found
  unfolding get_route_experts
  get_route_experts-tenant refs none session request r e other = refl
  get_route_experts-tenant refs (some open_stream) session request r e other =
      elim (Bool-cases (r.session_id == session)) [
        | inl same ↦ elim (other ((text_iff r.session_id session).0 same)) [ ]
        | inr differs ↦ ground (arith, e, differs)
      ]

-- The storage, with states `S`: `put` may fail, and `open_stream` gives the handle of a stream.
pub record BlobStorage (S H : Type 0) : Type 0 where
  pub put : Text → List ℕ → S → Option S
  pub open_stream : S → Text → Result H

-- The task: `put` the blob and mark the row; an exception of either is logged and swallowed.
unfoldable pub upload_and_mark_ready :
    {S H : Type 0} → BlobStorage S H → Bool → ℕ → Upload → S → RefTable → S × RefTable
upload_and_mark_ready storage marked now u blobs refs =
    elim (storage.put u.blob_key u.data_bytes blobs) [
      | none ↦ (blobs, refs)
      | some blobs' ↦ (blobs', if marked then mark_ready now u.request_id refs else refs)
    ]

open_ready-ok :
    {H : Type 0} (open_stream : Text → Result H) (x : ℕ) (key : Text) (handle : H)
    → open_stream (x ∷ key) ≡ ok handle
    → open_ready open_stream (x ∷ key) ≡ ok (ready_with (x ∷ key) handle)
unfolding open_ready
open_ready-ok open_stream x key handle e = rw (e, open_ready) refl

found-answer :
    {H : Type 0} (refs : RefTable) (r : Ref) (request : Text) (open_stream : Text → Result H)
    → get request refs ≡ some r
    → get_route_experts (some refs) (some open_stream) r.session_id request ≡ answer open_stream r
unfolding get_route_experts
found-answer refs r request open_stream e = ground (arith, e, text_iff r.session_id r.session_id)

answer-uploading :
    {H : Type 0} (r : Ref) (open_stream : Text → Result H)
    → r.status ≡ uploading
    → answer open_stream r ≡ ok (uploading_for 30)
unfolding answer
answer-uploading r open_stream s = rw (s, answer) refl

answer-ready :
    {H : Type 0} (r : Ref) (now : ℕ) (open_stream : Text → Result H)
    → r.status ≡ uploading
    → (answer open_stream (to_ready now r) ≡ open_ready open_stream r.blob_key)
      × ((to_ready now r).session_id ≡ r.session_id)
unfolding answer
answer-ready r now open_stream s = (ground (arith, s), ground (arith, s))

mark_ready-get :
    (now : ℕ) (request : Text) (refs : RefTable) (r : Ref)
    → get request refs ≡ some r
    → get request (mark_ready now request refs) ≡ some (to_ready now r)
unfolding mark_ready
mark_ready-get now request refs r e =
    ground (arith, e, get-put request request (to_ready now r) refs, text_iff request request)

-- What has been put is read by the next `open_stream`: `reader` is the stream of some bytes.
abbrev pub ReadsBack : {S H : Type 0} → BlobStorage S H → (List ℕ → H) → Type 0
ReadsBack storage reader =
    (key : Text) (bytes : List ℕ) (blobs blobs' : _)
    → storage.put key bytes blobs ≡ some blobs'
    → storage.open_stream blobs' key ≡ ok (reader bytes)

-- Whether the upload succeeds.
abbrev pub is_put : {S H : Type 0} → BlobStorage S H → Upload → S → Bool
is_put storage u blobs = is_some (storage.put u.blob_key u.data_bytes blobs)

-- For a row in `uploading` with the key of the upload: after the task the tenant gets the uploaded
-- bytes under this key if both steps of the task have succeeded, and else is told to come back. The
-- storage reads back what was put, and the key is not empty.
pub upload-get_route_experts :
    {S H : Type 0} (storage : BlobStorage S H) (reader : List ℕ → H) (marked : Bool) (now : ℕ)
    (u : Upload) (blobs : S) (refs : RefTable) (r : Ref) (x : ℕ) (key : Text)
    → ReadsBack storage reader
    → get u.request_id refs ≡ some r
    → r.status ≡ uploading
    → r.blob_key ≡ u.blob_key
    → u.blob_key ≡ x ∷ key
    → let after = upload_and_mark_ready storage marked now u blobs refs in
      get_route_experts
        (some after.1)
        (some (storage.open_stream after.0))
        r.session_id
        u.request_id
      ≡ (if is_put storage u blobs && marked
          then ok (ready_with u.blob_key (reader u.data_bytes))
          else ok (uploading_for 30))
unfolding upload_and_mark_ready
upload-get_route_experts {S} storage reader marked now u blobs refs r x key laws e s k nonempty =
    go (storage.put u.blob_key u.data_bytes blobs) refl marked
  where
    uploading_still :
        (blobs' : S)
        → get_route_experts
            (some refs)
            (some (storage.open_stream blobs'))
            r.session_id
            u.request_id
          ≡ ok (uploading_for 30)
    uploading_still blobs' =
        found-answer refs r u.request_id (storage.open_stream blobs') e
        ∙ answer-uploading r (storage.open_stream blobs') s

    opened :
        (blobs' : S)
        → storage.put u.blob_key u.data_bytes blobs ≡ some blobs'
        → open_ready (storage.open_stream blobs') r.blob_key
          ≡ ok (ready_with u.blob_key (reader u.data_bytes))
    opened blobs' f =
        let read = laws u.blob_key u.data_bytes blobs blobs' f in
        let path = k ∙ nonempty in
        let said =
          open_ready-ok (storage.open_stream blobs') x key (reader u.data_bytes)
            (ap (storage.open_stream blobs') (sym nonempty) ∙ read) in
        ap (open_ready (storage.open_stream blobs')) path
        ∙ said
        ∙ ap (λ t. ok (ready_with t (reader u.data_bytes))) (sym nonempty)

    Answers : Bool → Type 0
    Answers b =
        let after = upload_and_mark_ready storage b now u blobs refs in
        get_route_experts (some after.1) (some (storage.open_stream after.0)) r.session_id
          u.request_id
        ≡ (if is_put storage u blobs && b
            then ok (ready_with u.blob_key (reader u.data_bytes))
            else ok (uploading_for 30))

    go : (p : Option S) → storage.put u.blob_key u.data_bytes blobs ≡ p → (b : Bool) → Answers b
    go none f b = rw (f, upload_and_mark_ready) (uploading_still blobs)
    go (some blobs') f false = rw (f, upload_and_mark_ready) (uploading_still blobs')
    go (some blobs') f true =
        let (ready_lem, same) = answer-ready r now (storage.open_stream blobs') s in
        rw (f, upload_and_mark_ready)
          (ap
              (λ session.
                get_route_experts (some (mark_ready now u.request_id refs))
                  (some (storage.open_stream blobs')) session u.request_id)
              (sym same)
            ∙ found-answer (mark_ready now u.request_id refs) (to_ready now r) u.request_id
                (storage.open_stream blobs') (mark_ready-get now u.request_id refs r e)
            ∙ ready_lem
            ∙ opened blobs' f)
