-- ===== src/Offloading/Refs.antt =====
-- `R3RefRepository` (traj_proxy/store/r3_ref_repository.py): the rows of `r3_blob_refs` by their
-- primary key `request_id`, as the SQL statements change them. `now` is the database's NOW().
-- A failure of the database is the caller's: it raises `DatabaseError` and changes nothing.
use trajproxy.Base.{
  ℕ, ◌≡◌, ◌≤◌, refl, ◌∙◌, false, Option, none, some, List, [], ◌∷◌, ◌==◌, list_eq, nat_eq,
  if◌then◌else◌, arith, Option-cases, inl, inr, ◌⊎◌, Bool-cases,
}
use trajproxy.Base.Dict.{Dict, get, put}
use trajproxy.Base.Dict.Laws.{get-put}
use trajproxy.Texts.{Text}
use trajproxy.Texts.Laws.{text_iff}

pub data Status : Type 0 where
  uploading ready consumed : Status

pub data Backend : Type 0 where
  csb local : Backend

pub record Ref : Type 0 where
  pub session_id : Text
  pub blob_key : Text
  pub backend : Backend
  pub status : Status
  pub size_bytes : ℕ
  pub ready_at : Option ℕ
  pub consumed_at : Option ℕ
  pub expires_at : ℕ

abbrev pub RefTable : Type 0
RefTable = Dict Text Ref

-- `INSERT … ON CONFLICT (request_id) DO NOTHING`, with the default status
unfoldable pub insert_ref : Text → Text → Text → Backend → ℕ → ℕ → RefTable → RefTable
insert_ref request_id session_id blob_key backend size_bytes expires_at refs =
    elim (get request_id refs) [
      | some r ↦ refs
      | none ↦
          put request_id
            (record {
              session_id = session_id;
              blob_key = blob_key;
              backend = backend;
              status = uploading;
              size_bytes = size_bytes;
              ready_at = none;
              consumed_at = none;
              expires_at = expires_at;
            })
            refs
    ]

-- `WHERE session_id = … AND request_id = …`
unfoldable pub get_for_fetch : Text → Text → RefTable → Option Ref
get_for_fetch session_id request_id refs = elim (get request_id refs) [
  | none ↦ none
  | some r ↦ if r.session_id == session_id then some r else none
]

abbrev pub to_ready : ℕ → Ref → Ref
to_ready now r = elim r.status [
  | uploading ↦ record r { status = ready; ready_at = some now }
  | ready ↦ r
  | consumed ↦ r
]

abbrev to_consumed : ℕ → Ref → Ref
to_consumed now r = elim r.status [
  | uploading ↦ r
  | ready ↦ record r { status = consumed; consumed_at = some now }
  | consumed ↦ r
]

-- `UPDATE … WHERE request_id = …`
unfoldable pub update : (Ref → Ref) → Text → RefTable → RefTable
update f request_id refs = elim (get request_id refs) [
  | none ↦ refs
  | some r ↦ put request_id (f r) refs
]

-- `UPDATE … WHERE request_id = … AND status = 'uploading'`
unfoldable pub mark_ready : ℕ → Text → RefTable → RefTable
unfolding update
mark_ready now request_id refs = update (to_ready now) request_id refs

-- `UPDATE … WHERE request_id = … AND status = 'ready'`
unfoldable pub mark_consumed : ℕ → Text → RefTable → RefTable
unfolding update
mark_consumed now request_id refs = update (to_consumed now) request_id refs

-- What any task does to the table.
pub data Change : Type 0 where
  inserted : Text → Text → Text → Backend → ℕ → ℕ → Change
  marked_ready marked_consumed : ℕ → Text → Change

unfoldable pub change : Change → RefTable → RefTable
unfolding insert_ref mark_ready mark_consumed
change (inserted request_id session_id blob_key backend size expires) refs =
    insert_ref request_id session_id blob_key backend size expires refs
change (marked_ready now request_id) refs = mark_ready now request_id refs
change (marked_consumed now request_id) refs = mark_consumed now request_id refs

unfoldable pub changes : List Change → RefTable → RefTable
unfolding change
changes [] refs = refs
changes (c ∷ cs) refs = changes cs (change c refs)

abbrev pub rank : Status → ℕ
rank uploading = 0
rank ready = 1
rank consumed = 2

-- What a row keeps for ever, and its status never goes back.
pub record IsLater (r r' : Ref) : Type 0 where
  pub session : r'.session_id ≡ r.session_id
  pub key : r'.blob_key ≡ r.blob_key
  pub forward : rank r.status ≤ rank r'.status

Status-cases : (s : Status) → (s ≡ uploading) ⊎ (s ≡ ready) ⊎ (s ≡ consumed)
Status-cases uploading = inl refl
Status-cases ready = inr (inl refl)
Status-cases consumed = inr (inr refl)

update-IsLater :
    (f : Ref → Ref) (q k : Text) (refs : RefTable) (r : Ref)
    → ((x : Ref) → IsLater x (f x))
    → get k refs ≡ some r
    → (r' : Ref) × (get k (update f q refs) ≡ some r') × IsLater r r'
unfolding update
update-IsLater f q k refs r h e = elim (Bool-cases (q == k)) [
  | inl same ↦
      let at : get q refs ≡ some r = ground (arith, e, same, text_iff q k) in
      (f r, ground (arith, at, same, get-put q k (f r) refs), h r)
  | inr other ↦
      (r, go (get q refs) other refl, record { session = refl; key = refl; forward = omega arith })
]
  where
    go : (o : Option Ref) → (q == k) ≡ false → get q refs ≡ o → get k (update f q refs) ≡ some r
    go none other at = ground (arith, at, e)
    go (some x) other at = ground (arith, at, e, other, get-put q k (f x) refs)

ready-IsLater : (now : ℕ) (r : Ref) → IsLater r (to_ready now r)
ready-IsLater now r = elim (Status-cases r.status) [
  | inl u ↦ record {
    session = ground (arith, u);
    key = ground (arith, u);
    forward = ground (arith, u);
  }
  | inr (inl u) ↦ record {
    session = ground (arith, u);
    key = ground (arith, u);
    forward = ground (arith, u);
  }
  | inr (inr u) ↦ record {
    session = ground (arith, u);
    key = ground (arith, u);
    forward = ground (arith, u);
  }
]

consumed-IsLater : (now : ℕ) (r : Ref) → IsLater r (to_consumed now r)
consumed-IsLater now r = elim (Status-cases r.status) [
  | inl u ↦ record {
    session = ground (arith, u);
    key = ground (arith, u);
    forward = ground (arith, u);
  }
  | inr (inl u) ↦ record {
    session = ground (arith, u);
    key = ground (arith, u);
    forward = ground (arith, u);
  }
  | inr (inr u) ↦ record {
    session = ground (arith, u);
    key = ground (arith, u);
    forward = ground (arith, u);
  }
]

change-IsLater :
    (c : Change) (k : Text) (refs : RefTable) (r : Ref)
    → get k refs ≡ some r
    → (r' : Ref) × (get k (change c refs) ≡ some r') × IsLater r r'
unfolding change insert_ref mark_ready mark_consumed
change-IsLater (inserted q se b ba si ex) k refs r e = elim (Option-cases (get q refs)) [
  | inl free ↦ (
    r,
    ground (
      arith,
      e,
      free,
      get-put q k
          (record {
            session_id = se;
            blob_key = b;
            backend = ba;
            status = uploading;
            size_bytes = si;
            ready_at = none;
            consumed_at = none;
            expires_at = ex;
          })
          refs,
      text_iff q k,
    ),
    record { session = refl; key = refl; forward = omega arith },
  )
  | inr (old, there) ↦
      (r, ground (arith, e, there), record { session = refl; key = refl; forward = omega arith })
]
change-IsLater (marked_ready now q) k refs r e =
    update-IsLater (to_ready now) q k refs r (λ x. ready-IsLater now x) e
change-IsLater (marked_consumed now q) k refs r e =
    update-IsLater (to_consumed now) q k refs r (λ x. consumed-IsLater now x) e

-- Whatever is done to the table, a row stays, keeps its tenant and its blob, and its status goes
-- only forward, from uploading to ready and from ready to consumed.
pub changes_lem :
    (cs : List Change) (k : Text) (refs : RefTable) (r : Ref)
    → get k refs ≡ some r
    → (r' : Ref) × (get k (changes cs refs) ≡ some r') × IsLater r r'
unfolding changes
changes_lem [] k refs r e = (r, e, record { session = refl; key = refl; forward = omega arith })
changes_lem (c ∷ cs) k refs r e =
    let (r1, e1, l1) = change-IsLater c k refs r e in
    let (r2, e2, l2) = changes_lem cs k (change c refs) r1 e1 in
    (
      r2,
      e2,
      record {
        session = l2.session ∙ l1.session;
        key = l2.key ∙ l1.key;
        forward = omega (arith, l1.forward, l2.forward);
      },
    )
