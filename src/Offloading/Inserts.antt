-- ===== src/Offloading/Inserts.antt =====
-- What an `insert` of the decorator leaves, on every failure.
use trajproxy.Base.{
  ℕ, suc, ◌+◌, ◌*◌, ◌≡◌, refl, Bool, true, false, Option, none, some, List, [], ◌∷◌, ◌++◌,
  if◌then◌else◌, arith, Bool-cases, Option-cases, inl, inr, ◌⊎◌, ltb, length, string_eq, is_some,
  list_eq, nat_eq,
}
use trajproxy.Base.Dict.{get}
use trajproxy.Base.Dict.Laws.{get-put}
use trajproxy.Texts.{Text}
use trajproxy.Texts.Laws.{text_iff}
use trajproxy.Json.{Json}
use trajproxy.Offloading.Keys.{make_blob_key, present}
use trajproxy.Offloading.Refs.{RefTable, Backend, uploading, insert_ref}
use trajproxy.Offloading.{
  Context, Source, Env, World, extract, put_routed_experts, build_marker, Outcome, inner_insert,
  insert_oversize, insert_marked, insert_offloaded, insert_extracted, insert, max_bytes,
}
use trajproxy.Offloading.Extracts.{put-restores}

-- The outcome, where `x` is the caller's context and `w` the state before: a failure leaves the
-- caller the original data, a success stores what the caller is left with, and a marker stands
-- only where the reference and the upload of the original data have been set going.
pub record IsSafe (env : Env) (x : Context) (w : World) (o : Outcome) : Type 0 where
  pub raised : o.returned ≡ false → o.context ≡ x
  pub stored : o.returned ≡ true → o.world.stored ≡ w.stored ++ o.context ∷ []
  pub unstored : o.returned ≡ false → o.world.stored ≡ w.stored
  pub offloaded :
      ((o.context ≡ x) × (o.world.refs ≡ w.refs) × (o.world.tasks ≡ w.tasks))
      ⊎ ((v : Json) × (s : Source) × (key : Text) × (data_bytes : List ℕ) × (extract x
            ≡ some (v, s))
          × (env.serialize v ≡ some data_bytes)
          × (is_some (get x.request_id o.world.refs) ≡ true)
          × (o.world.tasks
              ≡ w.tasks
                ++ record { blob_key = key; data_bytes = data_bytes; request_id = x.request_id }
                  ∷ [])
          × (o.returned ≡ true
              → o.context
                ≡ put_routed_experts s (build_marker env.backend env.marker_config key) x))

inner-IsSafe : (env : Env) (x : Context) (w : World) → IsSafe env x w (inner_insert env x w)
unfolding inner_insert
inner-IsSafe env x w = elim (Bool-cases (env.inner_works w.inner_calls)) [
  | inl e ↦
      rw (e, inner_insert)
        (record {
          raised = λ h. refl;
          stored = λ h. refl;
          unstored = λ h. ground (arith, h);
          offloaded = inl (refl, refl, refl);
        })
  | inr e ↦
      rw (e, inner_insert)
        (record {
          raised = λ h. refl;
          stored = λ h. ground (arith, h);
          unstored = λ h. refl;
          offloaded = inl (refl, refl, refl);
        })
]

oversize-IsSafe : (env : Env) (x : Context) (w : World) → IsSafe env x w (insert_oversize env x w)
unfolding insert_oversize inner_insert
oversize-IsSafe env x w = elim (Bool-cases (env.inner_works w.inner_calls)) [
  | inl e ↦ record {
    raised = λ h. ground (arith, e);
    stored = λ h. ground (arith, e);
    unstored = λ h. ground (arith, e, h);
    offloaded = inl (ground (arith, e), ground (arith, e), ground (arith, e));
  }
  | inr e ↦ elim (Bool-cases (env.inner_works (suc w.inner_calls))) [
    | inl e' ↦ record {
      raised = λ h. ground (arith, e, e');
      stored = λ h. ground (arith, e, e');
      unstored = λ h. ground (arith, e, e', h);
      offloaded = inl (ground (arith, e, e'), ground (arith, e, e'), ground (arith, e, e'));
    }
    | inr e' ↦ record {
      raised = λ h. ground (arith, e, e');
      stored = λ h. ground (arith, e, e', h);
      unstored = λ h. ground (arith, e, e');
      offloaded = inl (ground (arith, e, e'), ground (arith, e, e'), ground (arith, e, e'));
    }
  ]
]

insert_ref-some :
    (q se key : Text) (b : Backend) (n t : ℕ) (refs : RefTable)
    → is_some (get q (insert_ref q se key b n t refs)) ≡ true
unfolding insert_ref
insert_ref-some q se key b n t refs = ground (
  arith,
  get-put q q
      (record {
        session_id = se;
        blob_key = key;
        backend = b;
        status = uploading;
        size_bytes = n;
        ready_at = none;
        consumed_at = none;
        expires_at = t;
      })
      refs,
  text_iff q q,
)

offloaded-IsSafe :
    (env : Env) (v : Json) (s : Source) (key : Text) (bytes : List ℕ) (x : Context) (w : World)
    → extract x ≡ some (v, s)
    → env.serialize v ≡ some bytes
    → IsSafe env x w (insert_offloaded env v s key bytes x w)
unfolding insert_offloaded insert_marked inner_insert
offloaded-IsSafe env v s key bytes x w at dumped =
    let counted =
      insert_ref-some x.request_id (present x.session_id) key env.backend (length bytes)
        (env.now + env.ttl_hours * 3600) w.refs in
    elim (Bool-cases (env.inner_works w.inner_calls)) [
      | inl e ↦ record {
        raised = λ h. ground (arith, e, h);
        stored = λ h. ground (arith, e);
        unstored = λ h. ground (arith, e, h);
        offloaded = inr (
          v,
          s,
          key,
          bytes,
          at,
          dumped,
          ground (arith, e, counted),
          ground (arith, e),
          λ h. ground (arith, e),
        );
      }
      | inr e ↦ record {
        raised = λ h.
            ground
              (arith, e, put-restores x v (build_marker env.backend env.marker_config key) s at);
        stored = λ h. ground (arith, e, h);
        unstored = λ h. ground (arith, e);
        offloaded = inr (
          v,
          s,
          key,
          bytes,
          at,
          dumped,
          ground (arith, e, counted),
          ground (arith, e),
          λ h. ground (arith, e, h),
        );
      }
    ]

referenced-IsSafe :
    (env : Env) (v : Json) (s : Source) (key : Text) (bytes : List ℕ) (x : Context) (w : World)
    → extract x ≡ some (v, s)
    → env.serialize v ≡ some bytes
    → (works : Bool)
    → IsSafe env x w
        (if works then insert_offloaded env v s key bytes x w else inner_insert env x w)
referenced-IsSafe env v s key bytes x w at dumped true =
    offloaded-IsSafe env v s key bytes x w at dumped
referenced-IsSafe env v s key bytes x w at dumped false = inner-IsSafe env x w

-- Whatever fails, an insert that raises leaves the caller the original data; one that returns has
-- stored what the caller is left with; and a marker is left only after the reference is in the
-- table and the upload of the serialized original has been started.
pub insert_lem :
    (env : Env) (run_id : Option Text) (x : Context) (w : World)
    → IsSafe env x w (insert env run_id x w)
unfolding insert insert_extracted
insert_lem env run_id x w = elim (Option-cases (extract x)) [
  | inl absent ↦ rw (absent, insert) (inner-IsSafe env x w)
  | inr ((v, s), at) ↦
      rw (at, insert)
        (elim (Option-cases (env.serialize v)) [
          | inl failed ↦ rw (failed, insert_extracted) (inner-IsSafe env x w)
          | inr (bytes, dumped) ↦
              rw (dumped, insert_extracted)
                (elim (Bool-cases (ltb max_bytes (length bytes))) [
                  | inl large ↦ rw large (oversize-IsSafe env x w)
                  | inr small ↦ rw small (
                      referenced-IsSafe env v s
                        (make_blob_key env.blob_key_prefix run_id x.session_id x.request_id) bytes x
                        w at dumped env.ref_works)
                ])
        ])
]
