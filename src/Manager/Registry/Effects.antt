-- ===== src/Manager/Registry/Effects.antt =====
-- What registration, a failed registration and removal leave, whatever other tasks do meanwhile.
use trajproxy.Base.{
  ◌≡◌, refl, ap, String, Bool, true, false, ◌&&◌, not, Option, none, some, inl, inr, arith,
  Option-cases, Bool-cases, ◌==◌, string_eq, pair_eq, if◌then◌else◌, is_some,
}
use trajproxy.Base.Dict.{get, put}
use trajproxy.Base.Dict.Laws.{get-pop, get-put}
use trajproxy.Models.{
  ModelKey, ModelConfig, key_of, key_iff, Result, ok, raise, value_error, key_error, database_error,
}
use trajproxy.Manager.{Manager, config_of, discard}
use trajproxy.Manager.Registry.{
  FileSystem, Registration, reg_key, resolved_path, is_registered, checked_config, register_static,
  register_begin, register_finish, after_rollback, rollback, register_dynamic, unregister_dynamic,
  unregister_local, unregister_stored,
}

checked_config-key :
    {T : Type 0} (fs : FileSystem) (r : Registration) (m : Manager T) (c : ModelConfig)
    → checked_config fs r m ≡ ok c
    → (key_of c ≡ reg_key r) × (is_registered (reg_key r) m ≡ false)
unfolding checked_config
checked_config-key fs r m c e = elim (Bool-cases (is_registered (reg_key r) m)) [
  | inl taken ↦ ground (arith, e, taken)
  | inr free ↦ go (resolved_path fs r.tokenizer_path r.token_in_token_out) free refl
]
  where
    go :
        (p : Result (Option String))
        → is_registered (reg_key r) m ≡ false
        → resolved_path fs r.tokenizer_path r.token_in_token_out ≡ p
        → (key_of c ≡ reg_key r) × (is_registered (reg_key r) m ≡ false)
    go (ok path) free f = ground (arith, e, free, f)
    go (raise x) free f = ground (arith, e, free, f)

abbrev with_config : {T : Type 0} → ModelKey → ModelConfig → Manager T → Manager T
with_config key c m = record m { dynamic_configs = put key c m.dynamic_configs }

-- What a registration that has begun knows.
register_begin-parts :
    {T : Type 0} (fs : FileSystem) (r : Registration) (m m' : Manager T) (c : ModelConfig)
    → register_begin fs r m ≡ ok (c, m')
    → (checked_config fs r m ≡ ok c) × (m' ≡ with_config (reg_key r) c m)
unfolding register_begin
register_begin-parts fs r m m' c e = go (checked_config fs r m) refl
  where
    go :
        (x : Result ModelConfig)
        → checked_config fs r m ≡ x
        → (checked_config fs r m ≡ ok c) × (m' ≡ with_config (reg_key r) c m)
    go (ok d) f = ground (arith, e, f)
    go (raise z) f = ground (arith, e, f)

checked_config-taken :
    {T : Type 0} (fs : FileSystem) (r : Registration) (m : Manager T)
    → is_registered (reg_key r) m ≡ true
    → checked_config fs r m ≡ raise value_error
unfolding checked_config
checked_config-taken fs r m e = rw e refl

register_dynamic-finish :
    {T : Type 0} (fs : FileSystem) (r : Registration) (during : Manager T → Manager T)
    (m m' : Manager T) (c : ModelConfig)
    → register_begin fs r m ≡ ok (c, m')
    → register_dynamic fs r true during false m
      ≡ after_rollback (rollback (reg_key r) (during m')) (during m')
unfolding register_dynamic register_finish
register_dynamic-finish fs r during m m' c e =
    let (f, g) = register_begin-parts fs r m m' c e in
    let (own, free) = checked_config-key fs r m c f in
    rw (e, register_dynamic) (ap (λ k. after_rollback (rollback k (during m')) (during m')) own)

module _ {T : Type 0} where
  -- After a dynamic registration has begun, its configuration is the one of its key, all other
  -- keys keep theirs, and until it is removed every further registration of the key, static or
  -- dynamic, raises `ValueError`.
  pub register_begin_lem :
      (fs fs' : FileSystem) (r r' : Registration) (m m' : Manager T) (c : ModelConfig)
      → register_begin fs r m ≡ ok (c, m')
      → reg_key r' ≡ reg_key r
      → ((k : ModelKey) → config_of k m' ≡ (if reg_key r == k then some c else config_of k m))
        × (register_static fs' r' m' ≡ raise value_error)
        × (register_begin fs' r' m' ≡ raise value_error)
  unfolding register_begin register_static is_registered config_of
  register_begin_lem fs fs' r r' m m' c e same =
      let (f, g) = register_begin-parts fs r m m' c e in
      let (own, free) = checked_config-key fs r m c f in
      let taken : is_registered (reg_key r') m' ≡ true = ground (
        arith,
        g,
        same,
        get-put (reg_key r) (reg_key r) c m.dynamic_configs,
        key_iff (reg_key r) (reg_key r),
      ) in
      let refused = checked_config-taken fs' r' m' taken in
      (
        (λ k.
            ground
              (arith, g, free, get-put (reg_key r) k c m.dynamic_configs, key_iff (reg_key r) k)),
        rw refused refl,
        rw refused refl,
      )

  -- When the database fails, the key is left with no dynamic configuration, whatever other tasks
  -- did while the database was awaited. The caller gets `DatabaseError` if the configuration was
  -- still there, and then no processor of the key is cached; if another task had removed it,
  -- the caller gets `KeyError`.
  pub register_dynamic-failed :
      (fs : FileSystem) (r : Registration) (during : Manager T → Manager T) (m m' : Manager T)
      (c : ModelConfig)
      → register_begin fs r m ≡ ok (c, m')
      → (get (reg_key r) (register_dynamic fs r true during false m).1.dynamic_configs ≡ none)
        × (if is_some (get (reg_key r) (during m').dynamic_configs)
            then ((register_dynamic fs r true during false m).0 ≡ raise database_error)
              × (get (reg_key r) (register_dynamic fs r true during false m).1.processor_cache
                  ≡ none)
            else ((register_dynamic fs r true during false m).0 ≡ raise key_error)
              × ((register_dynamic fs r true during false m).1 ≡ during m'))
  unfolding rollback discard after_rollback
  register_dynamic-failed fs r during m m' c e =
      elim (Option-cases (get (reg_key r) (during m').dynamic_configs)) [
        | inl gone ↦ rw (register_dynamic-finish fs r during m m' c e) (ground (arith, gone))
        | inr (d, there) ↦ rw (register_dynamic-finish fs r during m m' c e) ground (
          arith,
          there,
          get-pop (reg_key r) (reg_key r) (during m').dynamic_configs,
          get-pop (reg_key r) (reg_key r) (during m').processor_cache,
          key_iff (reg_key r) (reg_key r),
        )
      ]

  -- A removal answers `true`, or a database error, exactly if the key has a dynamic configuration,
  -- and otherwise `false`. By the time the database is awaited the key has neither dynamic
  -- configuration nor cached processor, and all other keys keep both; a key without a dynamic
  -- configuration loses nothing. What the removal leaves is this, with what other tasks have done to
  -- it while the database was awaited, whether the database has failed or not.
  pub unregister_dynamic_lem :
      (name run : String) (persist : Bool) (during : Manager T → Manager T) (deleted : Option Bool)
      (m : Manager T) (k : ModelKey)
      → let removed = (unregister_local (run, name) m).1 in
        (get k removed.dynamic_configs
          ≡ (if (run, name) == k then none else get k m.dynamic_configs))
        × (get k removed.processor_cache ≡ (
            if is_some (get (run, name) m.dynamic_configs) && (run, name) == k
            then none
            else get k m.processor_cache))
        × ((unregister_dynamic name run persist during deleted m).1 ≡ (
            if is_some (get (run, name) m.dynamic_configs) && persist
            then during removed
            else removed))
        × ((unregister_dynamic name run persist during deleted m).0 ≡ (
            if is_some (get (run, name) m.dynamic_configs)
            then (if persist && not (is_some deleted) then raise database_error else ok true)
            else ok false))
  unfolding unregister_dynamic unregister_local unregister_stored discard
  unregister_dynamic_lem name run persist during deleted m k = (
    ground (arith, get-pop (run, name) k m.dynamic_configs, key_iff (run, name) k),
    ground (arith, get-pop (run, name) k m.processor_cache),
    ground arith,
    ground arith,
  )
