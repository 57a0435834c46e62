-- ===== src/Manager/Soundness/Syncs.antt =====
-- `full_sync` and the registry's operations, which may run while another task loads.
use trajproxy.Base.{
  ◌≡◌, refl, List, [], ◌∷◌, map, inl, inr, arith, Option-cases, Bool-cases, string_eq, pair_eq,
}
use trajproxy.Base.Dict.{get, put}
use trajproxy.Base.Dict.Laws.{get-put}
use trajproxy.Models.{ModelKey, ModelConfig, key_of, Result, ok, raise}
use trajproxy.Manager.{Manager}
use trajproxy.Manager.Registry.{
  FileSystem, Registration, reg_key, checked_config, register_static, register_begin, rollback,
  unregister_local, unregister_by_key,
}
use trajproxy.Manager.Sync.{
  sync_one, sync_each, remove_one, remove_each, full_sync, same_settings, stale_keys,
}
use trajproxy.Manager.Soundness.Harmless.{
  IsHarmless, IsHarmless-refl, IsHarmless-trans, put_dynamic-IsHarmless, put_static-IsHarmless,
  discard-IsHarmless, unregister_by_key-IsHarmless,
}

module _ {T : Type 0} where
  sync_one-IsHarmless : (c : ModelConfig) (m : Manager T) → IsHarmless m (sync_one c m)
  unfolding sync_one
  sync_one-IsHarmless c m = elim (Option-cases (get (key_of c) m.dynamic_configs)) [
    | inl e ↦ rw (e, sync_one) (put_dynamic-IsHarmless (key_of c) c m)
    | inr (old, e) ↦ elim (Bool-cases (same_settings old c)) [
      | inl f ↦ rw (e, sync_one) (rw f (IsHarmless-refl m))
      | inr f ↦
          rw (e, sync_one)
            (rw f (
              discard-IsHarmless (key_of c) m (put (key_of c) c m.dynamic_configs)
                (λ k h. ground (arith, h, get-put (key_of c) k c m.dynamic_configs))))
    ]
  ]

  sync_each-IsHarmless : (cs : List ModelConfig) (m : Manager T) → IsHarmless m (sync_each cs m)
  unfolding sync_each
  sync_each-IsHarmless [] m = IsHarmless-refl m
  sync_each-IsHarmless (c ∷ cs) m =
      IsHarmless-trans (sync_one-IsHarmless c m) (sync_each-IsHarmless cs (sync_one c m))

  remove_each-IsHarmless : (ks : List ModelKey) (m : Manager T) → IsHarmless m (remove_each ks m)
  unfolding remove_each remove_one unregister_by_key
  remove_each-IsHarmless [] m = IsHarmless-refl m
  remove_each-IsHarmless (k ∷ ks) m =
      IsHarmless-trans (unregister_by_key-IsHarmless k m)
        (remove_each-IsHarmless ks (remove_one k m))

  pub full_sync-IsHarmless : (db : List ModelConfig) (m : Manager T) → IsHarmless m (full_sync db m)
  unfolding full_sync
  full_sync-IsHarmless db m =
      IsHarmless-trans (sync_each-IsHarmless db m)
        (remove_each-IsHarmless (stale_keys (map key_of db) m.dynamic_configs) (sync_each db m))

  -- What a registration leaves: the old state if it raises.
  abbrev pub after : {A : Type 0} → (A → Manager T) → Manager T → Result A → Manager T
  after f m (ok a) = f a
  after f m (raise e) = m

  pub register_static-IsHarmless :
      (fs : FileSystem) (r : Registration) (m : Manager T)
      → IsHarmless m (after (λ m'. m') m (register_static fs r m))
  unfolding register_static
  register_static-IsHarmless fs r m = go (checked_config fs r m) refl
    where
      go :
          (c : Result ModelConfig)
          → checked_config fs r m ≡ c
          → IsHarmless m (after (λ m'. m') m (register_static fs r m))
      go (ok c) e = rw (e, register_static) (put_static-IsHarmless (reg_key r) c m)
      go (raise x) e = rw (e, register_static) (IsHarmless-refl m)

  pub register_begin-IsHarmless :
      (fs : FileSystem) (r : Registration) (m : Manager T)
      → IsHarmless m (after (λ p. p.1) m (register_begin fs r m))
  unfolding register_begin
  register_begin-IsHarmless fs r m = go (checked_config fs r m) refl
    where
      go :
          (c : Result ModelConfig)
          → checked_config fs r m ≡ c
          → IsHarmless m (after (λ p. p.1) m (register_begin fs r m))
      go (ok c) e = rw (e, register_begin) (put_dynamic-IsHarmless (reg_key r) c m)
      go (raise x) e = rw (e, register_begin) (IsHarmless-refl m)

  pub rollback-IsHarmless :
      (key : ModelKey) (m : Manager T) → IsHarmless m (after (λ m'. m') m (rollback key m))
  unfolding rollback unregister_by_key
  rollback-IsHarmless key m = elim (Option-cases (get key m.dynamic_configs)) [
    | inl e ↦ rw (e, rollback) (IsHarmless-refl m)
    | inr (c, e) ↦ rw (e, rollback) (unregister_by_key-IsHarmless key m)
  ]

  pub unregister_local-IsHarmless :
      (key : ModelKey) (m : Manager T) → IsHarmless m (unregister_local key m).1
  unfolding unregister_local unregister_by_key
  unregister_local-IsHarmless key m = elim (Option-cases (get key m.dynamic_configs)) [
    | inl e ↦ rw (e, unregister_local) (IsHarmless-refl m)
    | inr (c, e) ↦ rw (e, unregister_local) (unregister_by_key-IsHarmless key m)
  ]
