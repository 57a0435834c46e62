-- ===== src/Manager/Soundness.antt =====
-- The invariant that ties the cache of processors, the access times and the tokenizer counts, and
-- its preservation by the operations that take processors out of the cache.
pub mod Evictions
pub mod Loads
pub mod Entering
pub mod Harmless
pub mod Syncs
use Prim.Native.Nat.{zero, ◌+◌}
use trajproxy.Base.{
  ℕ, suc, ◌+◌, ◌-◌, ◌≤◌, ◌<◌, ◌≡◌, refl, sym, ◌∙◌, ap, String, Bool, true, false, Option, none,
  some, List, [], ◌∷◌, ◌++◌, ◌==◌, string_eq, nat_eq, pair_eq, ==_refl, if◌then◌else◌, length,
  is_some, arith, inl, inr, Option-cases, leb, leb→lt,
}
use trajproxy.Base.Dict.{Dict, get, pop, put, move_to_end, Distinct, total, weight}
use trajproxy.Base.Dict.Laws.{
  get-pop, get-put, get-pop_self, get-move, pop-Distinct, put-Distinct, move-Distinct, pop_absent,
  total-pop, total-put, total-move, get-le-total, length-total,
}
use trajproxy.Models.{ModelKey, ModelConfig, truthy}
use trajproxy.Tokenizers.{TokenizerCache, release}
use trajproxy.Tokenizers.Counts.{
  count, IsCounted, count-release, cache-release, cache-release_absent, IsCounted-release,
}
use trajproxy.Manager.{
  Manager, Processor, held_path, release_processor, discard, touch, evict_one, make_room,
  discard_all, evict_idle, release_all, clear_cache, idle_keys,
}

-- The paths in a list that equal `q`.
unfoldable pub occurrences : String → List String → ℕ
occurrences q [] = 0
occurrences q (p ∷ ps) = (if p == q then 1 else 0) + occurrences q ps

module _ {T : Type 0} where
  -- The path to whose tokenizer a processor holds a reference.
  abbrev pub held : Processor T → Option String
  held x = held_path x.tokenizer_path x.token_in_token_out

  -- 1 if the processor holds a reference to the tokenizer of `q`.
  abbrev pub uses : String → Processor T → ℕ
  uses q x = weight (λ p. if p == q then 1 else 0) (held x)

  -- `lost` are the references that failed constructors have left behind.
  pub record IsSound (lost : List String) (cache : Dict ModelKey (Processor T))
      (times : Dict ModelKey ℕ) (limit : ℕ) (tokens : TokenizerCache T) : Type 0 where
    pub distinct : Distinct cache
    pub bounded : length cache ≤ limit
    pub timed : (k : ModelKey) → is_some (get k times) ≡ is_some (get k cache)
    pub counted : IsCounted tokens
    pub exact : (q : String) → count q tokens ≡ total (uses q) cache + occurrences q lost
    pub shared :
        (k : ModelKey) (x : Processor T) (q : String)
        → get k cache ≡ some x
        → held x ≡ some q
        → get q tokens.cache ≡ x.tokenizer

  abbrev pub Sound : List String → Manager T → Type 0
  Sound lost m =
      IsSound lost m.processor_cache m.last_access_time m.cache_max_size m.tokenizer_cache

  pub uses_self : (x : Processor T) (q : String) → held x ≡ some q → uses q x ≡ 1
  uses_self x q h = ground (arith, h, ==_refl q)

  pub count-release_processor :
      (x : Processor T) (q : String) (c : TokenizerCache T)
      → count q (release_processor x c) ≡ count q c - uses q x
  unfolding release_processor
  count-release_processor x q c = elim (Option-cases (held x)) [
    | inl e ↦ ground (arith, e)
    | inr (p, e) ↦ ground (arith, e, count-release p q c)
  ]

  pub cache-release_processor :
      (x : Processor T) (q : String) (c : TokenizerCache T)
      → IsCounted c
      → 0 < count q (release_processor x c)
      → get q (release_processor x c).cache ≡ get q c.cache
  unfolding release_processor
  cache-release_processor x q c h = elim (Option-cases (held x)) [
    | inl e ↦ rw (e, release_processor) (λ k. refl)
    | inr (p, e) ↦ rw (e, release_processor) (λ k. cache-release p q c h k)
  ]

  pub cache-release_processor_absent :
      (x : Processor T) (q : String) (c : TokenizerCache T)
      → get q c.cache ≡ none
      → get q (release_processor x c).cache ≡ none
  unfolding release_processor
  cache-release_processor_absent x q c h = elim (Option-cases (held x)) [
    | inl e ↦ rw (e, release_processor) h
    | inr (p, e) ↦ rw (e, release_processor) (cache-release_absent p q c h)
  ]

  pub IsCounted-release_processor :
      (x : Processor T) (c : TokenizerCache T) → IsCounted c → IsCounted (release_processor x c)
  unfolding release_processor
  IsCounted-release_processor x c h = elim (Option-cases (held x)) [
    | inl e ↦ rw (e, release_processor) h
    | inr (p, e) ↦ rw (e, release_processor) (IsCounted-release p c h)
  ]

  pub length-pop-le :
      (k : ModelKey) (d : Dict ModelKey (Processor T)) → Distinct d → length (pop k d) ≤ length d
  length-pop-le k d h =
      omega (arith, length-total d, length-total (pop k d), total-pop (λ _. 1) k d h)
