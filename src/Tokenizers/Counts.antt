-- ===== src/Tokenizers/Counts.antt =====
-- What the operations of `TokenizerCache` do to the counts and to the stored tokenizers.
use trajproxy.Base.{
  ℕ, ◌+◌, ◌-◌, ◌<◌, ◌≡◌, ◌≢◌, refl, String, false, none, some, arith, ◌==◌, string_eq,
  if◌then◌else◌, is_some, ==_refl,
}
use trajproxy.Base.Dict.{get, weight}
use trajproxy.Base.Dict.Laws.{get-pop, get-put}
use trajproxy.Tokenizers
use trajproxy.Tokenizers.{
  TokenizerCache, Fetch, hit, miss, key_missing, look_up, store_loaded, release,
}

module _ {T : Type 0} where
  -- The number of references that the cache has counted for a path.
  abbrev pub count : String → TokenizerCache T → ℕ
  count path c = weight (λ n. n) (get path c.ref_counts)

  -- A path has a tokenizer exactly if it has a count, and the count is not zero.
  pub record IsCounted (c : TokenizerCache T) : Type 0 where
    pub same_keys : (p : String) → is_some (get p c.cache) ≡ is_some (get p c.ref_counts)
    pub positive : (p : String) → get p c.ref_counts ≢ some 0

  pub count-release :
      (q p : String) (c : TokenizerCache T)
      → count p (release q c) ≡ count p c - (if q == p then 1 else 0)
  unfolding release
  count-release q p c = ground (
    arith,
    get-pop q p c.ref_counts,
    get-put q p (count q c - 1) c.ref_counts,
    string_eq.beq_iff q p,
  )

  pub count-store_loaded :
      (q p : String) (t : T) (c : TokenizerCache T)
      → count p (store_loaded q t c) ≡ (if q == p then 1 else count p c)
  unfolding store_loaded
  count-store_loaded q p t c = ground (arith, get-put q p 1 c.ref_counts)

  -- A hit counts one reference more for its path, and stores nothing.
  pub look_up-hit :
      (q p : String) (c : TokenizerCache T) {t : T} {c' : TokenizerCache T}
      → look_up q c ≡ hit t c'
      → (count p c' ≡ count p c + (if q == p then 1 else 0))
        × (get p c'.cache ≡ get p c.cache)
        × (get q c.cache ≡ some t)
  unfolding look_up
  look_up-hit q p c h =
      ground (arith, get-put q p (count q c + 1) c.ref_counts, string_eq.beq_iff q p)

  -- On a counted cache no `KeyError` is raised, and a miss means that there is no tokenizer.
  pub look_up-counted :
      (q : String) (c : TokenizerCache T) → IsCounted c → look_up q c ≢ key_missing
  unfolding look_up
  look_up-counted q c h = ground (arith, h.same_keys q)

  pub look_up-miss : (q : String) (c : TokenizerCache T) → look_up q c ≡ miss → get q c.cache ≡ none
  unfolding look_up
  look_up-miss q c h = ground arith

  -- A tokenizer stays as long as a reference to it is counted.
  pub cache-release :
      (q p : String) (c : TokenizerCache T)
      → IsCounted c
      → 0 < count p (release q c)
      → get p (release q c).cache ≡ get p c.cache
  unfolding release
  cache-release q p c h k =
      ground (arith, get-pop q p c.cache, get-pop q p c.ref_counts, string_eq.beq_iff q p)

  pub IsCounted-release :
      (q : String) (c : TokenizerCache T) → IsCounted c → IsCounted (release q c)
  unfolding release
  IsCounted-release q c h = record {
    same_keys = λ p. ground (
      arith,
      h.same_keys p,
      get-pop q p c.cache,
      get-pop q p c.ref_counts,
      get-put q p (count q c - 1) c.ref_counts,
      string_eq.beq_iff q p,
    );
    positive = λ p.
        ground
          (arith, h.positive p, get-pop q p c.ref_counts, get-put q p (count q c - 1) c.ref_counts);
  }

  pub IsCounted-look_up :
      (q : String) (c : TokenizerCache T) {t : T} {c' : TokenizerCache T}
      → IsCounted c
      → look_up q c ≡ hit t c'
      → IsCounted c'
  unfolding look_up
  IsCounted-look_up q c {c' = c'} h e = record {
    same_keys = λ p.
        ground
          (arith, h.same_keys p, get-put q p (count q c + 1) c.ref_counts, string_eq.beq_iff q p);
    positive = λ p. ground (arith, h.positive p, get-put q p (count q c + 1) c.ref_counts);
  }

  pub IsCounted-store_loaded :
      (q : String) (t : T) (c : TokenizerCache T) → IsCounted c → IsCounted (store_loaded q t c)
  unfolding store_loaded
  IsCounted-store_loaded q t c h = record {
    same_keys =
        λ p. ground (arith, h.same_keys p, get-put q p t c.cache, get-put q p 1 c.ref_counts);
    positive = λ p. ground (arith, h.positive p, get-put q p 1 c.ref_counts);
  }

  pub IsCounted-empty : IsCounted (Tokenizers.empty {T = T})
  unfolding get
  IsCounted-empty = record { same_keys = λ p. refl; positive = λ p h. cc }

  pub cache-release_absent :
      (q p : String) (c : TokenizerCache T)
      → get p c.cache ≡ none
      → get p (release q c).cache ≡ none
  unfolding release
  cache-release_absent q p c h = ground (arith, get-pop q p c.cache)

  pub count_absent :
      (p : String) (c : TokenizerCache T) → IsCounted c → get p c.cache ≡ none → count p c ≡ 0
  count_absent p c h e = ground (arith, e, h.same_keys p)

  pub cache-store_loaded :
      (q p : String) (t : T) (c : TokenizerCache T)
      → (q == p) ≡ false
      → get p (store_loaded q t c).cache ≡ get p c.cache
  unfolding store_loaded
  cache-store_loaded q p t c e = ground (arith, e, get-put q p t c.cache)

  pub cache-store_loaded_self :
      (q : String) (t : T) (c : TokenizerCache T) → get q (store_loaded q t c).cache ≡ some t
  unfolding store_loaded
  cache-store_loaded_self q t c = ground (arith, get-put q q t c.cache, ==_refl q)
