-- ===== src/Manager/Soundness/Loads.antt =====
-- The invariant of the cache under loading: a reference is counted by the tokenizer cache first,
-- stands among the `lost` ones while the processor is built, and ends in the cache of processors,
-- in a release, or lost for good.
use trajproxy.Base.{
  ℕ, ◌+◌, ◌<◌, ◌≡◌, ◌∙◌, String, false, none, some, List, ◌∷◌, ◌++◌, ◌==◌, string_eq, nat_eq,
  pair_eq, length, arith, inl, inr, Option-cases, Bool-cases,
}
use trajproxy.Base.Dict.{get, put, total}
use trajproxy.Base.Dict.Laws.{get-put, put-Distinct, total-put, get-le-total, length-total}
use trajproxy.Models.{ModelKey}
use trajproxy.Tokenizers.{TokenizerCache, hit, look_up, store_loaded}
use trajproxy.Tokenizers.Counts.{
  count, count-store_loaded, look_up-hit, IsCounted-look_up, IsCounted-store_loaded, count_absent,
  cache-store_loaded,
}
use trajproxy.Manager.{Manager, Processor, release_processor}
use trajproxy.Manager.Loading.{lost_path}
use trajproxy.Manager.Soundness.{
  occurrences, held, uses, Sound, uses_self, count-release_processor, cache-release_processor,
  IsCounted-release_processor,
}

module _ {T : Type 0} where
  occurrences-held :
      (q : String) (x : Processor T) (lost : List String)
      → occurrences q (lost_path (held x) ++ lost) ≡ uses q x + occurrences q lost
  unfolding occurrences
  occurrences-held q x lost = elim (Option-cases (held x)) [
    | inl e ↦ rw e (omega arith)
    | inr (p, e) ↦ rw e
  ]

module _ {T : Type 0} {lost : List String} where
  -- A processor whose reference is counted and pending may be stored under a new key.
  pub insert-Sound :
      (key : ModelKey) (now : ℕ) (x : Processor T) (m : Manager T)
      → get key m.processor_cache ≡ none
      → length m.processor_cache < m.cache_max_size
      → ((q : String) → held x ≡ some q → get q m.tokenizer_cache.cache ≡ x.tokenizer)
      → Sound (lost_path (held x) ++ lost) m
      → Sound lost (record m {
        processor_cache = put key x m.processor_cache;
        last_access_time = put key now m.last_access_time;
      })
  insert-Sound key now x m new room own h = record {
    distinct = put-Distinct key x m.processor_cache h.distinct;
    bounded = ground (
      arith,
      new,
      length-total m.processor_cache,
      length-total (put key x m.processor_cache),
      total-put (λ _. 1) key x m.processor_cache,
    );
    timed = λ k.
        ground (
          arith,
          h.timed k,
          get-put key k now m.last_access_time,
          get-put key k x m.processor_cache,
        );
    counted = h.counted;
    exact = λ q. ground (
      arith,
      new,
      h.exact q,
      occurrences-held q x lost,
      total-put (uses q) key x m.processor_cache,
    );
    shared = λ k y q p r. elim (Bool-cases (key == k)) [
      | inl e ↦
          let same : x ≡ y = ground (arith, p, e, get-put key k x m.processor_cache) in
          rw (← same) (own q (rw same r))
      | inr e ↦ h.shared k y q (ground (arith, p, e, get-put key k x m.processor_cache)) r
    ];
  }

  -- Or its reference is released again.
  pub drop-Sound :
      (x : Processor T) (m : Manager T)
      → Sound (lost_path (held x) ++ lost) m
      → Sound lost (record m { tokenizer_cache = release_processor x m.tokenizer_cache })
  drop-Sound x m h =
      let tokens = m.tokenizer_cache in
      let exact' : (q : String)
          → count q (release_processor x tokens)
            ≡ total (uses q) m.processor_cache + occurrences q lost =
        λ q.
          omega (arith, h.exact q, occurrences-held q x lost, count-release_processor x q tokens) in
      record {
        distinct = h.distinct;
        bounded = h.bounded;
        timed = h.timed;
        counted = IsCounted-release_processor x tokens h.counted;
        exact = exact';
        shared = λ k y q p r.
            cache-release_processor x q tokens h.counted (
              omega
                (arith, exact' q, uses_self y q r, get-le-total (uses q) k y m.processor_cache p))
            ∙ h.shared k y q p r;
      }

  -- A hit of the tokenizer cache counts one pending reference more.
  pub hit-Sound :
      (path : String) (t : T) (tokens : TokenizerCache T) (m : Manager T)
      → look_up path m.tokenizer_cache ≡ hit t tokens
      → Sound lost m
      → Sound (path ∷ lost) (record m { tokenizer_cache = tokens })
  unfolding occurrences
  hit-Sound path t tokens m e h = record {
    distinct = h.distinct;
    bounded = h.bounded;
    timed = h.timed;
    counted = IsCounted-look_up path m.tokenizer_cache h.counted e;
    exact = λ q. omega (arith, h.exact q, (look_up-hit path q m.tokenizer_cache e).0);
    shared = λ k y q p r. (look_up-hit path q m.tokenizer_cache e).1 ∙ h.shared k y q p r;
  }

  -- So does a tokenizer that the thread has loaded, at a path that has none.
  pub stored-Sound :
      (path : String) (t : T) (m : Manager T)
      → get path m.tokenizer_cache.cache ≡ none
      → Sound lost m
      → Sound (path ∷ lost) (record m { tokenizer_cache = store_loaded path t m.tokenizer_cache })
  unfolding occurrences
  stored-Sound path t m new h =
      let tokens = m.tokenizer_cache in
      let none_yet : count path tokens ≡ 0 = count_absent path tokens h.counted new in
      record {
        distinct = h.distinct;
        bounded = h.bounded;
        timed = h.timed;
        counted = IsCounted-store_loaded path t tokens h.counted;
        exact = λ q. ground (
          arith,
          none_yet,
          h.exact q,
          count-store_loaded path q t tokens,
          string_eq.beq_iff path q,
        );
        shared = λ k y q p r.
            let used = get-le-total (uses q) k y m.processor_cache p in
            let other : (path == q) ≡ false =
              ground
                (arith, none_yet, h.exact q, used, uses_self y q r, string_eq.beq_iff path q) in
            cache-store_loaded path q t tokens other ∙ h.shared k y q p r;
      }
