-- ===== src/Manager/Soundness/Evictions.antt =====
-- The invariant of the cache under the operations that take processors out of it, and `touch`.
use Prim.Native.Nat.{zero}
use trajproxy.Base.{
  ℕ, suc, ◌+◌, ◌-◌, ◌<◌, ◌≡◌, ◌⊎◌, refl, sym, ◌∙◌, ap, String, none, some, List, [], ◌∷◌, string_eq,
  nat_eq, pair_eq, length, is_some, arith, inl, inr, Option-cases, Bool-cases, leb, leb→lt, leb→le,
}
use trajproxy.Base.Dict.{Dict, get, pop, move_to_end, Distinct, total}
use trajproxy.Base.Dict.Laws.{
  get-pop, get-put, get-move, pop-Distinct, move-Distinct, pop_absent, total-pop, total-move,
  get-le-total, length-total,
}
use trajproxy.Models.{ModelKey, key_iff}
use trajproxy.Tokenizers.{TokenizerCache}
use trajproxy.Tokenizers.Counts.{count, IsCounted}
use trajproxy.Manager.{
  Manager, Processor, release_processor, discard, touch, evict_one, make_room, discard_all,
  evict_idle, release_all, clear_cache, idle_keys,
}
use trajproxy.Manager.Soundness.{
  occurrences, uses, Sound, uses_self, count-release_processor, cache-release_processor,
  IsCounted-release_processor, length-pop-le,
}

module _ {T : Type 0} where
  -- Nothing is done on an empty cache.
  pub evict_idle-cases :
      (now : ℕ) (m : Manager T)
      → (evict_idle now m ≡ m)
        ⊎ (evict_idle now m ≡ discard_all (idle_keys now m.idle_timeout m.last_access_time) m)
  unfolding evict_idle
  evict_idle-cases now m = go m.processor_cache refl
    where
      go :
          (d : Dict ModelKey (Processor T))
          → m.processor_cache ≡ d
          → (evict_idle now m ≡ m)
            ⊎ (evict_idle now m ≡ discard_all (idle_keys now m.idle_timeout m.last_access_time) m)
      go [] e = inl (ground (arith, e))
      go (x ∷ d) e = inr (ground (arith, e))

  evict_one-nil : (m : Manager T) → m.processor_cache ≡ [] → evict_one m ≡ m
  unfolding evict_one
  evict_one-nil m e = ground (arith, e)

  -- On distinct keys `popitem(last=False)` discards the first key.
  pub evict_one-discard :
      (m : Manager T) (k : ModelKey) (x : Processor T) (d : Dict ModelKey (Processor T))
      → m.processor_cache ≡ (k, x) ∷ d
      → Distinct m.processor_cache
      → evict_one m ≡ discard k m
  unfolding evict_one discard get pop
  evict_one-discard m k x d e h = ground (arith, e, h, key_iff k k, pop_absent k d)

  length-evict_one :
      (m : Manager T)
      → 0 < length m.processor_cache
      → suc (length (evict_one m).processor_cache) ≡ length m.processor_cache
  unfolding evict_one
  length-evict_one m h = ground arith

  pub limit-evict_one : (m : Manager T) → (evict_one m).cache_max_size ≡ m.cache_max_size
  unfolding evict_one
  limit-evict_one m = ground arith

  pub count-release_all :
      (q : String) (d : List (ModelKey × Processor T)) (c : TokenizerCache T)
      → count q (release_all d c) ≡ count q c - total (uses q) d
  unfolding release_all total
  count-release_all q [] c = omega arith
  count-release_all q ((k, x) ∷ d) c =
      omega (arith, count-release_all q d (release_processor x c), count-release_processor x q c)

  pub release_all-IsCounted :
      (d : List (ModelKey × Processor T)) (c : TokenizerCache T)
      → IsCounted c
      → IsCounted (release_all d c)
  unfolding release_all
  release_all-IsCounted [] c h = h
  release_all-IsCounted ((k, x) ∷ d) c h =
      release_all-IsCounted d (release_processor x c) (IsCounted-release_processor x c h)

module _ {T : Type 0} {lost : List String} where
  -- What `discard` leaves, if the key is in the cache.
  discard_present :
      (key : ModelKey) (m : Manager T) (x : Processor T)
      → get key m.processor_cache ≡ some x
      → Sound lost m
      → Sound lost (discard key m)
  unfolding discard
  discard_present key m x e h =
      let tokens = m.tokenizer_cache in
      let exact' : (q : String)
          → count q (release_processor x tokens)
            ≡ total (uses q) (pop key m.processor_cache) + occurrences q lost =
        λ q. ground (
          arith,
          e,
          h.exact q,
          count-release_processor x q tokens,
          total-pop (uses q) key m.processor_cache h.distinct,
        ) in
      rw (e, discard)
        (record {
          distinct = pop-Distinct key m.processor_cache h.distinct;
          bounded = omega (arith, h.bounded, length-pop-le key m.processor_cache h.distinct);
          timed = λ k.
              ground (
                arith,
                h.timed k,
                get-pop key k m.processor_cache,
                get-pop key k m.last_access_time,
              );
          counted = IsCounted-release_processor x tokens h.counted;
          exact = exact';
          shared = λ k y q p r.
              let there : get k m.processor_cache ≡ some y =
                ground (arith, p, get-pop key k m.processor_cache) in
              cache-release_processor x q tokens h.counted (
                omega (
                  arith,
                  exact' q,
                  uses_self y q r,
                  get-le-total (uses q) k y (pop key m.processor_cache) p,
                ))
              ∙ h.shared k y q there r;
        })

  discard_missing :
      (key : ModelKey) (m : Manager T)
      → get key m.processor_cache ≡ none
      → Sound lost m
      → Sound lost (discard key m)
  unfolding discard
  discard_missing key m e h =
      rw (e, discard)
        (record {
          distinct = pop-Distinct key m.processor_cache h.distinct;
          bounded = omega (arith, h.bounded, length-pop-le key m.processor_cache h.distinct);
          timed = λ k.
              ground (
                arith,
                h.timed k,
                get-pop key k m.processor_cache,
                get-pop key k m.last_access_time,
              );
          counted = h.counted;
          exact = λ q. rw (pop_absent key m.processor_cache e) (h.exact q);
          shared =
              λ k y q p r. h.shared k y q (ground (arith, p, get-pop key k m.processor_cache)) r;
        })

  pub discard-Sound : (key : ModelKey) (m : Manager T) → Sound lost m → Sound lost (discard key m)
  discard-Sound key m h = elim (Option-cases (get key m.processor_cache)) [
    | inl e ↦ discard_missing key m e h
    | inr (x, e) ↦ discard_present key m x e h
  ]

  pub discard_all-Sound :
      (ks : List ModelKey) (m : Manager T) → Sound lost m → Sound lost (discard_all ks m)
  unfolding discard_all
  discard_all-Sound [] m h = h
  discard_all-Sound (k ∷ ks) m h = discard_all-Sound ks (discard k m) (discard-Sound k m h)

  pub evict_idle-Sound : (now : ℕ) (m : Manager T) → Sound lost m → Sound lost (evict_idle now m)
  evict_idle-Sound now m h = elim (evict_idle-cases now m) [
    | inl e ↦ rw e h
    | inr e ↦ rw e (discard_all-Sound (idle_keys now m.idle_timeout m.last_access_time) m h)
  ]

  pub touch-Sound :
      (key : ModelKey) (now : ℕ) (m : Manager T) → Sound lost m → Sound lost (touch key now m)
  unfolding touch
  touch-Sound key now m h = elim (Bool-cases (is_some (get key m.processor_cache))) [
    | inr e ↦ rw (e, touch) h
    | inl e ↦
        rw (e, touch)
          (record {
            distinct = move-Distinct key m.processor_cache h.distinct;
            bounded = omega (
              arith,
              h.bounded,
              length-total m.processor_cache,
              length-total (move_to_end key m.processor_cache),
              total-move (λ _. 1) key m.processor_cache h.distinct,
            );
            timed = λ k. ground (
              arith,
              e,
              h.timed k,
              get-put key k now m.last_access_time,
              get-move key k m.processor_cache,
              key_iff key k,
            );
            counted = h.counted;
            exact = λ q.
                h.exact q
                ∙ ap (λ (n : ℕ). n + occurrences q lost)
                    (sym (total-move (uses q) key m.processor_cache h.distinct));
            shared = λ k y q p r. h.shared k y q (sym (get-move key k m.processor_cache) ∙ p) r;
          })
  ]

  pub evict_one-Sound : (m : Manager T) → Sound lost m → Sound lost (evict_one m)
  evict_one-Sound m h = go m.processor_cache refl
    where
      go : (d : Dict ModelKey (Processor T)) → m.processor_cache ≡ d → Sound lost (evict_one m)
      go [] e = rw (evict_one-nil m e) h
      go ((k, x) ∷ d) e = rw (evict_one-discard m k x d e h.distinct) (discard-Sound k m h)

  -- With room for one processor at least, `length + 1` rounds are enough for the loop, and the
  -- cache has room when it ends.
  pub make_room-Sound :
      (fuel : ℕ) (m : Manager T)
      → length m.processor_cache < fuel
      → 0 < m.cache_max_size
      → Sound lost m
      → (m' : Manager T) × (make_room fuel m ≡ some m')
        × Sound lost m'
        × (length m'.processor_cache < m'.cache_max_size)
        × (m'.cache_max_size ≡ m.cache_max_size)
  unfolding make_room
  make_room-Sound zero m f p h = absurd (omega arith)
  make_room-Sound (suc fuel) m f p h =
      elim (Bool-cases (leb m.cache_max_size (length m.processor_cache))) [
        | inr e ↦ (m, rw e, h, leb→lt _ _ e, refl)
        | inl e ↦
            let shorter = length-evict_one m (omega (arith, leb→le _ _ e)) in
            let (m', r, s, room, same) =
              make_room-Sound fuel (evict_one m) (omega (arith, shorter))
                (omega (arith, limit-evict_one m)) (evict_one-Sound m h) in
            (m', rw e r, s, room, same ∙ limit-evict_one m)
      ]

  pub clear_cache-Sound : (m : Manager T) → Sound lost m → Sound lost (clear_cache m)
  unfolding clear_cache get total
  clear_cache-Sound m h = record {
    distinct = tt;
    bounded = omega arith;
    timed = λ k. refl;
    counted = release_all-IsCounted m.processor_cache m.tokenizer_cache h.counted;
    exact = λ q. omega (arith, h.exact q, count-release_all q m.processor_cache m.tokenizer_cache);
    shared = λ k y q p r. cc;
  }
