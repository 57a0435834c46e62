-- ===== src/Tokenizers.antt =====
-- `TokenizerCache` (traj_proxy/proxy_core/tokenizer_cache.py): tokenizers shared by path, with
-- reference counts. `T` is the library's tokenizer object.
pub mod Counts
use trajproxy.Base.{
  ℕ, ◌+◌, ◌-◌, String, Option, none, some, [], leb, if◌then◌else◌, length, string_eq,
}
use trajproxy.Base.Dict.{Dict, get, pop, put}

pub record TokenizerCache (T : Type 0) : Type 0 where
  pub cache : Dict String T
  pub ref_counts : Dict String ℕ

abbrev pub empty : {T : Type 0} → TokenizerCache T
empty = record { cache = []; ref_counts = [] }

-- What the test at the head of `get_or_load` decides: a hit has counted the new reference, a miss
-- goes on to `from_pretrained` in a thread, and a hit with no count would raise `KeyError`.
pub data Fetch (T : Type 0) : Type 0 where
  hit : T → TokenizerCache T → Fetch T
  miss : Fetch T
  key_missing : Fetch T

module _ {T : Type 0} where
  unfoldable pub look_up : String → TokenizerCache T → Fetch T
  look_up path c = elim (get path c.cache) [
    | none ↦ miss
    | some t ↦ elim (get path c.ref_counts) [
      | none ↦ key_missing
      | some n ↦ hit t (record c { ref_counts = put path (n + 1) c.ref_counts })
    ]
  ]

  -- The end of `get_or_load` after a miss: `t` is what the thread returned.
  unfoldable pub store_loaded : String → T → TokenizerCache T → TokenizerCache T
  store_loaded path t c = record {
    cache = put path t c.cache;
    ref_counts = put path 1 c.ref_counts;
  }

  -- The two dicts have the same keys, so `del` finds its key.
  unfoldable pub release : String → TokenizerCache T → TokenizerCache T
  release path c = elim (get path c.ref_counts) [
    | none ↦ c
    | some n ↦
        if leb n 1
        then record { cache = pop path c.cache; ref_counts = pop path c.ref_counts }
        else record c { ref_counts = put path (n - 1) c.ref_counts }
  ]

  unfoldable pub size : TokenizerCache T → ℕ
  size c = length c.cache
