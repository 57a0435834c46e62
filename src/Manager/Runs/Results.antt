-- ===== src/Manager/Runs/Results.antt =====
-- What holds after every sequence of events on a fresh `ProcessorManager`.
use trajproxy.Base.{
  ℕ, ◌+◌, ◌≤◌, ◌<◌, ◌≡◌, refl, ◌∙◌, String, true, some, List, [], All, string_eq, pair_eq, is_some,
  arith, length,
}
use trajproxy.Base.Dict.{get, total, Distinct}
use trajproxy.Base.Dict.Laws.{get-le-total}
use trajproxy.Models.{ModelKey}
use trajproxy.Tokenizers.Counts.{count}
use trajproxy.Manager.{Processor, config_of}
use trajproxy.Manager.Soundness.{occurrences, held, uses, uses_self}
use trajproxy.Manager.Runs.{System, Event, run, init}
use trajproxy.Manager.Runs.Invariant.{run-Consistent, init-Consistent}
use trajproxy.Manager.Runs.Limits.{IsBuilt, limit-run, lost-run}

limit-init :
    (T : Type 0) (size timeout : ℕ) → (init {T = T} size timeout).manager.cache_max_size ≡ size
unfolding init
limit-init T size timeout = refl

lost-init : (T : Type 0) (size timeout : ℕ) → (init {T = T} size timeout).lost ≡ []
unfolding init
lost-init T size timeout = refl

module _ {T : Type 0} where
  -- With a positive limit every sequence of events ends, and then the cache holds at most `size`
  -- processors, each key once, and exactly the cached keys have an access time.
  pub run-bounded :
      (size timeout : ℕ) (evs : List (Event T))
      → 0 < size
      → (s : System T) × (run evs (init size timeout) ≡ some s)
        × (length s.manager.processor_cache ≤ size)
        × Distinct s.manager.processor_cache
        × ((k : ModelKey)
            → is_some (get k s.manager.last_access_time)
              ≡ is_some (get k s.manager.processor_cache))
  run-bounded size timeout evs h =
      let (s, e, c) = run-Consistent evs (init size timeout) (init-Consistent size timeout h) in
      let limit = limit-run evs (init size timeout) s e ∙ limit-init T size timeout in
      (
        s,
        e,
        omega (arith, c.settled.sound.bounded, limit),
        c.settled.sound.distinct,
        c.settled.sound.timed,
      )

  -- With a positive limit every sequence of events ends, and then every cached processor has a
  -- static or dynamic configuration under its key: registrations that are rolled back or removed
  -- while a processor is being built leave no orphan.
  pub run-no_orphans :
      (size timeout : ℕ) (evs : List (Event T))
      → 0 < size
      → (s : System T) × (run evs (init size timeout) ≡ some s)
        × ((k : ModelKey)
            → is_some (get k s.manager.processor_cache) ≡ true
            → is_some (config_of k s.manager) ≡ true)
  run-no_orphans size timeout evs h =
      let (s, e, c) = run-Consistent evs (init size timeout) (init-Consistent size timeout h) in
      (s, e, c.settled.owned)

  -- With a positive limit every sequence of events ends, and then the reference count of every
  -- path is the number of cached processors that hold its tokenizer, plus the references that
  -- raising constructors of `Processor` have left behind.
  pub run-counts :
      (size timeout : ℕ) (evs : List (Event T))
      → 0 < size
      → (s : System T) × (run evs (init size timeout) ≡ some s)
        × ((q : String)
            → count q s.manager.tokenizer_cache
              ≡ total (uses q) s.manager.processor_cache + occurrences q s.lost)
  run-counts size timeout evs h =
      let (s, e, c) = run-Consistent evs (init size timeout) (init-Consistent size timeout h) in
      (s, e, c.settled.sound.exact)

  -- If moreover no constructor of `Processor` raises, the count is exactly the number of cached
  -- processors that hold the tokenizer.
  pub run-counts_exact :
      (size timeout : ℕ) (evs : List (Event T))
      → 0 < size
      → All IsBuilt evs
      → (s : System T) × (run evs (init size timeout) ≡ some s)
        × ((q : String)
            → count q s.manager.tokenizer_cache ≡ total (uses q) s.manager.processor_cache)
  unfolding occurrences
  run-counts_exact size timeout evs h b =
      let (s, e, c) = run-Consistent evs (init size timeout) (init-Consistent size timeout h) in
      let none_lost = lost-run evs (init size timeout) s e b (lost-init T size timeout) in
      (s, e, λ q. ground (arith, c.settled.sound.exact q, none_lost))

  -- With a positive limit every sequence of events ends, and then the tokenizer of every cached
  -- processor that holds a path is the one object that the tokenizer cache stores for the path,
  -- and it is counted: it is shared, and not dropped while it is in use.
  pub run-shared :
      (size timeout : ℕ) (evs : List (Event T))
      → 0 < size
      → (s : System T) × (run evs (init size timeout) ≡ some s)
        × ((k : ModelKey) (x : Processor T) (q : String)
            → get k s.manager.processor_cache ≡ some x
            → held x ≡ some q
            → (get q s.manager.tokenizer_cache.cache ≡ x.tokenizer)
              × (0 < count q s.manager.tokenizer_cache))
  run-shared size timeout evs h =
      let (s, e, c) = run-Consistent evs (init size timeout) (init-Consistent size timeout h) in
      (
        s,
        e,
        λ k x q p r. (
          c.settled.sound.shared k x q p r,
          omega (
            arith,
            c.settled.sound.exact q,
            uses_self x q r,
            get-le-total (uses q) k x s.manager.processor_cache p,
          ),
        ),
      )
