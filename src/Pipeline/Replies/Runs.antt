-- ===== src/Pipeline/Replies/Runs.antt =====
-- `process` of traj_proxy/proxy_core/pipeline/token_pipeline.py: the stages, the storing of the
-- trajectory and the handler of exceptions.
use trajproxy.Base.{Option, none, some, List, [], ◌∷◌, ◌++◌, if◌then◌else◌}
use trajproxy.Models.{Result, ok, raise, Error, is_database_error}
use trajproxy.Pipeline.Replies.{ReplyContext, Parts, Stage, reply_stages}

-- `rows` are the contexts that the repository has stored.
pub record Processed (J R : Type 0) : Type 0 where
  pub verdict : Result (ReplyContext J R)
  pub rows : List (ReplyContext J R)

module _ {J R : Type 0} where
  abbrev pub with_error : Error → ReplyContext J R → ReplyContext J R
  with_error e c = record c { error = some e }

  -- What the repository answered: a `DatabaseError` is noted in the context.
  unfoldable pub store_outcome : Result (Unit {0}) → Stage J R
  store_outcome (ok u) c = (ok tt, c)
  store_outcome (raise e) c = if is_database_error e then (ok tt, with_error e c) else (raise e, c)

  -- The row, unless the repository raises.
  abbrev pub row_of : Result (Unit {0}) → ReplyContext J R → List (ReplyContext J R)
  row_of (ok u) c = c ∷ []
  row_of (raise e) c = []

  -- `_store_trajectory`, with the rows
  unfoldable pub store_reply :
      Option (ReplyContext J R → Result (Unit {0}))
      → ReplyContext J R
      → (Result (Unit {0}) × ReplyContext J R) × List (ReplyContext J R)
  unfolding store_outcome
  store_reply none c = ((ok tt, c), [])
  store_reply (some store) c = (store_outcome (store c) c, row_of (store c) c)

  -- The handler: the error is noted and stored; what the storing raises is only reported.
  unfoldable pub handle_error :
      Option (ReplyContext J R → Result (Unit {0}))
      → Error
      → ReplyContext J R
      → List (ReplyContext J R)
      → Processed J R
  unfolding store_reply
  handle_error store_row e c rows = record {
    verdict = raise e;
    rows = rows ++ (store_reply store_row (with_error e c)).1;
  }

  unfoldable pub finish_reply :
      Option (ReplyContext J R → Result (Unit {0}))
      → (Result (Unit {0}) × ReplyContext J R) × List (ReplyContext J R)
      → Processed J R
  unfolding handle_error
  finish_reply store_row ((ok u, c), rows) = record { verdict = ok c; rows = rows }
  finish_reply store_row ((raise e, c), rows) = handle_error store_row e c rows

  unfoldable pub store_stages :
      Option (ReplyContext J R → Result (Unit {0}))
      → Result (Unit {0}) × ReplyContext J R
      → Processed J R
  unfolding finish_reply handle_error store_reply
  store_stages store_row (raise e, c) = handle_error store_row e c []
  store_stages store_row (ok u, c) = finish_reply store_row (store_reply store_row c)

  unfoldable pub process : {P : Type 0} → Parts J R P → ReplyContext J R → Processed J R
  unfolding reply_stages store_stages
  process parts c = store_stages parts.store_row (reply_stages parts c)
