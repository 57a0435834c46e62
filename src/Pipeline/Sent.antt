-- ===== src/Pipeline/Sent.antt =====
-- The order of what the token pipeline sends to the client of a stream (`process_stream` of
-- traj_proxy/proxy_core/pipeline/token_pipeline.py).
use trajproxy.Base.{◌+◌, ◌≡◌, nat_beq, length}
use trajproxy.Pipeline.{StreamContext}
use trajproxy.Pipeline.Streams.{Looped}
use trajproxy.Pipeline.Told.{Ordered, finishes, Told}

-- What the loop sends from a context on.
pub record Sends {J : Type 0} (s : StreamContext J) (l : Looped J) : Type 0 where
  pub ordered : Ordered (nat_beq s.chunk_count 0) l.sent
  pub finished : finishes l.sent ≡ l.context.finished
  pub count : l.context.chunk_count ≡ s.chunk_count + length l.sent
