-- ===== src/Requests/Streams.antt =====
-- The attempts of a streamed request.
use trajproxy.Base.{ℕ, suc, ◌+◌, ◌≤◌, ◌<◌, ◌≡◌, true, false, [], ◌⊎◌}
use trajproxy.Requests.{Opened, Streamed, attempt_stream}

-- What the loop has done when it ends, where `last` is its last attempt.
pub record IsStreamed {B : Type 0} (left first : ℕ) (replies : ℕ → Opened B) (s : Streamed B)
    : Type 0 where
  pub last : ℕ
  pub from : first ≤ last
  pub until : last ≤ first + left
  pub attempts : s.attempts ≡ suc last
  pub chunks : s.yielded ≡ (attempt_stream (replies last)).chunks
  pub outcome : s.failure ≡ (attempt_stream (replies last)).outcome
  pub before :
      (i : ℕ)
      → first ≤ i
      → i < last
      → ((attempt_stream (replies i)).may_retry ≡ true) × ((attempt_stream (replies i)).chunks ≡ [])
  pub ended : (last ≡ first + left) ⊎ ((attempt_stream (replies last)).may_retry ≡ false)
