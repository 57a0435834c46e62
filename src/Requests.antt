-- ===== src/Requests.antt =====
-- The retries of `InferClient`, traj_proxy/proxy_core/infer_client.py: `_handle_request` and
-- `_handle_stream_request`. The HTTP library is not part of the program: what the n-th attempt
-- meets is an argument. `B` is a parsed JSON body.
pub mod Attempts
pub mod Streams
pub mod Bodies
use trajproxy.Base.{
  ℕ, zero, suc, ◌^◌, Bool, true, false, Option, none, some, List, [], ◌∷◌, ◌++◌, nat_beq, ltb, leb,
  if◌then◌else◌, ◌&&◌, ◌||◌,
}

-- A response with its status and its body, `none` where the body is no JSON, or one of the
-- `RequestError`s of the library: a connection or an answer that takes too long, or any other.
pub data Reply (B : Type 0) : Type 0 where
  answered : ℕ → Option B → Reply B
  timed_out broken : Reply B

-- What `_wrap_request_error` raises, with the status where there was a response, or the exception
-- of `response.json()`, which nothing catches.
pub data Failure : Type 0 where
  timeout_error : Failure
  service_error : Option ℕ → Failure
  decode_error : Failure

pub data Verdict (B : Type 0) : Type 0 where
  returned : B → Verdict B
  failed_with : Failure → Verdict B

-- `retry_count` is `_last_retry_count`, `waits` the times slept.
pub record Handled (B : Type 0) : Type 0 where
  pub verdict : Verdict B
  pub retry_count : ℕ
  pub waits : List ℕ

-- `_RETRY_STATUS_CODES`
unfoldable pub is_retry_status : ℕ → Bool
is_retry_status code = nat_beq code 502 || nat_beq code 503 || nat_beq code 504

-- `raise_for_status` raises for every other status.
unfoldable pub is_success : ℕ → Bool
is_success code = leb 200 code && ltb code 300

module _ {B : Type 0} where
  -- The attempt is made again if attempts are left.
  unfoldable pub is_retryable : Reply B → Bool
  unfolding is_retry_status
  is_retryable (answered code body) = is_retry_status code
  is_retryable timed_out = true
  is_retryable broken = true

  -- `response.json()`
  unfoldable pub read_body : Option B → Verdict B
  read_body none = failed_with decode_error
  read_body (some body) = returned body

  -- What the last attempt comes to.
  unfoldable pub conclude : Reply B → Verdict B
  unfolding is_success read_body
  conclude (answered code body) =
      if is_success code then read_body body else failed_with (service_error (some code))
  conclude timed_out = failed_with timeout_error
  conclude broken = failed_with (service_error none)

  -- The loop from the given attempt on, with the number of attempts that are left after it.
  unfoldable pub handle_from : ℕ → ℕ → (ℕ → Reply B) → Handled B
  unfolding is_retryable conclude
  handle_from zero attempt replies = record {
    verdict = conclude (replies attempt);
    retry_count = attempt;
    waits = [];
  }
  handle_from (suc left) attempt replies =
      let again = handle_from left (suc attempt) replies in
      if is_retryable (replies attempt)
      then record again { waits = 2 ^ attempt ∷ again.waits }
      else record { verdict = conclude (replies attempt); retry_count = attempt; waits = [] }

  unfoldable pub handle_request : ℕ → (ℕ → Reply B) → Handled B
  unfolding handle_from
  handle_request max_retries replies = handle_from max_retries 0 replies

-- A line of a streamed response: blank or without `data: `, the end mark, JSON, or no JSON.
pub data Line (B : Type 0) : Type 0 where
  skipped done garbage : Line B
  chunk : B → Line B

-- How the lines of a stream end: it is over, or a `RequestError` as above.
pub data Ending : Type 0 where
  finished interrupted interrupted_in_time : Ending

-- A stream that is opened has a status and lines, and then ends.
pub data Opened (B : Type 0) : Type 0 where
  opened : ℕ → List (Line B) → Ending → Opened B
  unreachable unreachable_in_time : Opened B

-- `yielded` is what the generator yields; `failure` what it raises in the end.
pub record Streamed (B : Type 0) : Type 0 where
  pub yielded : List B
  pub failure : Option Failure
  pub attempts : ℕ

-- What an attempt yields and how it ends, `none` for a good end. Only an attempt that has yielded
-- nothing may be made again, so `has_yielded` is false when an attempt starts.
pub record Attempted (B : Type 0) : Type 0 where
  pub chunks : List B
  pub outcome : Option Failure
  pub may_retry : Bool

module _ {B : Type 0} where
  -- The end mark ends the reading, whatever comes after it.
  unfoldable pub read_lines : List (Line B) → Ending → List B × Ending
  read_lines [] last = ([], last)
  read_lines (done ∷ lines) last = ([], finished)
  read_lines (chunk b ∷ lines) last = let (bs, ending) = read_lines lines last in (b ∷ bs, ending)
  read_lines (skipped ∷ lines) last = read_lines lines last
  read_lines (garbage ∷ lines) last = read_lines lines last

  abbrev nothing_yielded : List B → Bool
  nothing_yielded [] = true
  nothing_yielded (b ∷ bs) = false

  read_all : List B × Ending → Attempted B
  read_all (bs, finished) = record { chunks = bs; outcome = none; may_retry = false }
  read_all (bs, interrupted) = record {
    chunks = bs;
    outcome = some (service_error none);
    may_retry = nothing_yielded bs;
  }
  read_all (bs, interrupted_in_time) = record {
    chunks = bs;
    outcome = some timeout_error;
    may_retry = nothing_yielded bs;
  }

  unfoldable pub attempt_stream : Opened B → Attempted B
  unfolding read_lines read_all is_retry_status is_success
  attempt_stream unreachable = record {
    chunks = [];
    outcome = some (service_error none);
    may_retry = true;
  }
  attempt_stream unreachable_in_time = record {
    chunks = [];
    outcome = some timeout_error;
    may_retry = true;
  }
  attempt_stream (opened code lines last) =
      if is_retry_status code
      then record { chunks = []; outcome = some (service_error (some code)); may_retry = true }
      else if is_success code
      then read_all (read_lines lines last)
      else record { chunks = []; outcome = some (service_error (some code)); may_retry = false }

  unfoldable pub stream_from : ℕ → ℕ → (ℕ → Opened B) → Streamed B
  unfolding attempt_stream
  stream_from zero attempt replies =
      let a = attempt_stream (replies attempt) in
      record { yielded = a.chunks; failure = a.outcome; attempts = suc attempt }
  stream_from (suc left) attempt replies =
      let a = attempt_stream (replies attempt) in
      let again = stream_from left (suc attempt) replies in
      if a.may_retry
      then record again { yielded = a.chunks ++ again.yielded }
      else record { yielded = a.chunks; failure = a.outcome; attempts = suc attempt }

  unfoldable pub handle_stream_request : ℕ → (ℕ → Opened B) → Streamed B
  unfolding stream_from
  handle_stream_request max_retries replies = stream_from max_retries 0 replies
