-- ===== src/Tests/Clients.antt =====
-- The theorems on the retries of requests at concrete inputs.
use trajproxy.Base.{
  false, ℕ, String, ◌≡◌, refl, none, some, string_eq, contains, true, [], ◌∷◌, suc, zero,
}
use trajproxy.Requests.{
  Reply, answered, broken, Opened, opened, unreachable, interrupted_in_time, chunk, skipped,
  handle_request,
}
use trajproxy.Requests.Bodies.{build_completion_body, build_completion_body_lem}
use trajproxy.Base.Dict.{Dict, get}
use trajproxy.Json.{Json, null, boolean, number}
use trajproxy.Requests.Attempts.{IsHandled, handle_request_lem}

-- The service is busy, then the connection breaks, then there is an answer.
abbrev replies : ℕ → Reply ℕ
replies zero = answered 503 none
replies (suc zero) = broken
replies (suc (suc i)) = answered 200 (some 7)

handle_request_lem_example : IsHandled 2 0 replies (handle_request 2 replies)
handle_request_lem_example = handle_request_lem 2 replies

-- The service cannot be reached, then the stream breaks after a chunk.
abbrev streams : ℕ → Opened ℕ
streams zero = unreachable
streams (suc i) = opened 200 (skipped ∷ chunk 7 ∷ []) interrupted_in_time

abbrev arguments : Dict String Json
arguments =
    ("max_completion_tokens", number 100) ∷ ("max_tokens", number 200) ∷ ("tools", null) ∷ []

abbrev overriding : Dict String Json
overriding = ("logprobs", number 5) ∷ ("return_token_ids", boolean false) ∷ []

build_completion_body_lem_example :
    get "logprobs" (build_completion_body null null true overriding) ≡ some (number 1)
unfolding get contains
build_completion_body_lem_example =
    build_completion_body_lem "logprobs" null null true overriding (refl, (refl, tt))
