-- ===== src/Parsers/Decoded.antt =====
-- A model without parsers: the loop of a stream of the token pipeline (`process_stream` of
-- traj_proxy/proxy_core/pipeline/token_pipeline.py).
use trajproxy.Base.{ℕ, ◌≡◌, Bool, Option, List, [], ◌∷◌, ◌++◌}
use trajproxy.Texts.{Text}
use trajproxy.Encoding.Decoding.Windows.{IsAligned, Appends}
use trajproxy.Responses.Ints.{ℤ}
use trajproxy.Pipeline.{StreamContext}
use trajproxy.Pipeline.Chunks.{Setup}
use trajproxy.Pipeline.Streams.{Arrival, chunk, broken, cancelled}
use trajproxy.Pipeline.Kept.{ids_of}
use trajproxy.Parsers.{ToolChoice, Machine}
use trajproxy.Parsers.Deltas.{parser_of}
use trajproxy.Parsers.Plain.{plain}

-- The setup of a request to such a model.
abbrev pub plain_setup :
    {P : Type 0}
    → ToolChoice
    → (List ℤ → Text)
    → (ℕ → Option ℕ)
    → List ℤ
    → (ℕ → Bool)
    → Setup (Machine P)
plain_setup choice decode digit prompt closes = record {
  decode = decode;
  digit = digit;
  parser = parser_of plain choice;
  prompt_ids = prompt;
  closes = closes;
}

-- Every chunk that arrives only appends text to that of the token ids before it.
abbrev pub AllArriveAppending :
    {J : Type 0} → (List ℤ → Text) → (ℕ → Option ℕ) → List ℤ → List (Arrival J) → Type 0
AllArriveAppending decode digit before [] = Unit
AllArriveAppending decode digit before (broken e ∷ more) = Unit
AllArriveAppending decode digit before (cancelled ∷ more) = Unit
AllArriveAppending decode digit before (chunk c ∷ more) =
    Appends decode before (ids_of digit c)
    × AllArriveAppending decode digit (before ++ ids_of digit c) more

-- What a handled chunk says, and what it leaves in the buffers.
record Grows {J : Type 0} (decode : List ℤ → Text) (ids : List ℤ) (s s' : StreamContext J)
    (t : Text) : Type 0 where
  pub grows : decode (s.decoded.stream_buffer_ids ++ ids) ≡ decode s.decoded.stream_buffer_ids ++ t
  pub aligned : IsAligned decode s'.decoded
