-- ===== src/Encoding/Decoding.antt =====
-- `TokenConverter.decode_streaming`: `decode` is the tokenizer's, with `skip_special_tokens=True`.
pub mod Windows
use trajproxy.Base.{
  ℕ, zero, suc, ◌≤◌, ◌<◌, ◌-◌, ◌+◌, ◌≡◌, refl, sym, ap, ◌∙◌, true, false, ◌⊎◌, List, [], ◌∷◌, ◌++◌,
  leb, nat_beq, if◌then◌else◌, ◌||◌, length, take, drop, arith, take-append-drop, append_assoc,
  append-nil, drop-length-append, take-length-append, length-append, Bool-cases, inl, inr,
}
use trajproxy.Texts.{Text, starts_with}
use trajproxy.Texts.Laws.{starts_with-split}
use mathlib.Core.Path.{subst}

-- The three fields of `ProcessContext` that it uses; `T` are the tokens.
pub record Stream (T : Type 0) : Type 0 where
  pub stream_buffer_ids : List T
  pub stream_buffer_text : Text
  pub stream_decode_checkpoint_len : ℕ

unfoldable pub stream_init : {T : Type 0} → Stream T
stream_init = record {
  stream_buffer_ids = [];
  stream_buffer_text = [];
  stream_decode_checkpoint_len = 0;
}

-- Everything is decoded again; the text that was sent already is cut off.
unfoldable pub realign : {T : Type 0} → (List T → Text) → List T → Stream T → Text × Stream T
realign decode buffer s =
    let full_text = decode buffer in
    (
      drop (length s.stream_buffer_text) full_text,
      record {
        stream_buffer_ids = buffer;
        stream_buffer_text = full_text;
        stream_decode_checkpoint_len = length buffer;
      },
    )

-- Only the last four tokens before the checkpoint and the new ones are decoded.
unfoldable pub extend : {T : Type 0} → (List T → Text) → List T → Stream T → Text × Stream T
unfolding realign
extend decode buffer s =
    let start = s.stream_decode_checkpoint_len - 4 in
    let segment_text = decode (drop start buffer) in
    let overlap_text = decode (drop start (take s.stream_decode_checkpoint_len buffer)) in
    let new_text = drop (length overlap_text) segment_text in
    if starts_with segment_text overlap_text
    then (
      new_text,
      record {
        stream_buffer_ids = buffer;
        stream_buffer_text = s.stream_buffer_text ++ new_text;
        stream_decode_checkpoint_len = length buffer;
      },
    )
    else realign decode buffer s

unfoldable pub decode_streaming :
    {T : Type 0} → (List T → Text) → List T → Stream T → Text × Stream T
unfolding realign extend
decode_streaming decode token_ids s =
    let buffer = s.stream_buffer_ids ++ token_ids in
    if nat_beq s.stream_decode_checkpoint_len 0
      || leb 32 (length buffer - s.stream_decode_checkpoint_len)
    then realign decode buffer s
    else extend decode buffer s

-- The chunks of a response in turn: the texts that are sent, joined.
unfoldable pub decode_chunks :
    {T : Type 0} → (List T → Text) → List (List T) → Stream T → Text × Stream T
unfolding decode_streaming
decode_chunks decode [] s = ([], s)
decode_chunks decode (ids ∷ rest) s =
    let (text, s') = decode_streaming decode ids s in
    let (texts, s'') = decode_chunks decode rest s' in (text ++ texts, s'')

abbrev pub joined {ℓ} : {A : Type ℓ} → List (List A) → List A
joined [] = []
joined (x ∷ xs) = x ++ joined xs

-- A stream that has begun is aligned at its checkpoint, whatever the tokenizer does.
pub decode_streaming-checkpoint :
    {T : Type 0} (decode : List T → Text) (ids : List T) (s : Stream T)
    → ((decode_streaming decode ids s).1.stream_decode_checkpoint_len
        ≡ length (decode_streaming decode ids s).1.stream_buffer_ids)
      × ((decode_streaming decode ids s).1.stream_buffer_ids ≡ s.stream_buffer_ids ++ ids)
unfolding decode_streaming extend realign
decode_streaming-checkpoint decode ids s = (ground arith, ground arith)

-- Whatever the tokenizer does, after a call with tokens the next call takes the branch of the full
-- decoding exactly if it brings 32 tokens or more itself: what earlier calls brought is not counted.
-- Otherwise it takes the incremental one, which decodes everything only where the window's text is
-- not kept.
pub decode_streaming-interval :
    {T : Type 0} (decode : List T → Text) (ids ids' : List T) (s : Stream T)
    → 0 < length ids
    → decode_streaming decode ids' (decode_streaming decode ids s).1 ≡ (
        if leb 32 (length ids')
        then realign decode ((s.stream_buffer_ids ++ ids) ++ ids') (decode_streaming decode ids s).1
        else extend decode ((s.stream_buffer_ids ++ ids) ++ ids') (decode_streaming decode ids s).1)
unfolding decode_streaming
decode_streaming-interval {T} decode ids ids' s h =
    let (at, all) = decode_streaming-checkpoint decode ids s in
    go (decode_streaming decode ids s).1 at all
  where
    go :
        (s' : Stream T)
        → s'.stream_decode_checkpoint_len ≡ length s'.stream_buffer_ids
        → s'.stream_buffer_ids ≡ s.stream_buffer_ids ++ ids
        → decode_streaming decode ids' s' ≡ (
            if leb 32 (length ids')
            then realign decode ((s.stream_buffer_ids ++ ids) ++ ids') s'
            else extend decode ((s.stream_buffer_ids ++ ids) ++ ids') s')
    go s' at all = ground (
      arith,
      at,
      all,
      h,
      length-append s.stream_buffer_ids ids,
      length-append (s.stream_buffer_ids ++ ids) ids',
    )
