-- ===== src/Encoding/Decoding/Windows.antt =====
-- What the texts of `TokenConverter.decode_streaming` have to do with the decoding of all tokens
-- (traj_proxy/proxy_core/converters/token_converter.py).
use trajproxy.Base.{
  ℕ, zero, suc, ◌≤◌, ◌-◌, ◌+◌, ◌≡◌, refl, sym, ap, ◌∙◌, true, false, ◌⊎◌, List, [], ◌∷◌, ◌++◌, leb,
  nat_beq, ◌||◌, length, take, drop, arith, take-append-drop, drop-length-append,
  take-length-append, Bool-cases, inl, inr,
}
use trajproxy.Texts.{Text, starts_with}
use trajproxy.Texts.Laws.{starts_with-split}
use trajproxy.Encoding.Decoding.{Stream, realign, extend, decode_streaming}

-- The text, the tokens and the checkpoint agree.
pub record IsAligned {T : Type 0} (decode : List T → Text) (s : Stream T) : Type 0 where
  pub text : s.stream_buffer_text ≡ decode s.stream_buffer_ids
  pub checkpoint : s.stream_decode_checkpoint_len ≡ length s.stream_buffer_ids

take-split : {A : Type 0} (n : ℕ) (xs ys : List A) → n ≡ length xs → take n (xs ++ ys) ≡ xs
take-split n xs ys h = ap (λ k. take k (xs ++ ys)) h ∙ take-length-append xs ys

drop-append :
    {A : Type 0} (n : ℕ) (xs ys : List A) → n ≤ length xs → drop n (xs ++ ys) ≡ drop n xs ++ ys
drop-append zero xs ys h = refl
drop-append (suc n) [] ys h = ground (arith, h)
drop-append (suc n) (x ∷ xs) ys h = drop-append n xs ys (omega (arith, h))

-- What the fast path relies on: no tokens have no text, and what new tokens append behind a window
-- of four tokens or more they also append behind all tokens that end with this window.
-- This is the reason that the code gives for its window: it covers the characters of several bytes
-- across the boundary of two tokens.
pub record IsDecoder {T : Type 0} (decode : List T → Text) : Type 0 where
  pub nothing : decode [] ≡ []
  pub local :
      (a o b : List T) (x : Text)
      → 4 ≤ length o
      → decode (o ++ b) ≡ decode o ++ x
      → decode ((a ++ o) ++ b) ≡ decode (a ++ o) ++ x

-- The new tokens only append text to that of the tokens before.
abbrev pub Appends : {T : Type 0} → (List T → Text) → List T → List T → Type 0
Appends decode before ids = (x : Text) × (decode (before ++ ids) ≡ decode before ++ x)

-- So does every chunk of a stream: no character is cut in two between two chunks.
abbrev pub AllAppend : {T : Type 0} → (List T → Text) → List T → List (List T) → Type 0
AllAppend decode before [] = Unit
AllAppend decode before (ids ∷ rest) =
    Appends decode before ids × AllAppend decode (before ++ ids) rest

length-drop-least : {A : Type 0} (n : ℕ) (xs : List A) → length xs ≤ n + length (drop n xs)
length-drop-least zero xs = omega arith
length-drop-least (suc n) [] = omega arith
length-drop-least (suc n) (x ∷ xs) = omega (arith, length-drop-least n xs)

-- The window has four tokens, if there are so many.
window_length :
    {T : Type 0} (n : ℕ) (b : List T) → n ≡ length b - 4 → (4 ≤ length (drop n b)) ⊎ (n ≡ 0)
window_length n b at = omega (arith, at, length-drop-least n b)

module _ {T : Type 0} (decode : List T → Text) where
  -- What a call says of the new tokens, and what it leaves in the buffers.
  abbrev pub Extends : List T → List T → Text × Stream T → Type 0
  Extends b ids r =
      (decode (b ++ ids) ≡ decode b ++ r.0)
      × IsAligned decode r.1
      × (r.1.stream_buffer_ids ≡ b ++ ids)

  realign-Extends :
      (b ids : List T) (s : Stream T)
      → s.stream_buffer_ids ≡ b
      → IsAligned decode s
      → Appends decode b ids
      → Extends b ids (realign decode (b ++ ids) s)
  unfolding realign
  realign-Extends b ids s same h (x, e) = (
    ground (arith, e, h.text, same, drop-length-append (decode b) x),
    record { text = refl; checkpoint = refl },
    refl,
  )

  -- What is appended behind the window is appended behind all tokens.
  behind_window :
      (laws : IsDecoder decode) (n : ℕ) (b ids : List T) (x : Text)
      → n ≡ length b - 4
      → decode (drop n b ++ ids) ≡ decode (drop n b) ++ x
      → decode (b ++ ids) ≡ decode b ++ x
  behind_window laws n b ids x at e = elim (window_length n b at) [
    | inl long ↦ rw (take-append-drop n b) at (laws.local (take n b) (drop n b) ids x long e)
    | inr all ↦ rw all at e
  ]

  extend-Extends :
      (laws : IsDecoder decode) (n : ℕ) (b ids : List T) (s : Stream T)
      → s.stream_buffer_ids ≡ b
      → IsAligned decode s
      → n ≡ s.stream_decode_checkpoint_len - 4
      → Appends decode b ids
      → Extends b ids (extend decode (b ++ ids) s)
  unfolding extend
  extend-Extends laws n b ids s same h at grows =
      elim (Bool-cases (starts_with (decode (drop n b ++ ids)) (decode (drop n b)))) [
        | inr lost ↦ rw (fallback lost) (realign-Extends b ids s same h grows)
        | inl kept ↦
            let x = drop (length (decode (drop n b))) (decode (drop n b ++ ids)) in
            let e = starts_with-split (decode (drop n b ++ ids)) (decode (drop n b)) kept in
            let all = behind_window laws n b ids x from e in
            rw (fast kept) (
              all,
              record {
                text = ap (λ t. t ++ x) (h.text ∙ ap decode same) ∙ sym all;
                checkpoint = refl;
              },
              refl,
            )
      ]
    where
      begun : s.stream_decode_checkpoint_len ≡ length b
      begun = h.checkpoint ∙ ap length same

      from : n ≡ length b - 4
      from = omega (arith, at, begun)

      cut : drop n (b ++ ids) ≡ drop n b ++ ids
      cut = drop-append n b ids (omega (arith, from))

      old : take s.stream_decode_checkpoint_len (b ++ ids) ≡ b
      old = take-split s.stream_decode_checkpoint_len b ids begun

      fallback :
          starts_with (decode (drop n b ++ ids)) (decode (drop n b)) ≡ false
          → extend decode (b ++ ids) s ≡ realign decode (b ++ ids) s
      fallback lost = ground (arith, at, cut, old, lost)

      fast :
          starts_with (decode (drop n b ++ ids)) (decode (drop n b)) ≡ true
          → let x = drop (length (decode (drop n b))) (decode (drop n b ++ ids)) in
            extend decode (b ++ ids) s ≡ (
              x,
              record {
                stream_buffer_ids = b ++ ids;
                stream_buffer_text = s.stream_buffer_text ++ x;
                stream_decode_checkpoint_len = length (b ++ ids);
              },
            )
      fast kept = ground (arith, at, cut, old, kept)

  pub decode_streaming-Extends :
      (laws : IsDecoder decode) (ids : List T) (s : Stream T)
      → IsAligned decode s
      → Appends decode s.stream_buffer_ids ids
      → Extends s.stream_buffer_ids ids (decode_streaming decode ids s)
  unfolding decode_streaming
  decode_streaming-Extends laws ids s h grows =
      elim (Bool-cases (
        nat_beq s.stream_decode_checkpoint_len 0
        || leb 32 (length (s.stream_buffer_ids ++ ids) - s.stream_decode_checkpoint_len))) [
          | inl full ↦
              rw (full, decode_streaming) (realign-Extends s.stream_buffer_ids ids s refl h grows)
          | inr part ↦
              rw (part, decode_streaming)
                (extend-Extends laws (s.stream_decode_checkpoint_len - 4) s.stream_buffer_ids ids s
                  refl h refl grows)
        ]
