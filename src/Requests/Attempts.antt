-- ===== src/Requests/Attempts.antt =====
-- The attempts of a request that is not streamed.
use trajproxy.Base.{
  ℕ, zero, suc, ◌+◌, ◌^◌, ◌≤◌, ◌<◌, ◌≡◌, refl, sym, ap, ◌∙◌, true, false, List, [], ◌∷◌, arith,
  Bool-cases, le_cases, inl, inr, ◌⊎◌,
}
use trajproxy.Requests.{Reply, Handled, is_retryable, conclude, handle_from, handle_request}

-- The powers of two from an exponent on.
unfoldable pub doubling : ℕ → ℕ → List ℕ
doubling first zero = []
doubling first (suc n) = 2 ^ first ∷ doubling (suc first) n

-- What the loop has done when it ends: from `first` on at most `left` more attempts.
pub record IsHandled {B : Type 0} (left first : ℕ) (replies : ℕ → Reply B) (h : Handled B)
    : Type 0 where
  pub from : first ≤ h.retry_count
  pub until : h.retry_count ≤ first + left
  pub result : h.verdict ≡ conclude (replies h.retry_count)
  pub before : (i : ℕ) → first ≤ i → i < h.retry_count → is_retryable (replies i) ≡ true
  pub last : (h.retry_count ≡ first + left) ⊎ (is_retryable (replies h.retry_count) ≡ false)
  pub retries : ℕ
  pub counted : h.retry_count ≡ first + retries
  pub slept : h.waits ≡ doubling first retries

handle_from-IsHandled :
    {B : Type 0} (left first : ℕ) (replies : ℕ → Reply B)
    → IsHandled left first replies (handle_from left first replies)
unfolding handle_from doubling
handle_from-IsHandled zero first replies = record {
  from = omega arith;
  until = omega arith;
  result = refl;
  before = λ i p q. ground (arith, p, q);
  last = inl (omega arith);
  retries = 0;
  counted = omega arith;
  slept = refl;
}
handle_from-IsHandled (suc left) first replies = elim (Bool-cases (is_retryable (replies first))) [
  | inr no_more ↦
      rw (no_more, handle_from)
        (record {
          from = omega arith;
          until = omega arith;
          result = refl;
          before = λ i p q. ground (arith, p, q);
          last = inr no_more;
          retries = 0;
          counted = omega arith;
          slept = refl;
        })
  | inl retry ↦
      let h = handle_from-IsHandled left (suc first) replies in
      rw (retry, handle_from)
        (record {
          from = omega (arith, h.from);
          until = omega (arith, h.until);
          result = h.result;
          before = λ i p q. go retry h i p q;
          last = elim h.last [ inl most ↦ inl (omega (arith, most)) | inr no_more ↦ inr no_more ];
          retries = suc h.retries;
          counted = omega (arith, h.counted);
          slept = ap (λ l. 2 ^ first ∷ l) h.slept;
        })
]
  where
    go :
        is_retryable (replies first) ≡ true
        → IsHandled left (suc first) replies (handle_from left (suc first) replies)
        → (i : ℕ) → first ≤ i
        → i < (handle_from left (suc first) replies).retry_count
        → is_retryable (replies i) ≡ true
    go retry h i p q = elim (le_cases first i p) [
      | inl same ↦ ap (λ k. is_retryable (replies k)) (sym same) ∙ retry
      | inr later ↦ h.before i later q
    ]

-- With `n` retries the request comes to what its last attempt comes to; all attempts before it
-- were retryable; it is the last because no retry is left or because it is not retryable; and the
-- times slept before each of the retries are 1, 2, 4 and so on.
pub handle_request_lem :
    {B : Type 0} (n : ℕ) (replies : ℕ → Reply B) → IsHandled n 0 replies (handle_request n replies)
unfolding handle_request
handle_request_lem n replies = handle_from-IsHandled n 0 replies
