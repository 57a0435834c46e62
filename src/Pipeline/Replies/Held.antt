-- ===== src/Pipeline/Replies/Held.antt =====
-- What the stages of a request that is not streamed leave in the context, from the response on
-- (traj_proxy/proxy_core/pipeline/token_pipeline.py).
use trajproxy.Base.{
  ℕ, ◌≡◌, refl, sym, ap, ◌∙◌, false, Option, none, some, List, [], ◌∷◌, ◌++◌, ◌&&◌, arith,
}
use trajproxy.Models.{ok}
use trajproxy.Texts.{Text, or_empty}
use trajproxy.ToolCalls.{Entry, missing, null, value, is_null}
use trajproxy.Direct.{Usage}
use trajproxy.Responses.Ints.{ℤ}
use trajproxy.Responses.{InferChunk, parse_token_ids_from_text}
use trajproxy.Pipeline.Replies.{
  ReplyContext, Parts, Stage, with_ids, run_next, ◌then_do◌, decode_text, decode_parsed,
  update_stats, ids_or, joined_conversation, conclude_reply, build_response, stats_stage,
  stats_from, build_stage,
}
use trajproxy.Pipeline.Replies.Formats.{is_nil}

-- The context of a new request.
abbrev pub new_context : {J R : Type 0} → ReplyContext J R
new_context = record {
  prompt_text = none;
  token_ids = none;
  prompt_tokens = none;
  token_response = none;
  response_text = none;
  response_ids = none;
  completion_tokens = none;
  total_tokens = none;
  raw_response = none;
  full_conversation_text = none;
  full_conversation_token_ids = none;
  error = none;
}

-- The ids of an answer with this text and these ids: its own, or those that its text lists.
abbrev pub reply_ids : (ℕ → Option ℕ) → Option Text × Option (List ℤ) → Option (List ℤ)
reply_ids digit (text, ids) = elim (or_empty ids) [
  | z ∷ zs ↦ some (z ∷ zs)
  | [] ↦ parse_token_ids_from_text digit (or_empty text)
]

-- The text of such an answer: that of its ids, or else its own.
abbrev pub reply_text : (ℕ → Option ℕ) → (List ℤ → Text) → Option Text × Option (List ℤ) → Text
reply_text digit decode answer = elim (reply_ids digit answer) [
  | some ids ↦ decode ids
  | none ↦ or_empty answer.0
]

-- The prompt, and the answer with its text and its ids.
pub record Holds {J R : Type 0} (decode : List ℤ → Text) (prompt : Text) (ids : List ℤ) (t : Text)
    (zs : Option (List ℤ)) (c : ReplyContext J R) : Type 0 where
  pub prompt_lem : c.prompt_text ≡ some prompt
  pub ids_lem : c.token_ids ≡ some ids
  pub text_lem : c.response_text ≡ some t
  pub response_ids_lem : c.response_ids ≡ zs
  pub agrees : ids_or t decode zs ≡ t
  pub no_error : c.error ≡ none

-- The conversation of a request that was answered with the text `t` and the ids `zs`.
pub record IsReply {J R : Type 0} (prompt : Text) (ids : List ℤ) (t : Text) (zs : Option (List ℤ))
    (c : ReplyContext J R) : Type 0 where
  pub text : c.response_text ≡ some t
  pub response_ids : c.response_ids ≡ zs
  pub full_text : c.full_conversation_text ≡ some (prompt ++ t)
  pub full_ids : c.full_conversation_token_ids ≡ joined_conversation (some ids) zs
  pub no_error : c.error ≡ none

module _ {J R : Type 0} where
  pub then_do-ok :
      (first next : Stage J R) (c c' : ReplyContext J R)
      → first c ≡ (ok tt, c')
      → (first then_do next) c ≡ next c'
  then_do-ok first next c c' e = ap (run_next next) e

  pub decode_parsed-Holds :
      (digit : ℕ → Option ℕ) (decode : List ℤ → Text) (answer : Option Text × Option (List ℤ))
      (c : ReplyContext J R) (prompt : Text) (ids : List ℤ)
      → c.prompt_text ≡ some prompt
      → c.token_ids ≡ some ids
      → c.error ≡ none
      → (is_nil (or_empty answer.0) && is_nil (or_empty answer.1)) ≡ false
      → Holds decode prompt ids
          (reply_text digit decode answer)
          (reply_ids digit answer)
          (decode_parsed digit decode answer c)
  unfolding decode_parsed decode_text
  decode_parsed-Holds digit decode (text, ids') c prompt ids p i n some_part =
      go (or_empty ids') (or_empty text) refl refl
    where
      Goal : Type 0
      Goal =
          Holds decode prompt ids (reply_text digit decode (text, ids'))
            (reply_ids digit (text, ids')) (decode_parsed digit decode (text, ids') c)

      agree : (zs : List ℤ) → ids_or (decode zs) decode (some zs) ≡ decode zs
      agree [] = refl
      agree (z ∷ zs) = refl

      -- The context that an answer with ids leaves, and one without.
      with_some :
          (zs : List ℤ) → Holds decode prompt ids (decode zs) (some zs) (with_ids decode zs c)
      with_some zs = record {
        prompt_lem = p;
        ids_lem = i;
        text_lem = refl;
        response_ids_lem = refl;
        agrees = agree zs;
        no_error = n;
      }

      with_text :
          (t : Text)
          → Holds decode prompt ids t none
              (record c { response_text = some t; response_ids = none })
      with_text t = record {
        prompt_lem = p;
        ids_lem = i;
        text_lem = refl;
        response_ids_lem = refl;
        agrees = refl;
        no_error = n;
      }

      result : ReplyContext J R
      result = decode_parsed digit decode (text, ids') c

      so :
          {t : Text} {zs : Option (List ℤ)} {c' : ReplyContext J R}
          → reply_text digit decode (text, ids') ≡ t
          → reply_ids digit (text, ids') ≡ zs
          → result ≡ c'
          → Holds decode prompt ids t zs c'
          → Goal
      so {t} {zs} a b d h = record {
        prompt_lem = ap (λ (x : ReplyContext J R). x.prompt_text) d ∙ h.prompt_lem;
        ids_lem = ap (λ (x : ReplyContext J R). x.token_ids) d ∙ h.ids_lem;
        text_lem = ap (λ (x : ReplyContext J R). x.response_text) d ∙ h.text_lem ∙ ap some (sym a);
        response_ids_lem =
            ap (λ (x : ReplyContext J R). x.response_ids) d ∙ h.response_ids_lem ∙ sym b;
        agrees =
            ap (λ x. ids_or x decode (reply_ids digit (text, ids'))) a
            ∙ ap (ids_or t decode) b
            ∙ h.agrees
            ∙ sym a;
        no_error = ap (λ (x : ReplyContext J R). x.error) d ∙ h.no_error;
      }

      read :
          (x : ℕ) (t : Text) (m : Option (List ℤ))
          → parse_token_ids_from_text digit (x ∷ t) ≡ m
          → or_empty ids' ≡ []
          → or_empty text ≡ x ∷ t
          → Goal
      read x t none f e g =
          so (ground (arith, e, f, g)) (ground (arith, e, f, g)) (ground (arith, e, f, g))
            (with_text (x ∷ t))
      read x t (some zs) f e g =
          so (ground (arith, e, f, g)) (ground (arith, e, f, g)) (ground (arith, e, f, g))
            (with_some zs)

      go : (zs : List ℤ) (t : Text) → or_empty ids' ≡ zs → or_empty text ≡ t → Goal
      go (z ∷ zs) t e f =
          so (ground (arith, e)) (ground (arith, e)) (ground (arith, e)) (with_some (z ∷ zs))
      go [] [] e f = absurd (ground (arith, some_part, e, f))
      go [] (x ∷ t) e f = read x t _ refl e f

  pub decode_parsed_still :
      (digit : ℕ → Option ℕ) (decode : List ℤ → Text) (text : Option Text) (ids' : Option (List ℤ))
      (c : ReplyContext J R)
      → (decode_parsed digit decode (text, ids') c).token_response ≡ c.token_response
  unfolding decode_parsed decode_text
  decode_parsed_still digit decode text ids' c = go (or_empty ids') (or_empty text) refl refl
    where
      read :
          (x : ℕ) (t : Text) (m : Option (List ℤ))
          → parse_token_ids_from_text digit (x ∷ t) ≡ m
          → (decode_text digit decode (x ∷ t) c).token_response ≡ c.token_response
      read x t none f = rw (f, decode_text) refl
      read x t (some zs) f = rw (f, decode_text) refl

      go :
          (zs : List ℤ) (t : Text)
          → or_empty ids' ≡ zs
          → or_empty text ≡ t
          → (decode_parsed digit decode (text, ids') c).token_response ≡ c.token_response
      go (z ∷ zs) t e f = rw (e, decode_parsed) refl
      go [] [] e f = rw (e, decode_parsed) (rw (f, decode_text) refl)
      go [] (x ∷ t) e f = rw (e, decode_parsed) (rw f (read x t _ refl))

  pub stats_stage-known :
      (r : InferChunk J) (c : ReplyContext J R)
      → c.token_response ≡ some r
      → stats_stage c ≡ update_stats r.usage c
  unfolding stats_stage
  stats_stage-known r c e = ap (λ o. stats_from o c) e

  pub update_stats-Holds :
      (u : Entry (Usage J)) (c : ReplyContext J R) {decode : List ℤ → Text} {prompt : Text}
      {ids : List ℤ} {t : Text} {zs : Option (List ℤ)}
      → is_null u ≡ false
      → Holds decode prompt ids t zs c
      → (c' : ReplyContext J R) × (update_stats u c ≡ (ok tt, c')) × Holds decode prompt ids t zs c'
  unfolding update_stats
  update_stats-Holds missing c n h = (
    _,
    refl,
    record {
      prompt_lem = h.prompt_lem;
      ids_lem = h.ids_lem;
      text_lem = h.text_lem;
      response_ids_lem = h.response_ids_lem;
      agrees = h.agrees;
      no_error = h.no_error;
    },
  )
  update_stats-Holds null c n h = absurd (ground (arith, n))
  update_stats-Holds (value u) c n h = (
    _,
    refl,
    record {
      prompt_lem = h.prompt_lem;
      ids_lem = h.ids_lem;
      text_lem = h.text_lem;
      response_ids_lem = h.response_ids_lem;
      agrees = h.agrees;
      no_error = h.no_error;
    },
  )

  pub conclude_reply-IsReply :
      (decode : List ℤ → Text) (response : R) (c : ReplyContext J R) {prompt : Text} {ids : List ℤ}
      {t : Text} {zs : Option (List ℤ)}
      → Holds decode prompt ids t zs c
      → IsReply prompt ids t zs (conclude_reply decode response c)
  unfolding conclude_reply
  conclude_reply-IsReply decode response c {prompt} {ids} {t} {zs} h =
      let said : ids_or (or_empty c.response_text) decode c.response_ids ≡ t =
        ap (λ (o : Option Text). ids_or (or_empty o) decode c.response_ids) h.text_lem
        ∙ ap (ids_or t decode) h.response_ids_lem
        ∙ h.agrees in
      record {
        text = ap some said;
        response_ids = h.response_ids_lem;
        full_text =
            ap (λ o. some (or_empty o ++ ids_or (or_empty c.response_text) decode c.response_ids))
              h.prompt_lem
            ∙ ap (λ x. some (prompt ++ x)) said;
        full_ids =
            ap (λ o. joined_conversation o c.response_ids) h.ids_lem
            ∙ ap (joined_conversation (some ids)) h.response_ids_lem;
        no_error = h.no_error;
      }

pub build_stage-ok :
    {J R P : Type 0} (parts : Parts J R P) (p : P) (c : ReplyContext J R) (x : R)
    → parts.create ≡ ok p
    → parts.build_reply p (ids_or (or_empty c.response_text) parts.decode_clean c.response_ids) c
      ≡ ok x
    → build_stage parts c ≡ (ok tt, conclude_reply parts.decode_all x c)
unfolding build_stage build_response
build_stage-ok parts p c x e f = rw e (rw f refl)
