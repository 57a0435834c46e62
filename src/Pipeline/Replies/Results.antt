-- ===== src/Pipeline/Replies/Results.antt =====
-- What comes of a request that is not streamed (`process` of
-- traj_proxy/proxy_core/pipeline/token_pipeline.py), from the prompt to the stored conversation.
use trajproxy.Base.{
  ◌≡◌, refl, ap, ◌∙◌, Bool, true, false, Option, some, List, if◌then◌else◌, length, inl, inr, ◌⊎◌,
}
use trajproxy.Models.{Result, ok, raise, Error, type_error, database_error}
use trajproxy.Texts.{Text, or_empty}
use trajproxy.ToolCalls.{is_null}
use trajproxy.Responses.Ints.{ℤ}
use trajproxy.Responses.{InferChunk, parse_text_response}
use trajproxy.Pipeline.Replies.{
  ReplyContext, Parts, Stage, run_next, ◌then_do◌, decode_parsed, decode_response, ids_or,
  conclude_reply, transform_messages, encode_prompt, infer_reply, decode_stage, stats_stage,
  build_stage, reply_stages,
}
use trajproxy.Pipeline.Replies.Runs.{process, store_stages, store_outcome, with_error, row_of}
use trajproxy.Pipeline.Replies.Formats.{is_empty_reply, decode_response-raises}
use trajproxy.Pipeline.Replies.Held.{
  new_context, reply_ids, reply_text, IsReply, then_do-ok, decode_parsed-Holds, decode_parsed_still,
  stats_stage-known, update_stats-Holds, conclude_reply-IsReply, build_stage-ok,
}

-- A database that stores the row, or fails as a database does.
abbrev pub IsDatabase : {J R : Type 0} → (ReplyContext J R → Result (Unit {0})) → Type 0
IsDatabase insert = (c : ReplyContext _ _) → (insert c ≡ ok tt) ⊎ (insert c ≡ raise database_error)

module _ {J R P : Type 0} (parts : Parts J R P) (prompt : Text) (ids : List ℤ) (r : InferChunk J)
    (p : P) (transformed : parts.transform ≡ ok prompt) (encoded : parts.encode prompt ≡ ok ids)
    (answered : parts.infer ids ≡ ok r) where
  -- The context after the answer of the service.
  abbrev fetched : ReplyContext J R
  fetched = record new_context {
    prompt_text = some prompt;
    token_ids = some ids;
    prompt_tokens = some (length ids);
    token_response = some r;
  }

  abbrev fetch : Stage J R
  fetch = transform_messages parts then_do encode_prompt parts then_do infer_reply parts

  fetch_lem : fetch new_context ≡ (ok tt, fetched)
  fetch_lem =
      let begin : ReplyContext J R = new_context in
      let c1 : ReplyContext J R = record begin { prompt_text = some prompt } in
      let c2 : ReplyContext J R = record c1 {
        token_ids = some ids;
        prompt_tokens = some (length ids);
      } in
      let e1 : transform_messages parts new_context ≡ (ok tt, c1) =
        unfold transform_messages in rw transformed refl in
      let e2 : encode_prompt parts c1 ≡ (ok tt, c2) = unfold encode_prompt in rw encoded refl in
      let e3 : infer_reply parts c2 ≡ (ok tt, fetched) = unfold infer_reply in rw answered refl in
      then_do-ok (transform_messages parts then_do encode_prompt parts) (infer_reply parts)
        new_context c2
        (then_do-ok (transform_messages parts) (encode_prompt parts) new_context c1 e1 ∙ e2)
      ∙ e3

  decode_stage-fetched : decode_stage parts fetched ≡ (
    (if is_empty_reply r then raise type_error else ok tt),
    decode_parsed parts.digit parts.decode_all (parse_text_response r) fetched,
  )
  unfolding decode_stage
  decode_stage-fetched =
      ap (λ x. (x, decode_parsed parts.digit parts.decode_all (parse_text_response r) fetched))
        (unfold decode_response in
          decode_response-raises parts.digit parts.decode_all r fetched refl)

  abbrev decoded : ReplyContext J R
  decoded = decode_parsed parts.digit parts.decode_all (parse_text_response r) fetched

  stages_before : Stage J R
  stages_before = fetch then_do decode_stage parts

  stages_before-fetched :
      stages_before new_context ≡ ((if is_empty_reply r then raise type_error else ok tt), decoded)
  unfolding stages_before
  stages_before-fetched =
      then_do-ok fetch (decode_stage parts) new_context fetched fetch_lem ∙ decode_stage-fetched

  -- What the service has answered: its ids and its text.
  abbrev read : Option (List ℤ)
  read = reply_ids parts.digit (parse_text_response r)

  abbrev said : Text
  said = reply_text parts.digit parts.decode_all (parse_text_response r)

  -- All stages, where each of them does its work.
  reply_stages-IsReply :
      is_empty_reply r ≡ false
      → is_null r.usage ≡ false
      → parts.create ≡ ok p
      → ((q : P) (t : Text) (c : ReplyContext J R) → (x : R) × (parts.build_reply q t c ≡ ok x))
      → (c : ReplyContext J R) × (reply_stages parts new_context ≡ (ok tt, c))
        × IsReply prompt ids said read c
  unfolding reply_stages stages_before
  reply_stages-IsReply some_part known created builds =
      let h =
        decode_parsed-Holds parts.digit parts.decode_all (parse_text_response r) fetched prompt ids
          refl refl refl some_part in
      let (c5, e5, h5) = update_stats-Holds r.usage decoded known h in
      let clean = ids_or (or_empty c5.response_text) parts.decode_clean c5.response_ids in
      let (x, built) = builds p clean c5 in
      let e4 : stages_before new_context ≡ (ok tt, decoded) =
        stages_before-fetched
        ∙ ap (λ (b : Bool). (if b then raise type_error else ok tt, decoded)) some_part in
      let still =
        decode_parsed_still parts.digit parts.decode_all (parse_text_response r).0
          (parse_text_response r).1 fetched in
      (
        conclude_reply parts.decode_all x c5,
        then_do-ok (stages_before then_do stats_stage) (build_stage parts) new_context c5 (
              then_do-ok stages_before stats_stage new_context decoded e4
              ∙ stats_stage-known r decoded still
              ∙ e5)
            ∙ build_stage-ok parts p c5 x created built,
        conclude_reply-IsReply parts.decode_all x c5 h5,
      )

  -- With neither ids nor a text the chain ends where the response is decoded.
  reply_stages-empty :
      is_empty_reply r ≡ true → reply_stages parts new_context ≡ (raise type_error, decoded)
  unfolding reply_stages stages_before
  reply_stages-empty nothing =
      ap (λ m. run_next (build_stage parts) (run_next stats_stage m))
        (stages_before-fetched
          ∙ ap (λ (b : Bool). (if b then raise type_error else ok tt, decoded)) nothing)

module _ {J R : Type 0} (store : ReplyContext J R → Result (Unit {0})) (c : ReplyContext J R) where
  -- A context that was reached without an exception is returned, and stored unless the database
  -- fails.
  store_stages-ok :
      IsDatabase store
      → ((store_stages (some store) (ok tt, c)).rows ≡ row_of (store c) c)
        × ((c' : ReplyContext J R) × ((store_stages (some store) (ok tt, c)).verdict ≡ ok c')
            × (c'.raw_response ≡ c.raw_response))
  unfolding store_stages store_outcome
  store_stages-ok db = elim (db c) [
    | inl e ↦ rw e (refl, (c, refl, refl))
    | inr e ↦ rw e (refl, (_, refl, refl))
  ]

  -- The context that an exception has left is given to the repository with it, and it is raised
  -- again.
  store_stages-raise :
      (x : Error)
      → ((store_stages (some store) (raise x, c)).rows
          ≡ row_of (store (with_error x c)) (with_error x c))
        × ((store_stages (some store) (raise x, c)).verdict ≡ raise x)
  unfolding store_stages
  store_stages-raise x = (refl, refl)

module _ {J R P : Type 0} (parts : Parts J R P) (prompt : Text) (ids : List ℤ) (r : InferChunk J)
    (p : P) (store : ReplyContext J R → Result (Unit {0})) where
  process-stages :
      (m : Result (Unit {0}) × ReplyContext J R)
      → parts.store_row ≡ some store
      → reply_stages parts new_context ≡ m
      → process parts new_context ≡ store_stages (some store) m
  unfolding process
  process-stages m i e =
      ap (λ x. store_stages x (reply_stages parts new_context)) i ∙ ap (store_stages (some store)) e

  -- A request that is not streamed, where the prompt is made, the service answers with token ids or
  -- a text, with a usage or without one but not with None, the parser is created, the builder
  -- raises nothing, and the database stores the row or fails as a database: the repository is given
  -- one row, and nothing is stored if it fails. The row has the ids of the answer, or those that
  -- its text lists, and their text, or else the text of the answer; the conversation's text is the
  -- prompt and this text, and its ids are the prompt's and these; and the request returns with the
  -- response of the row.
  pub process-IsReply :
      parts.transform ≡ ok prompt
      → parts.encode prompt ≡ ok ids
      → parts.infer ids ≡ ok r
      → parts.create ≡ ok p
      → is_null r.usage ≡ false
      → is_empty_reply r ≡ false
      → ((q : P) (t : Text) (c : ReplyContext J R) → (x : R) × (parts.build_reply q t c ≡ ok x))
      → parts.store_row ≡ some store
      → IsDatabase store
      → (c : ReplyContext J R) × (c' : ReplyContext J R) × ((process parts new_context).rows
          ≡ row_of (store c) c)
        × IsReply prompt ids
            (reply_text parts.digit parts.decode_all (parse_text_response r))
            (reply_ids parts.digit (parse_text_response r))
            c
        × ((process parts new_context).verdict ≡ ok c')
        × (c'.raw_response ≡ c.raw_response)
  process-IsReply e1 e2 e3 created known some_part builds inserts db =
      let (c, run, good) =
        reply_stages-IsReply parts prompt ids r p e1 e2 e3 some_part known created builds in
      let (rows, (c', verdict, same)) = store_stages-ok store c db in
      let all = process-stages _ inserts run in
      (c, c', ap (λ x. x.rows) all ∙ rows, good, ap (λ x. x.verdict) all ∙ verdict, same)

  -- Where the service answers with neither token ids nor a text, the request raises `TypeError`,
  -- the repository is given one row with this error, and nothing is stored if it raises itself.
  pub process-empty :
      parts.transform ≡ ok prompt
      → parts.encode prompt ≡ ok ids
      → parts.infer ids ≡ ok r
      → is_empty_reply r ≡ true
      → parts.store_row ≡ some store
      → (c : ReplyContext J R) × ((process parts new_context).rows ≡ row_of (store c) c)
        × (c.error ≡ some type_error)
        × ((process parts new_context).verdict ≡ raise type_error)
  process-empty e1 e2 e3 nothing inserts =
      let run = reply_stages-empty parts prompt ids r p e1 e2 e3 nothing in
      let all = process-stages _ inserts run in
      let left = decoded parts prompt ids r p e1 e2 e3 in
      let (rows, verdict) = store_stages-raise store left type_error in
      (
        with_error type_error left,
        ap (λ x. x.rows) all ∙ rows,
        refl,
        ap (λ x. x.verdict) all ∙ verdict,
      )
