-- ===== src/Direct/Parts.antt =====
-- How the parts of what is kept grow with each chunk of a stream.
use trajproxy.Base.{
  ℕ, suc, ◌≡◌, refl, sym, ap, ◌∙◌, Option, none, some, List, [], ◌∷◌, ◌++◌, map, append_assoc,
  append-nil, String, string_eq, ◌==◌, if◌then◌else◌, arith, Bool-cases, inl, inr, All, false,
}
use trajproxy.Base.Dict.{Dict, get, put}
use trajproxy.Base.Dict.Laws.{get-put}
use trajproxy.Models.{ok}
use trajproxy.Texts.{or_empty}
use trajproxy.ToolCalls.{
  Entry, missing, null, value, is_null, Piece, text_of, merge_each, values, merge_stream_tool_calls,
}
use trajproxy.Direct.{
  Usage, is_empty_usage, given, extended, latest, put_given, Choice, Chunk, Stream, add_usage,
  add_choice, accumulate, strip, stream_each, reasoning_of, choices_of, strip_choices, counted,
  Streamed,
}
use trajproxy.Direct.Final.{true_list, merged_calls}

extended_lem :
    {A : Type 0} (e : Entry (List A)) (old : Option (List A))
    → or_empty (extended e old) ≡ or_empty old ++ or_empty (given e)
unfolding extended
extended_lem missing old = sym (append-nil _)
extended_lem null old = sym (append-nil _)
extended_lem (value []) old = sym (append-nil _)
extended_lem (value (x ∷ xs)) old = refl

pub merged_lem :
    (pieces : Option (List Piece))
    → or_empty (merged_calls (true_list pieces)) ≡ merge_stream_tool_calls (or_empty pieces)
unfolding merge_stream_tool_calls merge_each values
merged_lem none = refl
merged_lem (some []) = refl
merged_lem (some (x ∷ xs)) = refl

module _ {J : Type 0} where
  -- What the first choices of the chunks bring, in their order.
  unfoldable pub brought : {A : Type 0} → (Choice J → List A) → List (Chunk J) → List A
  brought f [] = []
  brought f (c ∷ cs) = elim (choices_of c) [ [] ↦ brought f cs | x ∷ xs ↦ f x ++ brought f cs ]

  -- The last value of the key `k` that is not None.
  unfoldable pub last_value : String → Dict String (Option J) → Option J
  last_value k [] = none
  last_value k ((j, v) ∷ d) = elim (last_value k d) [
    | some w ↦ some w
    | none ↦ if j == k then v else none
  ]

  unfoldable pub last_metadata : String → List (Chunk J) → Option J
  unfolding last_value
  last_metadata k [] = none
  last_metadata k (c ∷ cs) = elim (last_metadata k cs) [
    | some w ↦ some w
    | none ↦ last_value k c.metadata
  ]

  abbrev pub or_before : Option J → Option J → Option J
  or_before (some w) old = some w
  or_before none old = old

  get-put_given :
      (k : String) (new : Dict String (Option J)) (d : Dict String J)
      → get k (put_given new d) ≡ or_before (last_value k new) (get k d)
  unfolding put_given last_value
  get-put_given k [] d = refl
  get-put_given k ((j, none) ∷ new) d = ground (arith, get-put_given k new d)
  get-put_given k ((j, some v) ∷ new) d =
      ground (arith, get-put_given k new (put j v d), get-put j k v d)

  -- No chunk has None as its choices.
  abbrev pub AreListed : List (Chunk J) → Type 0
  AreListed cs = All (λ (c : Chunk J). is_null c.choices ≡ false) cs

  -- A chunk without the internal fields.
  abbrev pub stripped : Chunk J → Chunk J
  stripped c = record c { choices = strip_choices c.choices; prompt_token_ids = missing }

  strip-ok : (c : Chunk J) → is_null c.choices ≡ false → strip c ≡ ok (stripped c)
  unfolding strip
  strip-ok c h = go c.choices refl
    where
      go : (e : Entry (List (Choice J))) → c.choices ≡ e → strip c ≡ ok (stripped c)
      go missing e =
          rw (e, strip)
            (ap (λ x. ok (record c { choices = strip_choices x; prompt_token_ids = missing })) e)
      go null e = absurd (ground (arith, h, e))
      go (value xs) e =
          rw (e, strip)
            (ap (λ x. ok (record c { choices = strip_choices x; prompt_token_ids = missing })) e)

  stream_each-cons :
      (c : Chunk J) (cs : List (Chunk J)) (s : Stream J)
      → is_null c.choices ≡ false
      → let next = stream_each cs (counted (accumulate c s)) in
        stream_each (c ∷ cs) s ≡ record next { sent = stripped c ∷ next.sent }
  unfolding stream_each
  stream_each-cons c cs s h = rw (strip-ok c h, stream_each) refl

  pub sent_lem :
      (cs : List (Chunk J)) (s : Stream J)
      → AreListed cs
      → ((stream_each cs s).sent ≡ map stripped cs) × ((stream_each cs s).ended ≡ ok tt)
  unfolding stream_each
  sent_lem [] s h = (refl, refl)
  sent_lem (c ∷ cs) s (h, hs) =
      let (sent, ended) = sent_lem cs (counted (accumulate c s)) hs in
      let e = stream_each-cons c cs s h in
      (
        ap (λ (x : Streamed J). x.sent) e ∙ ap (◌∷◌ (stripped c)) sent,
        ap (λ (x : Streamed J). x.ended) e ∙ ended,
      )

  -- What a chunk adds before its choice is looked at.
  unfoldable pub seen : Chunk J → Stream J → Stream J
  seen c s = add_usage c.usage (record s {
    response_metadata = put_given c.metadata s.response_metadata;
    prompt_token_ids = latest c.prompt_token_ids s.prompt_token_ids;
  })

  -- A part of the state that only a choice extends, by `f`.
  pub record Part (A : Type 0) (f : Choice J → List A) (part : Stream J → List A) : Type 0 where
    pub chosen : (x : Choice J) (s : Stream J) → part (add_choice x s) ≡ part s ++ f x
    pub before : (c : Chunk J) (s : Stream J) → part (seen c s) ≡ part s
    pub counted : (n : ℕ) (s : Stream J) → part (record s { chunk_count = n }) ≡ part s

  accumulate-Part :
      (A : Type 0) (f : Choice J → List A) (part : Stream J → List A)
      → Part A f part
      → (c : Chunk J) (s : Stream J) (xs : List (Choice J)) → choices_of c ≡ xs
      → part (accumulate c s) ≡ part s ++ elim xs [ [] ↦ [] | x ∷ rest ↦ f x ]
  unfolding accumulate seen
  accumulate-Part A f part h c s [] e =
      rw (e, accumulate) (h.before c s ∙ sym (append-nil (part s)))
  accumulate-Part A f part h c s (x ∷ xs) e =
      rw (e, accumulate) (h.chosen x (seen c s) ∙ ap (λ (l : List A). l ++ f x) (h.before c s))

  brought-cons :
      (A : Type 0) (f : Choice J → List A) (c : Chunk J) (cs : List (Chunk J))
      (xs : List (Choice J))
      → choices_of c ≡ xs
      → brought f (c ∷ cs) ≡ elim xs [ [] ↦ [] | x ∷ rest ↦ f x ] ++ brought f cs
  unfolding brought
  brought-cons A f c cs [] e = rw (e, brought) refl
  brought-cons A f c cs (x ∷ xs) e = rw (e, brought) refl

  pub part_lem :
      (A : Type 0) (f : Choice J → List A) (part : Stream J → List A)
      → Part A f part
      → (cs : List (Chunk J)) (s : Stream J) → AreListed cs
      → part (stream_each cs s).kept ≡ part s ++ brought f cs
  unfolding stream_each brought
  part_lem A f part h [] s l = sym (append-nil (part s))
  part_lem A f part h (c ∷ cs) s (l, ls) =
      let kept = accumulate c s in
      ap (λ (x : Streamed J). part x.kept) (stream_each-cons c cs s l)
      ∙ part_lem A f part h cs (counted kept) ls
      ∙ ap (λ (l : List A). l ++ brought f cs)
          (h.counted (suc kept.chunk_count) kept
            ∙ accumulate-Part A f part h c s (choices_of c) refl)
      ∙ append_assoc (part s) _ (brought f cs)
      ∙ ap (λ (l : List A). part s ++ l) (sym (brought-cons A f c cs (choices_of c) refl))

  -- What the counts of the tokens leave alone.
  record Unchanged (s s' : Stream J) : Type 0 where
    buffer_text : s'.buffer_text ≡ s.buffer_text
    reasoning : s'.reasoning ≡ s.reasoning
    tool_calls : s'.tool_calls ≡ s.tool_calls
    token_ids : s'.token_ids ≡ s.token_ids
    metadata : s'.response_metadata ≡ s.response_metadata

  refl-Unchanged : (s : Stream J) → Unchanged s s
  refl-Unchanged s = record {
    buffer_text = refl;
    reasoning = refl;
    tool_calls = refl;
    token_ids = refl;
    metadata = refl;
  }

  usage-Unchanged : (e : Entry (Usage J)) (s : Stream J) → Unchanged s (add_usage e s)
  unfolding add_usage
  usage-Unchanged missing s = refl-Unchanged s
  usage-Unchanged null s = refl-Unchanged s
  usage-Unchanged (value u) s = elim (Bool-cases (is_empty_usage u)) [
    | inl e ↦ rw (e, add_usage) (refl-Unchanged s)
    | inr e ↦
        rw (e, add_usage)
          (record {
            buffer_text = refl;
            reasoning = refl;
            tool_calls = refl;
            token_ids = refl;
            metadata = refl;
          })
  ]

  pub text-Part : Part ℕ (λ x. text_of x.delta.content) (λ s. s.buffer_text)
  unfolding add_choice seen
  text-Part = record {
    chosen = λ x s. refl;
    before = λ c s. (usage-Unchanged c.usage _).buffer_text;
    counted = λ n s. refl;
  }

  pub reasoning-Part : Part ℕ (λ x. reasoning_of x.delta) (λ s. s.reasoning)
  unfolding add_choice seen
  reasoning-Part = record {
    chosen = λ x s. refl;
    before = λ c s. (usage-Unchanged c.usage _).reasoning;
    counted = λ n s. refl;
  }

  pub calls-Part :
      Part Piece (λ x. or_empty (given x.delta.tool_calls)) (λ s. or_empty s.tool_calls)
  unfolding add_choice seen
  calls-Part = record {
    chosen = λ x s. extended_lem x.delta.tool_calls s.tool_calls;
    before = λ c s. ap (or_empty {A = Piece}) ((usage-Unchanged c.usage _).tool_calls);
    counted = λ n s. refl;
  }

  pub ids-Part : Part ℕ (λ x. or_empty (given x.token_ids)) (λ s. or_empty s.token_ids)
  unfolding add_choice seen
  ids-Part = record {
    chosen = λ x s. extended_lem x.token_ids s.token_ids;
    before = λ c s. ap (or_empty {A = ℕ}) ((usage-Unchanged c.usage _).token_ids);
    counted = λ n s. refl;
  }

  accumulate-metadata :
      (c : Chunk J) (s : Stream J)
      → (accumulate c s).response_metadata ≡ put_given c.metadata s.response_metadata
  unfolding accumulate add_choice seen
  accumulate-metadata c s = go (choices_of c) refl
    where
      go :
          (xs : List (Choice J))
          → choices_of c ≡ xs
          → (accumulate c s).response_metadata ≡ put_given c.metadata s.response_metadata
      go [] e = rw (e, accumulate) ((usage-Unchanged c.usage _).metadata)
      go (x ∷ xs) e = rw (e, accumulate) ((usage-Unchanged c.usage _).metadata)

  pub none_before : (a : Option J) → or_before a none ≡ a
  none_before none = refl
  none_before (some w) = refl

  later_wins :
      (a b c : Option J)
      → or_before a (or_before b c) ≡ or_before (elim a [ some w ↦ some w | none ↦ b ]) c
  later_wins none b c = refl
  later_wins (some w) b c = refl

  pub metadata_lem :
      (k : String) (cs : List (Chunk J)) (s : Stream J)
      → AreListed cs
      → get k (stream_each cs s).kept.response_metadata
        ≡ or_before (last_metadata k cs) (get k s.response_metadata)
  unfolding stream_each last_metadata
  metadata_lem k [] s l = refl
  metadata_lem k (c ∷ cs) s (l, ls) =
      let kept = accumulate c s in
      ap (λ (x : Streamed J). get k x.kept.response_metadata) (stream_each-cons c cs s l)
      ∙ metadata_lem k cs (counted kept) ls
      ∙ ap (λ (d : Dict String J). or_before (last_metadata k cs) (get k d))
          (accumulate-metadata c s)
      ∙ ap (or_before (last_metadata k cs)) (get-put_given k c.metadata s.response_metadata)
      ∙ later_wins (last_metadata k cs) (last_value k c.metadata) (get k s.response_metadata)
