-- ===== src/Requests/Bodies.antt =====
-- The bodies of requests, traj_proxy/proxy_core/infer_client.py: which arguments of the caller are
-- renamed, dropped, protected or passed on.
use trajproxy.Base.{
  ◌≡◌, refl, sym, ap, ◌∙◌, String, Bool, true, false, ◌||◌, Option, none, some, List, [], ◌∷◌, ◌==◌,
  string_eq, if◌then◌else◌, is_some, contains, arith, Bool-cases, inl, inr,
}
use trajproxy.Base.Dict.{Dict, get, put, Distinct}
use trajproxy.Base.Dict.Laws.{get-put, put-Distinct}
use trajproxy.Json.{Json, null, boolean, number}

-- `_CHAT_TO_COMPLETION_INCOMPATIBLE`
abbrev incompatible : List String
incompatible =
    "response_format" ∷ "logit_bias" ∷ "echo" ∷ "tools" ∷ "tool_choice" ∷ "parallel_tool_calls"
    ∷ "reasoning_effort" ∷ "include_reasoning" ∷ "add_generation_prompt" ∷ "continue_final_message"
    ∷ "documents" ∷ "chat_template" ∷ "chat_template_kwargs" ∷ "mm_processor_kwargs" ∷ []

unfoldable pub is_incompatible : String → Bool
unfolding contains
is_incompatible k = contains k incompatible

-- `_CHAT_TO_COMPLETION_MAPPINGS` has one entry, from this name to `max_tokens`.
abbrev pub is_mapped : String → Bool
is_mapped k = k == "max_completion_tokens"

unfoldable put_mapped : Dict String Json → Dict String Json → Dict String Json
put_mapped [] result = result
put_mapped ((k, v) ∷ kwargs) result =
    put_mapped kwargs (if is_mapped k then put "max_tokens" v result else result)

unfoldable put_rest : Dict String Json → Dict String Json → Dict String Json
put_rest [] result = result
put_rest ((k, v) ∷ kwargs) result = put_rest kwargs (
    if is_incompatible k
    then result
    else if is_mapped k
    then result
    else if is_some (get k result)
    then result
    else put k v result)

unfoldable pub transform_chat_params : Dict String Json → Dict String Json
unfolding put_mapped put_rest
transform_chat_params kwargs = put_rest kwargs (put_mapped kwargs [])

abbrev is_null : Json → Bool
is_null null = true
is_null _ = false

-- `if k not in handled_params and v is not None: body[k] = v`
unfoldable pass_on : List String → Dict String Json → Dict String Json → Dict String Json
pass_on handled [] body = body
pass_on handled ((k, v) ∷ kwargs) body =
    pass_on handled kwargs (if contains k handled || is_null v then body else put k v body)

abbrev pub handled_completion : List String
handled_completion = "model" ∷ "prompt" ∷ "stream" ∷ "logprobs" ∷ []

abbrev pub fixed_completion : Json → Json → Bool → Dict String Json
fixed_completion prompt model stream =
    ("model", model)
    ∷ ("prompt", prompt)
    ∷ ("stream", boolean stream)
    ∷ ("logprobs", number 1)
    ∷ ("return_token_ids", boolean true)
    ∷ []

unfoldable pub build_completion_body : Json → Json → Bool → Dict String Json → Dict String Json
unfolding pass_on transform_chat_params
build_completion_body prompt model stream kwargs =
    pass_on handled_completion (transform_chat_params kwargs) (fixed_completion prompt model stream)

abbrev pub handled_chat : List String
handled_chat = "model" ∷ "messages" ∷ "stream" ∷ "logprobs" ∷ "return_token_ids" ∷ []

abbrev pub fixed_chat : Json → Json → Bool → Dict String Json
fixed_chat messages model stream =
    ("model", model)
    ∷ ("messages", messages)
    ∷ ("stream", boolean stream)
    ∷ ("logprobs", number 1)
    ∷ ("return_token_ids", boolean true)
    ∷ []

unfoldable pub build_chat_body : Json → Json → Bool → Dict String Json → Dict String Json
unfolding pass_on
build_chat_body messages model stream kwargs =
    pass_on handled_chat kwargs (fixed_chat messages model stream)

abbrev pub or_else : Option Json → Option Json → Option Json
or_else (some v) o = some v
or_else none o = o

-- What becomes of one argument.
unfoldable pub transformed : String → Dict String Json → Option Json
transformed k kwargs =
    if k == "max_tokens"
    then or_else (get "max_completion_tokens" kwargs) (get k kwargs)
    else if is_incompatible k
    then none
    else if is_mapped k
    then none
    else get k kwargs

get-put_mapped :
    (k : String) (kwargs r : Dict String Json)
    → Distinct kwargs
    → get k (put_mapped kwargs r) ≡ (
        if k == "max_tokens"
        then or_else (get "max_completion_tokens" kwargs) (get k r)
        else get k r)
unfolding put_mapped get
get-put_mapped k [] r h = ground arith
get-put_mapped k ((j, v) ∷ kwargs) r h = elim (Bool-cases (is_mapped j)) [
  | inl renamed ↦ ground (
    arith,
    renamed,
    get-put_mapped k kwargs (put "max_tokens" v r) h.1,
    get-put "max_tokens" k v r,
    string_eq.beq_iff "max_tokens" k,
    string_eq.beq_iff k "max_tokens",
    once j renamed h.0,
  )
  | inr other ↦ ground (arith, other, get-put_mapped k kwargs r h.1)
]
  where
    once :
        (i : String)
        → is_mapped i ≡ true
        → get i kwargs ≡ none
        → get "max_completion_tokens" kwargs ≡ none
    once i e f =
        ap (λ x. get x kwargs) (sym ((string_eq.beq_iff i "max_completion_tokens").0 e)) ∙ f

get-put_rest :
    (k : String) (kwargs r : Dict String Json)
    → get k (put_rest kwargs r)
      ≡ or_else
          (get k r)
          (if is_incompatible k then none else if is_mapped k then none else get k kwargs)
unfolding put_rest get
get-put_rest k [] r = ground arith
get-put_rest k ((j, v) ∷ kwargs) r = ground (
  arith,
  get-put_rest k kwargs r,
  get-put_rest k kwargs (put j v r),
  get-put j k v r,
  string_eq.beq_iff j k,
)

-- What a handled parameter has is fixed; any other takes the caller's value if it is not `None`.
abbrev pub passed : Bool → Option Json → Option Json → Option Json
passed true given fixed = fixed
passed false none fixed = fixed
passed false (some v) fixed = if is_null v then fixed else some v

get-pass_on :
    (k : String) (handled : List String) (kwargs body : Dict String Json)
    → Distinct kwargs
    → get k (pass_on handled kwargs body) ≡ passed (contains k handled) (get k kwargs) (get k body)
unfolding pass_on get
get-pass_on k handled [] body h = ground arith
get-pass_on k handled ((j, v) ∷ kwargs) body h = ground (
  arith,
  get-pass_on k handled kwargs body h.1,
  get-pass_on k handled kwargs (put j v body) h.1,
  get-put j k v body,
  h.0,
  string_eq.beq_iff j k,
)

put_mapped-Distinct : (kwargs r : Dict String Json) → Distinct r → Distinct (put_mapped kwargs r)
unfolding put_mapped
put_mapped-Distinct [] r h = h
put_mapped-Distinct ((j, v) ∷ kwargs) r h = elim (Bool-cases (is_mapped j)) [
  | inl renamed ↦
      rw (renamed, put_mapped)
        (put_mapped-Distinct kwargs (put "max_tokens" v r) (put-Distinct "max_tokens" v r h))
  | inr other ↦ rw (other, put_mapped) (put_mapped-Distinct kwargs r h)
]

put_rest-Distinct : (kwargs r : Dict String Json) → Distinct r → Distinct (put_rest kwargs r)
unfolding put_rest
put_rest-Distinct [] r h = h
put_rest-Distinct ((j, v) ∷ kwargs) r h =
    put_rest-Distinct kwargs
      (if is_incompatible j
        then r
        else if is_mapped j
        then r
        else if is_some (get j r)
        then r
        else put j v r)
      (go (is_incompatible j) (is_mapped j) (is_some (get j r)))
  where
    go : (a b c : Bool) → Distinct (if a then r else if b then r else if c then r else put j v r)
    go true b c = h
    go false true c = h
    go false false true = h
    go false false false = put-Distinct j v r h

max_tokens_passes : (is_incompatible "max_tokens" ≡ false) × (is_mapped "max_tokens" ≡ false)
unfolding is_incompatible contains
max_tokens_passes = (refl, refl)

-- For every name, and arguments with each name once: `max_completion_tokens` comes as `max_tokens` and wins over it, the incompatible
-- arguments are dropped, and every other argument is kept as it is.
pub transform_chat_params_lem :
    (k : String) (kwargs : Dict String Json)
    → Distinct kwargs
    → get k (transform_chat_params kwargs) ≡ transformed k kwargs
unfolding transform_chat_params transformed get
transform_chat_params_lem k kwargs h =
    let rest = get-put_rest k kwargs (put_mapped kwargs []) in
    let mapped = get-put_mapped k kwargs [] h in
    elim (Bool-cases (k == "max_tokens")) [
      | inl tokens ↦
          let named = (string_eq.beq_iff k "max_tokens").0 tokens in
          let kept : is_incompatible k ≡ false = ap is_incompatible named ∙ max_tokens_passes.0 in
          let plain : is_mapped k ≡ false = ap is_mapped named ∙ max_tokens_passes.1 in
          ground (arith, rest, mapped, tokens, kept, plain)
      | inr other ↦ ground (arith, rest, mapped, other)
    ]

-- For every name, and arguments with each name once: the parameters that the function handles are fixed, whatever the caller passes;
-- of any other the body has the caller's transformed value unless that is `None`, and then what is
-- fixed.
pub build_completion_body_lem :
    (k : String) (prompt model : Json) (stream : Bool) (kwargs : Dict String Json)
    → Distinct kwargs
    → get k (build_completion_body prompt model stream kwargs)
      ≡ passed
          (contains k handled_completion)
          (transformed k kwargs)
          (get k (fixed_completion prompt model stream))
unfolding build_completion_body transform_chat_params
build_completion_body_lem k prompt model stream kwargs h =
    let once = put_rest-Distinct kwargs (put_mapped kwargs []) (put_mapped-Distinct kwargs [] tt) in
    get-pass_on k handled_completion (transform_chat_params kwargs)
      (fixed_completion prompt model stream) once
    ∙ ap
        (λ o.
          passed (contains k handled_completion) o (get k (fixed_completion prompt model stream)))
        (transform_chat_params_lem k kwargs h)

-- For every name, and arguments with each name once: the parameters that the function handles are
-- fixed, whatever the caller passes; of any other the body has the value of the caller unless that
-- is `None`, and then what is fixed.
pub build_chat_body_lem :
    (k : String) (messages model : Json) (stream : Bool) (kwargs : Dict String Json)
    → Distinct kwargs
    → get k (build_chat_body messages model stream kwargs)
      ≡ passed (contains k handled_chat) (get k kwargs) (get k (fixed_chat messages model stream))
unfolding build_chat_body
build_chat_body_lem k messages model stream kwargs h =
    get-pass_on k handled_chat kwargs (fixed_chat messages model stream) h
