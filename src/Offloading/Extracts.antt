-- ===== src/Offloading/Extracts.antt =====
-- What is extracted from a response, and what putting it back restores.
use trajproxy.Base.{
  ◌≡◌, refl, ap, ◌∙◌, String, false, Option, none, some, arith, Bool-cases, Option-cases, inl, inr,
  string_eq, ◌==◌, list_eq, nat_eq,
}
use trajproxy.Json.{
  Json, null, boolean, number, text, array, object, Items, no_items, item, Fields, no_fields, field,
  field_of, with_field,
}
use trajproxy.Offloading.{
  Context, Source, token_response, raw_response, first_choice, is_marker, routed_experts_of,
  extract, with_routed_experts, put_routed_experts,
}

with_field-restores :
    (n : String) (v w : Json) (fs : Fields)
    → field_of n fs ≡ some v
    → with_field n v (with_field n w fs) ≡ fs
unfolding with_field field_of
with_field-restores n v w no_fields e = ground (arith, e)
with_field-restores n v w (field m u fs) e = elim (Bool-cases (m == n)) [
  | inl same ↦ ground (arith, e, same)
  | inr other ↦ ground (arith, e, other, with_field-restores n v w fs (ground (arith, e, other)))
]

field_of-with_field :
    (n : String) (v : Json) (fs : Fields) → field_of n (with_field n v fs) ≡ some v
unfolding with_field field_of
field_of-with_field n v no_fields = ground (arith, string_eq.beq_iff n n)
field_of-with_field n v (field m u fs) = ground (arith, field_of-with_field n v fs)

with_field-twice :
    (n : String) (v w : Json) (fs : Fields) → with_field n v (with_field n w fs) ≡ with_field n v fs
unfolding with_field
with_field-twice n v w no_fields = ground (arith, string_eq.beq_iff n n)
with_field-twice n v w (field m u fs) = ground (arith, with_field-twice n v w fs)

-- Where a value that is extracted stands.
record IsFound (d : Fields) (v : Json) : Type 0 where
  pub choice : Fields
  pub rest : Items
  pub choices : field_of "choices" d ≡ some (array (item (object choice) rest))
  pub at : field_of "routed_experts" choice ≡ some v
  pub plain : is_marker v ≡ false

abbrev choice_in : Option Json → Option Fields
choice_in o = elim o [ some (array (item (object choice) rest)) ↦ some choice | _ ↦ none ]

choice_in-some :
    (o : Option Json) (choice : Fields)
    → choice_in o ≡ some choice
    → (rest : Items) × (o ≡ some (array (item (object choice) rest)))
choice_in-some none c e = ground (arith, e)
choice_in-some (some null) c e = ground (arith, e)
choice_in-some (some (boolean b)) c e = ground (arith, e)
choice_in-some (some (number n)) c e = ground (arith, e)
choice_in-some (some (text t)) c e = ground (arith, e)
choice_in-some (some (object f)) c e = ground (arith, e)
choice_in-some (some (array no_items)) c e = ground (arith, e)
choice_in-some (some (array (item null r))) c e = ground (arith, e)
choice_in-some (some (array (item (boolean b) r))) c e = ground (arith, e)
choice_in-some (some (array (item (number n) r))) c e = ground (arith, e)
choice_in-some (some (array (item (text t) r))) c e = ground (arith, e)
choice_in-some (some (array (item (array a) r))) c e = ground (arith, e)
choice_in-some (some (array (item (object f) r))) c e = (r, ground (arith, e))

routed-IsFound : (d : Fields) (v : Json) → routed_experts_of (some d) ≡ some v → IsFound d v
unfolding routed_experts_of first_choice
routed-IsFound d v e = elim (Option-cases (choice_in (field_of "choices" d))) [
  | inl nothing ↦ ground (arith, e, nothing)
  | inr (choice, there) ↦
      let (rest, choices) = choice_in-some (field_of "choices" d) choice there in
      record {
        choice = choice;
        rest = rest;
        choices = choices;
        at = ground (arith, e, there);
        plain = ground (arith, e, there);
      }
]

with_routed-at :
    (d choice : Fields) (rest : Items) (v : Json)
    → field_of "choices" d ≡ some (array (item (object choice) rest))
    → with_routed_experts v d
      ≡ with_field "choices" (array (item (object (with_field "routed_experts" v choice)) rest)) d
unfolding with_routed_experts
with_routed-at d choice rest v e = rw (e, with_routed_experts) refl

with_routed-restores :
    (d : Fields) (v m : Json) → IsFound d v → with_routed_experts v (with_routed_experts m d) ≡ d
with_routed-restores d v m f =
    let changed = with_field "routed_experts" m f.choice in
    let d' = with_field "choices" (array (item (object changed) f.rest)) d in
    let back : with_routed_experts v d'
        ≡ with_field "choices"
            (array (item (object (with_field "routed_experts" v changed)) f.rest)) d' =
      with_routed-at d' changed f.rest v
        (field_of-with_field "choices" (array (item (object changed) f.rest)) d) in
    let inside : with_field "routed_experts" v changed ≡ f.choice =
      with_field-restores "routed_experts" v m f.choice f.at in
    ap (with_routed_experts v) (with_routed-at d f.choice f.rest m f.choices)
    ∙ back
    ∙ ap (λ c. with_field "choices" (array (item (object c) f.rest)) d') inside
    ∙ with_field-restores "choices" (array (item (object f.choice) f.rest))
        (array (item (object changed) f.rest)) d f.choices

-- Where the value of a context comes from.
abbrev response : Source → Context → Option Fields
response token_response x = x.token_response
response raw_response x = x.raw_response

routed-some :
    (o : Option Fields) (v : Json)
    → routed_experts_of o ≡ some v
    → (d : Fields) × (o ≡ some d) × (routed_experts_of (some d) ≡ some v)
unfolding routed_experts_of
routed-some none v e = ground (arith, e)
routed-some (some d) v e = (d, refl, e)

extract-found :
    (x : Context) (v : Json) (s : Source)
    → extract x ≡ some (v, s)
    → (d : Fields) × (response s x ≡ some d) × (routed_experts_of (some d) ≡ some v)
unfolding extract
extract-found x v s e = elim (Option-cases (routed_experts_of x.token_response)) [
  | inr (u, first) ↦
      let here : s ≡ token_response = ground (arith, e, first) in
      let (d, at, found) = routed-some x.token_response v (first ∙ ground (arith, e, first)) in
      (d, ap (λ q. response q x) here ∙ at, found)
  | inl absent ↦ elim (Option-cases (routed_experts_of x.raw_response)) [
    | inl neither ↦ ground (arith, e, absent, neither)
    | inr (u, second) ↦
        let here : s ≡ raw_response = ground (arith, e, absent, second) in
        let (d, at, found) =
          routed-some x.raw_response v (second ∙ ground (arith, e, absent, second)) in
        (d, ap (λ q. response q x) here ∙ at, found)
  ]
]

-- What is extracted to be stored as a blob is never a marker.
pub extract-not_marker :
    (x : Context) (v : Json) (s : Source) → extract x ≡ some (v, s) → is_marker v ≡ false
extract-not_marker x v s e =
    let (d, at, found) = extract-found x v s e in (routed-IsFound d v found).plain

pub put-restores :
    (x : Context) (v m : Json) (s : Source)
    → extract x ≡ some (v, s)
    → put_routed_experts s v (put_routed_experts s m x) ≡ x
unfolding put_routed_experts
put-restores x v m token_response e =
    let (d, at, found) = extract-found x v token_response e in
    ground (arith, at, with_routed-restores d v m (routed-IsFound d v found))
put-restores x v m raw_response e =
    let (d, at, found) = extract-found x v raw_response e in
    ground (arith, at, with_routed-restores d v m (routed-IsFound d v found))
