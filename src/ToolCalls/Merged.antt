-- ===== src/ToolCalls/Merged.antt =====
-- The merged calls, index by index.
use trajproxy.Base.{
  ℕ, ◌≡◌, refl, sym, ap, ◌∙◌, Bool, true, false, not, Option, none, some, List, [], ◌∷◌, ◌++◌,
  nat_eq, option_eq, option_beq_iff, ◌↔◌, if◌then◌else◌, ◌&&◌, ◌||◌, ◌==◌, is_some, arith,
  append_assoc, append-nil, Bool-cases, inl, inr,
}
use trajproxy.Base.Dict.{Dict, get}
use trajproxy.Base.Dict.Laws.{get-put}
use trajproxy.Texts.{Text}
use trajproxy.ToolCalls.{
  Piece, ToolCall, is_empty, index_of, fresh, update, or_fresh, arguments_of, merge_one, merge_each,
}

index_iff : (a b : Option ℕ) → ((a == b) ≡ true) ↔ (a ≡ b)
index_iff a b = option_beq_iff a b

-- The piece is not empty and belongs to the index.
abbrev pub belongs : Option ℕ → Piece → Bool
belongs i tc = not (is_empty tc) && index_of tc == i

-- The call of one index alone: the pieces of other indices are passed over.
unfoldable pub call_at : Option ℕ → List Piece → Option ToolCall → Option ToolCall
call_at i [] call = call
call_at i (tc ∷ tcs) call =
    call_at i tcs (if belongs i tc then some (update tc (or_fresh tc call)) else call)

unfoldable pub arguments_at : Option ℕ → List Piece → Text
arguments_at i [] = []
arguments_at i (tc ∷ tcs) =
    let rest = arguments_at i tcs in if belongs i tc then arguments_of tc.function ++ rest else rest

unfoldable pub occurs : Option ℕ → List Piece → Bool
occurs i [] = false
occurs i (tc ∷ tcs) = belongs i tc || occurs i tcs

abbrev pub arguments_in : Option ToolCall → Text
arguments_in none = []
arguments_in (some call) = call.arguments

get-merge_one :
    (i : Option ℕ) (tc : Piece) (merged : Dict (Option ℕ) ToolCall)
    → get i (merge_one tc merged)
      ≡ (if belongs i tc then some (update tc (or_fresh tc (get i merged))) else get i merged)
unfolding merge_one
get-merge_one i tc merged = elim (Bool-cases (is_empty tc)) [
  | inl empty ↦ ground (arith, empty)
  | inr full ↦ elim (Bool-cases (index_of tc == i)) [
    | inl same ↦
        let here : get (index_of tc) merged ≡ get i merged =
          ap (λ k. get k merged) ((index_iff (index_of tc) i).0 same) in
        let call = update tc (or_fresh tc (get (index_of tc) merged)) in
        ground (arith, full, same, here, get-put (index_of tc) i call merged)
    | inr other ↦
        let call = update tc (or_fresh tc (get (index_of tc) merged)) in
        ground (arith, full, other, get-put (index_of tc) i call merged)
  ]
]

get-merge_each :
    (i : Option ℕ) (tcs : List Piece) (merged : Dict (Option ℕ) ToolCall)
    → get i (merge_each tcs merged) ≡ call_at i tcs (get i merged)
unfolding merge_each call_at
get-merge_each i [] merged = refl
get-merge_each i (tc ∷ tcs) merged =
    get-merge_each i tcs (merge_one tc merged) ∙ ap (call_at i tcs) (get-merge_one i tc merged)

update-arguments :
    (tc : Piece) (call : Option ToolCall)
    → arguments_in (some (update tc (or_fresh tc call)))
      ≡ arguments_in call ++ arguments_of tc.function
unfolding update fresh
update-arguments tc none = refl
update-arguments tc (some call) = refl

arguments-call_at :
    (i : Option ℕ) (tcs : List Piece) (call : Option ToolCall)
    → arguments_in (call_at i tcs call) ≡ arguments_in call ++ arguments_at i tcs
unfolding call_at arguments_at
arguments-call_at i [] call = sym (append-nil (arguments_in call))
arguments-call_at i (tc ∷ tcs) call = elim (Bool-cases (belongs i tc)) [
  | inl here ↦ ground (
    arith,
    here,
    arguments-call_at i tcs (some (update tc (or_fresh tc call))),
    update-arguments tc call,
    append_assoc (arguments_in call) (arguments_of tc.function) (arguments_at i tcs),
  )
  | inr other ↦ ground (arith, other, arguments-call_at i tcs call)
]

some-call_at :
    (i : Option ℕ) (tcs : List Piece) (call : Option ToolCall)
    → is_some (call_at i tcs call) ≡ (is_some call || occurs i tcs)
unfolding call_at occurs
some-call_at i [] call = ground arith
some-call_at i (tc ∷ tcs) call =
    ground
      (arith, some-call_at i tcs (some (update tc (or_fresh tc call))), some-call_at i tcs call)

-- Pieces of different calls do not mix: what is merged under an index is what the pieces of this
-- index give alone; it is there exactly if such a piece occurs, and its arguments are the
-- arguments of these pieces joined in their order.
pub merge_each_lem :
    (i : Option ℕ) (tcs : List Piece)
    → (get i (merge_each tcs []) ≡ call_at i tcs none)
      × (is_some (get i (merge_each tcs [])) ≡ occurs i tcs)
      × (arguments_in (get i (merge_each tcs [])) ≡ arguments_at i tcs)
unfolding get
merge_each_lem i tcs =
    let found = get-merge_each i tcs [] in
    (
      found,
      ap is_some found ∙ some-call_at i tcs none,
      ap arguments_in found ∙ arguments-call_at i tcs none,
    )
