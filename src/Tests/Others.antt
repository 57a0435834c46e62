-- ===== src/Tests/Others.antt =====
-- The theorems on tool calls and labels at concrete inputs.
use trajproxy.Base.{ℕ, ◌≡◌, String, true, none, some, List, [], ◌∷◌, is_some, nat_eq, option_eq}
use trajproxy.Base.Dict.{get}
use trajproxy.ToolCalls.{Piece, missing, null, value, merge_each, is_empty}
use trajproxy.ToolCalls.Merged.{call_at, occurs, arguments_at, arguments_in, merge_each_lem}
use trajproxy.Labels.{guard_init, Call, labelled, unregistered, calls}
use trajproxy.Labels.Limits.{IsBounded, was_labelled, accounted, calls_lem}

abbrev piece : ℕ → List ℕ → Piece
piece i arguments = record {
  index = value i;
  id = missing;
  kind = missing;
  function = value (record { name = null; arguments = value arguments });
}

-- Two calls, whose pieces alternate.
abbrev pieces : List Piece
pieces = piece 0 (1 ∷ []) ∷ piece 1 (5 ∷ []) ∷ piece 0 (2 ∷ 3 ∷ []) ∷ []

merge_each_lem_example :
    (get (some 0) (merge_each pieces []) ≡ call_at (some 0) pieces none)
    × (is_some (get (some 0) (merge_each pieces [])) ≡ true)
    × (arguments_in (get (some 0) (merge_each pieces [])) ≡ 1 ∷ 2 ∷ 3 ∷ [])
unfolding occurs arguments_at is_empty
merge_each_lem_example = merge_each_lem (some 0) pieces

abbrev label_calls : List Call
label_calls = labelled "a" ∷ labelled "b" ∷ unregistered "a" ∷ []

calls_lem_example :
    IsBounded (calls label_calls guard_init).known
    × ((k : String)
        → was_labelled k label_calls ≡ true
        → accounted k (calls label_calls guard_init) ≡ true)
calls_lem_example = calls_lem label_calls (tt, (tt, (tt, tt)))
