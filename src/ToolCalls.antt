-- ===== src/ToolCalls.antt =====
-- `_merge_stream_tool_calls`, which traj_proxy/proxy_core/pipeline/direct_pipeline.py and
-- traj_proxy/proxy_core/builders/stream_builder.py both have: the pieces of streamed tool calls
-- are put together by their index.
pub mod Merged
use trajproxy.Base.{
  ℕ, String, Bool, true, false, Option, none, some, List, [], ◌∷◌, ◌++◌, nat_eq, option_eq,
  if◌then◌else◌, ◌&&◌,
}
use trajproxy.Base.Dict.{Dict, get, put}
use trajproxy.Texts.{Text}

-- An entry of a piece: the key is missing, or it holds `None`, or a value.
pub data Entry (A : Type 0) : Type 0 where
  missing null : Entry A
  value : A → Entry A

pub record FunctionPiece : Type 0 where
  pub name : Entry Text
  pub arguments : Entry Text

-- One dict of the stream; it is empty if all its entries are missing.
pub record Piece : Type 0 where
  pub index : Entry ℕ
  pub id : Entry Text
  pub kind : Entry Text
  pub function : Entry FunctionPiece

pub record ToolCall : Type 0 where
  pub id : Option Text
  pub kind : Option Text
  pub name : Text
  pub arguments : Text

abbrev pub is_null : {A : Type 0} → Entry A → Bool
is_null missing = false
is_null null = true
is_null (value a) = false

abbrev pub is_missing : {A : Type 0} → Entry A → Bool
is_missing missing = true
is_missing null = false
is_missing (value a) = false

-- `not tc`
unfoldable pub is_empty : Piece → Bool
is_empty tc =
    is_missing tc.index && is_missing tc.id && is_missing tc.kind && is_missing tc.function

-- tc.get(name, default)
abbrev pub or_default : {A : Type 0} → A → Entry A → Option A
or_default a missing = some a
or_default a null = none
or_default a (value b) = some b

-- `tc.get(name)`, if Python holds it to be true; else the empty text
abbrev pub text_of : Entry Text → Text
text_of missing = []
text_of null = []
text_of (value t) = t

-- The new value if it is true, else the old one.
abbrev pub newer {ℓ} : {A : Type ℓ} → (Text → A) → Text → A → A
newer f [] old = old
newer f (c ∷ t) old = f (c ∷ t)

-- `merged[idx] = {…}`; b"function" is the default of `type`
unfoldable pub fresh : Piece → ToolCall
fresh tc = record {
  id = or_default [] tc.id;
  kind = or_default (b'f' ∷ b'u' ∷ b'n' ∷ b'c' ∷ b't' ∷ b'i' ∷ b'o' ∷ b'n' ∷ []) tc.kind;
  name = [];
  arguments = [];
}

abbrev pub name_of : Entry FunctionPiece → Text
name_of missing = []
name_of null = []
name_of (value f) = text_of f.name

abbrev pub arguments_of : Entry FunctionPiece → Text
arguments_of missing = []
arguments_of null = []
arguments_of (value f) = text_of f.arguments

unfoldable pub update : Piece → ToolCall → ToolCall
update tc call = record {
  id = newer some (text_of tc.id) call.id;
  kind = newer some (text_of tc.kind) call.kind;
  name = newer (λ t. t) (name_of tc.function) call.name;
  arguments = call.arguments ++ arguments_of tc.function;
}

-- tc.get("index", 0)
abbrev pub index_of : Piece → Option ℕ
index_of tc = or_default 0 tc.index

abbrev pub or_fresh : Piece → Option ToolCall → ToolCall
or_fresh tc none = fresh tc
or_fresh tc (some call) = call

unfoldable pub merge_one : Piece → Dict (Option ℕ) ToolCall → Dict (Option ℕ) ToolCall
unfolding is_empty update fresh
merge_one tc merged =
    if is_empty tc
    then merged
    else put (index_of tc) (update tc (or_fresh tc (get (index_of tc) merged))) merged

unfoldable pub merge_each : List Piece → Dict (Option ℕ) ToolCall → Dict (Option ℕ) ToolCall
unfolding merge_one
merge_each [] merged = merged
merge_each (tc ∷ tcs) merged = merge_each tcs (merge_one tc merged)

-- merged.values()
unfoldable pub values : {K V : Type 0} → Dict K V → List V
values [] = []
values ((k, v) ∷ d) = v ∷ values d

unfoldable pub merge_stream_tool_calls : List Piece → List ToolCall
unfolding merge_each values
merge_stream_tool_calls tool_calls = values (merge_each tool_calls [])
