-- ===== src/Models.antt =====
-- Data that the components share: `ModelConfig` (traj_proxy/store/models.py), and the exceptions
-- of traj_proxy/exceptions.py that the modelled code raises itself.
use trajproxy.Base.{
  ℕ, String, Bool, true, false, Option, none, some, ◌==◌, string_eq, pair_eq, pair_beq_iff, ◌≡◌,
  ◌↔◌, if◌then◌else◌,
}

-- `(run_id, model_name)`
abbrev pub ModelKey : Type 0
ModelKey = String × String

-- `oid` is the object's identity: what Python's `is` compares.
pub record ModelConfig : Type 0 where
  pub oid : ℕ
  pub url : String
  pub api_key : String
  pub tokenizer_path : Option String
  pub run_id : String
  pub model_name : String
  pub token_in_token_out : Bool
  pub tool_parser : String
  pub reasoning_parser : String
  pub updated_at : Option ℕ

abbrev pub key_of : ModelConfig → ModelKey
key_of c = (c.run_id, c.model_name)

pub data Error : Type 0 where
  value_error key_error database_error infer_error runtime_error : Error
  type_error attribute_error parser_error : Error

pub data Result {ℓ} (A : Type ℓ) : Type ℓ where
  ok : A → Result A
  raise : Error → Result A

infixl 5 ◌>>=◌
abbrev pub ◌>>=◌ {ℓ κ} : {A : Type ℓ} {B : Type κ} → Result A → (A → Result B) → Result B
ok a >>= f = f a
raise e >>= f = raise e

-- The value of an optional text, if Python holds it to be true.
abbrev pub truthy : Option String → Option String
truthy none = none
truthy (some s) = if s == "" then none else some s

-- `==` on keys, for the tactics.
pub key_iff : (a b : ModelKey) → ((a == b) ≡ true) ↔ (a ≡ b)
key_iff a b = pair_beq_iff a b

abbrev pub is_database_error : Error → Bool
is_database_error database_error = true
is_database_error e = false
