-- ===== src/Json.antt =====
-- JSON values as Python's `json` gives them: what the program reads in and changes of a response.
use trajproxy.Base.{ℕ, String, Bool, Option, none, some, ◌==◌, string_eq, if◌then◌else◌}
use trajproxy.Texts.{Text}

mutual
  pub data Json : Type 0 where
    null : Json
    boolean : Bool → Json
    number : ℕ → Json
    text : Text → Json
    array : Items → Json
    object : Fields → Json

  pub data Items : Type 0 where
    no_items : Items
    item : Json → Items → Items

  pub data Fields : Type 0 where
    no_fields : Fields
    field : String → Json → Fields → Fields

-- d.get(name)
unfoldable pub field_of : String → Fields → Option Json
field_of name no_fields = none
field_of name (field n v fs) = if n == name then some v else field_of name fs

-- d[name] = v
unfoldable pub with_field : String → Json → Fields → Fields
with_field name v no_fields = field name v no_fields
with_field name v (field n w fs) =
    let rest = with_field name v fs in if n == name then field n v fs else field n w rest
