-- ===== src/Delivery/Fields.antt =====
-- JSON values as far as the delivery store makes them: the metadata that it attaches to its records.
-- A key whose value is undefined is one that JSON leaves out.
use maxtag.Base.{ℕ, Bool, true, false, Text, text_eq, Option, none, some, if◌then◌else◌}

mutual
  pub data Value : Type 0 where
    undefined : Value
    str : Text → Value
    num : ℕ → Value
    flag : Bool → Value
    object : Fields → Value
    -- any other value, by its JSON text
    json : Text → Value

  pub data Fields : Type 0 where
    end : Fields
    field : Text → Value → Fields → Fields

-- `typeof fields.key === 'string' ? fields.key : undefined`
unfoldable pub get_text : Text → Fields → Option Text
get_text key end = none
get_text key (field k (str t) rest) = if text_eq k key then some t else get_text key rest
get_text key (field k v rest) = if text_eq k key then none else get_text key rest

unfoldable pub has_key : Text → Fields → Bool
has_key key end = false
has_key key (field k v rest) = if text_eq k key then true else has_key key rest

-- `{ ...fields, [key]: value }`
unfoldable pub set_field : Text → Value → Fields → Fields
set_field key value end = field key value end
set_field key value (field k v rest) =
    if text_eq k key then field k value rest else field k v (set_field key value rest)

-- `{ ...fields, ...more }`
unfoldable pub spread : Fields → Fields → Fields
unfolding set_field
spread fields end = fields
spread fields (field k v more) = spread (set_field k v fields) more

abbrev pub str_or_undefined : Option Text → Value
str_or_undefined none = undefined
str_or_undefined (some t) = str t
