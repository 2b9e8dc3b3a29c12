-- ===== src/Config/Struct/Tests.antt =====
-- `GetConfig` at a struct of two fields. A float is its text.
use easycall.Base.{
  ℕ, zero, suc, ap, ◌∙◌, ◌≡◌, ◌≢◌, ◌↔◌, refl, Bytes, Bool, true, false, Option, none, some, List,
  [], ◌∷◌, get_elem?, ok, panic, eq_bytes, text,
}
use easycall.Config.Strings.{parse_uint, parse_digits}
use easycall.Config.Struct.{
  Field, unsigned, string, has_prefix, to_upper, field_name, read_value, set_field, set_named,
  get_config,
}
use easycall.Config.Struct.Fields.{find_field, after_read, get_config_fields}
use easycall.Config.Struct.Panics.{get_config_panics}

abbrev same : Bytes → Bytes
same v = v

-- `Size` is a uint8, and `Name` a string.
abbrev fields : List (Field Bytes)
fields =
    record { name = text "Size"; kind = unsigned 8; value = 1 }
    ∷ record { name = text "Name"; kind = string; value = [] }
    ∷ []

-- 300 does not fit.
abbrev entries : List (Bytes × Bytes)
entries = (text "db.size", text "300") ∷ []

abbrev read : List (Field Bytes)
read =
    record { name = text "Size"; kind = unsigned 8; value = 44 }
    ∷ record { name = text "Name"; kind = string; value = [] }
    ∷ []

is_read : get_config same same (text "db.") entries fields ≡ ok read
unfolding text get_config has_prefix field_name to_upper set_named set_field eq_bytes read_value
    parse_uint parse_digits
is_read = refl

-- There is no other setting.
no_other :
    (j : ℕ) (k v : Bytes)
    → 0 ≢ j
    → get_elem? entries j ≡ some (k, v)
    → has_prefix k (text "db.") ≡ true
    → field_name (text "db.") k ≢ some (text "Size")
no_other zero k v ne h y e = absurd (ne refl)
no_other (suc j) k v ne h y e = cc

abbrev is_name : Option Bytes → Bool
is_name none = false
is_name (some name) = eq_bytes name (text "Name")

abbrev key_name : (Bytes → Option Bytes) → Option (Bytes × Bytes) → Option Bytes
key_name f none = none
key_name f (some (k, v)) = f k

not_name :
    (j : ℕ) (k v : Bytes)
    → get_elem? entries j ≡ some (k, v)
    → has_prefix k (text "db.") ≡ true
    → field_name (text "db.") k ≢ some (text "Name")
unfolding text has_prefix field_name to_upper eq_bytes
not_name zero k v h y e =
    let is_free : false ≡ true = ap is_name (ap (key_name (field_name (text "db."))) h ∙ e) in cc
not_name (suc j) k v h y e = cc

get_config_fields_example :
    (find_field same same (text "Size") read
      ≡ after_read same same (text "300") (find_field same same (text "Size") fields))
    × (find_field same same (text "Name") read ≡ find_field same same (text "Name") fields)
unfolding text has_prefix field_name to_upper
get_config_fields_example =
    get_config_fields same same (text "db.") (text "Size") (text "Name") entries fields read 0
      (text "db.size") (text "300") is_read refl refl refl no_other not_name

get_config_panics_example :
    (get_config same same (text "db.") entries fields ≡ panic)
    ↔ ((i : ℕ) × (v : Bytes) × (get_elem? entries i ≡ some (text "db.", v)))
get_config_panics_example = get_config_panics same same (text "db.") entries fields

key_is_prefix : get_config same same (text "db.size") entries fields ≡ panic
unfolding text get_config has_prefix field_name to_upper set_named
key_is_prefix = refl

abbrev named : Bytes → List (Field Bytes)
named v = record { name = text "Name"; kind = string; value = v } ∷ []

-- Two keys for one field: the order decides.
two_keys :
    (get_config same same [] ((text "name", text "a") ∷ (text "Name", text "b") ∷ []) (named [])
      ≡ ok (named (text "b")))
    × (get_config same same [] ((text "Name", text "b") ∷ (text "name", text "a") ∷ []) (named [])
        ≡ ok (named (text "a")))
unfolding text get_config has_prefix field_name to_upper set_named set_field eq_bytes read_value
two_keys = (refl, refl)
