-- ===== src/Config/Struct.antt =====
-- easy_config.go, `GetConfig`: the fields of a struct are set from the settings under a prefix. A
-- struct is the list of its fields, each with its kind and a value of that kind; it embeds no other
-- struct, whose fields `FieldByName` would find too. What the source
-- does not set, for its kind or since it is not exported, is `other`. The settings come in any
-- order, as a `range` over a map gives them.
pub mod Fields
pub mod Panics
mod Tests
use easycall.Base.{
  ℕ, zero, suc, ◌-◌, ◌%◌, ◌^◌, Bytes, Bool, true, false, Option, none, some, List, [], ◌∷◌, length,
  drop, map, ◌&&◌, ◌==◌, ltb, leb, eq_bytes, if◌then◌else◌, Outcome, ok, err, panic, ◌>>=◌,
}
use easycall.Base.Int.{ℤ, wrap}
use easycall.Config.{parse_map}
use easycall.Config.Strings.{split, trim_space, parse_uint, parse_int, parse_bool}

-- `reflect.Kind` as far as the source tells the kinds apart; an unsigned number has its width, and a
-- signed one half the number of its values.
pub data Kind : Type 0 where
  unsigned signed : ℕ → Kind
  bool string float32 float64 : Kind
  int64s uint64s strings float64s : Kind
  int64_map uint64_map float64_map bool_map string_map : Kind
  other : Kind

-- `strings.HasPrefix`
unfoldable pub has_prefix : Bytes → Bytes → Bool
has_prefix k [] = true
has_prefix [] (x ∷ prefix) = false
has_prefix (c ∷ k) (x ∷ prefix) = c == x && has_prefix k prefix

-- `strings.ToUpper` of one byte; one that is not ASCII is no character by itself.
unfoldable pub to_upper : ℕ → ℕ
to_upper c = if ltb c 128 then (if leb 97 c && leb c 122 then c - 32 else c) else 65533

-- The name of the field that a key is for; `none` where `k[0:1]` is out of range.
unfoldable pub field_name : Bytes → Bytes → Option Bytes
field_name prefix k = elim (drop (length prefix) k) [ [] ↦ none | c ∷ cs ↦ some (to_upper c ∷ cs) ]

abbrev pub Value : Type 0 → Kind → Type 0
Value F (unsigned w) = ℕ
Value F (signed half) = ℤ
Value F bool = Bool
Value F string = Bytes
Value F float32 = F
Value F float64 = F
Value F int64s = List ℤ
Value F uint64s = List ℕ
Value F strings = List Bytes
Value F float64s = List F
Value F int64_map = List (Bytes × ℤ)
Value F uint64_map = List (Bytes × ℕ)
Value F float64_map = List (Bytes × F)
Value F bool_map = List (Bytes × Bool)
Value F string_map = List (Bytes × Bytes)
Value F other = Unit {0}

pub record Field (F : Type 0) : Type 0 where
  pub name : Bytes
  pub kind : Kind
  pub value : Value F kind

-- `parse_float` is `strconv.ParseFloat`, and `single` what a float32 keeps of a float64.
module _ {F : Type 0} (parse_float : Bytes → F) (single : F → F) where
  -- What the field is set to. The numbers are cut to the width of the field.
  unfoldable pub read_value : (kind : Kind) → Bytes → Value F kind → Value F kind
  read_value (unsigned w) v old = parse_uint v % 2 ^ w
  read_value (signed half) v old = wrap half (parse_int v)
  read_value bool v old = parse_bool v
  read_value string v old = v
  read_value float32 v old = single (parse_float v)
  read_value float64 v old = parse_float v
  read_value int64s v old = map parse_int (split 44 v)
  read_value uint64s v old = map parse_uint (split 44 v)
  read_value strings v old = split 44 v
  read_value float64s v old = map parse_float (split 44 v)
  read_value int64_map v old = parse_map parse_int v
  read_value uint64_map v old = parse_map parse_uint v
  read_value float64_map v old = parse_map parse_float v
  read_value bool_map v old = parse_map parse_bool v
  read_value string_map v old = parse_map trim_space v
  read_value other v old = old

  abbrev pub read_field : Bytes → Field F → Field F
  read_field v f = record { name = f.name; kind = f.kind; value = read_value f.kind v f.value }

  -- `value.FieldByName(k)`, and its setting; a name that no field has sets nothing.
  unfoldable pub set_field : Bytes → Bytes → List (Field F) → List (Field F)
  set_field name v [] = []
  set_field name v (f ∷ fs) =
      let rest = set_field name v fs in
      if eq_bytes f.name name then read_field v f ∷ fs else f ∷ rest

  -- What follows the test for the prefix; `strings.Index` gives 0 there.
  unfoldable pub set_named : Option Bytes → Bytes → List (Field F) → Outcome (List (Field F))
  set_named none v fs = panic
  set_named (some name) v fs = ok (set_field name v fs)

  unfoldable pub get_config :
      Bytes → List (Bytes × Bytes) → List (Field F) → Outcome (List (Field F))
  get_config prefix [] fs = ok fs
  get_config prefix ((k, v) ∷ rest) fs = do
    fs' ← (if has_prefix k prefix then set_named (field_name prefix k) v fs else ok fs)
    get_config prefix rest fs'
