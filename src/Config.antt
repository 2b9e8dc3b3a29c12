-- ===== src/Config.antt =====
-- easy_config.go: the file parser and the typed getters. Texts are lists of code points. The files
-- and etcd answer as arguments; floats, which the source parses and keeps, are of any type, and
-- their parser is a parameter. The lock only makes each access atomic.
pub mod Strings
pub mod Lines
pub mod Values
pub mod Remote
pub mod Struct
mod Tests
use easycall.Base.{
  ℕ, zero, suc, Bytes, Bool, true, false, Option, none, some, List, [], ◌∷◌, ◌++◌, length, take,
  lookup, insert, bytes_key, ◌==◌, if◌then◌else◌, map, Outcome, ok, err, panic,
}
use easycall.Base.Int.{ℤ}
use easycall.Config.Strings.{index, split, trim_space, parse_uint, parse_int, parse_bool}

pub record EasyConfig : Type 0 where
  pub container : List (Bytes × Bytes)

-- `line[:index]` for the first `#`.
unfoldable pub strip_comment : Bytes → Bytes
strip_comment line = elim (index 35 line) [ none ↦ line | some i ↦ take i line ]

-- The first two of the parts between `=`.
unfoldable pub first_two : List Bytes → Option (Bytes × Bytes)
first_two [] = none
first_two (k ∷ []) = none
first_two (k ∷ v ∷ rest) = some (trim_space k, trim_space v)

unfoldable pub key_value : Option ℕ → Bytes → Option (Bytes × Bytes)
key_value none line = none
key_value (some zero) line = none
key_value (some (suc i)) line = first_two (split 61 line)

unfoldable pub get_key_value : Bytes → Option (Bytes × Bytes)
get_key_value line = let line = strip_comment line in key_value (index 61 line) line

unfoldable pub load_line : Bytes → EasyConfig → EasyConfig
load_line line ec = elim (get_key_value (trim_space line)) [
  | none ↦ ec
  | some (k, v) ↦ record ec { container = insert k v ec.container }
]

-- The lines that `ReadString('\n')` returns with no error: those that a line feed ends, which is
-- trimmed later. `line` is what was read of the current one.
unfoldable pub read_lines : Bytes → Bytes → List Bytes
read_lines line [] = []
read_lines line (c ∷ cs) =
    if c == 10 then (line ++ c ∷ []) ∷ read_lines [] cs else read_lines (line ++ c ∷ []) cs

unfoldable pub load_lines : List Bytes → EasyConfig → EasyConfig
load_lines [] ec = ec
load_lines (line ∷ rest) ec = load_lines rest (load_line line ec)

-- `file` is the answer of `os.Open`, with what can be read of the file; `failure` is the error that
-- then stops the reading, `none` at the end of the file. The result is the error, if any.
unfoldable pub load : Outcome Bytes → Option Bytes → EasyConfig → EasyConfig × Outcome (Unit {0})
load (err e) failure ec = (ec, err e)
load panic failure ec = (ec, panic)
load (ok content) failure ec =
    (load_lines (read_lines [] content) ec, elim failure [ none ↦ ok tt | some e ↦ err e ])

unfoldable pub has_config : Bytes → EasyConfig → Bool
has_config name ec = elim (lookup name ec.container) [ none ↦ false | some v ↦ true ]

-- What the getters share.
unfoldable pub get_parsed : {A : Type 0} → (Bytes → A) → Bytes → A → EasyConfig → A
get_parsed parse name default_value ec = elim (lookup name ec.container) [
  | none ↦ default_value
  | some v ↦ parse v
]

abbrev pub get_uint64 : Bytes → ℕ → EasyConfig → ℕ
get_uint64 = get_parsed parse_uint

abbrev pub get_int64 : Bytes → ℤ → EasyConfig → ℤ
get_int64 = get_parsed parse_int

abbrev pub get_bool : Bytes → Bool → EasyConfig → Bool
get_bool = get_parsed parse_bool

abbrev pub get_string : Bytes → Bytes → EasyConfig → Bytes
get_string = get_parsed (λ v. v)

abbrev pub get_float64 : {F : Type 0} → (Bytes → F) → Bytes → F → EasyConfig → F
get_float64 parse_float = get_parsed parse_float

-- One `key:value` of a map; what does not have two parts is skipped.
unfoldable pub put_pair :
    {A : Type 0} → (Bytes → A) → List Bytes → List (Bytes × A) → List (Bytes × A)
put_pair parse (k ∷ v ∷ []) values = insert (trim_space k) (parse v) values
put_pair parse _ values = values

unfoldable pub put_pairs :
    {A : Type 0} → (Bytes → A) → List Bytes → List (Bytes × A) → List (Bytes × A)
put_pairs parse [] values = values
put_pairs parse (value ∷ rest) values =
    put_pairs parse rest (put_pair parse (split 58 value) values)

unfoldable pub parse_map : {A : Type 0} → (Bytes → A) → Bytes → List (Bytes × A)
parse_map parse v = put_pairs parse (split 44 v) []

abbrev pub get_string_uint64_map : Bytes → EasyConfig → List (Bytes × ℕ)
get_string_uint64_map name = get_parsed (parse_map parse_uint) name []

abbrev pub get_string_int64_map : Bytes → EasyConfig → List (Bytes × ℤ)
get_string_int64_map name = get_parsed (parse_map parse_int) name []

abbrev pub get_string_string_map : Bytes → EasyConfig → List (Bytes × Bytes)
get_string_string_map name = get_parsed (parse_map trim_space) name []

abbrev pub get_string_bool_map : Bytes → EasyConfig → List (Bytes × Bool)
get_string_bool_map name = get_parsed (parse_map parse_bool) name []

abbrev pub get_string_float64_map :
    {F : Type 0} → (Bytes → F) → Bytes → EasyConfig → List (Bytes × F)
get_string_float64_map parse_float name = get_parsed (parse_map parse_float) name []

abbrev pub get_uint64_list : Bytes → EasyConfig → List ℕ
get_uint64_list name = get_parsed (λ v. map parse_uint (split 44 v)) name []

abbrev pub get_int64_list : Bytes → EasyConfig → List ℤ
get_int64_list name = get_parsed (λ v. map parse_int (split 44 v)) name []

abbrev pub get_float64_list : {F : Type 0} → (Bytes → F) → Bytes → EasyConfig → List F
get_float64_list parse_float name = get_parsed (λ v. map parse_float (split 44 v)) name []

abbrev pub get_string_list : Bytes → EasyConfig → List Bytes
get_string_list name = get_parsed (split 44) name []
