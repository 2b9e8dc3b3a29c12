-- ===== src/Config/Tests.antt =====
-- The configuration at concrete inputs.
use easycall.Base.{
  ◌≤◌, ◌≡◌, ◌≢◌, refl, Bytes, true, false, none, some, [], ◌∷◌, ◌++◌, text, eq_bytes, lookup,
  insert, bytes_key, arith, ok,
}
use easycall.Base.Int.{pos, negsuc, IsInt, half64}
use easycall.Config.{
  EasyConfig, strip_comment, first_two, key_value, get_key_value, load_line, read_lines, load_lines,
  load, has_config, get_parsed, get_uint64, get_int64, put_pair, put_pairs, parse_map,
  get_string_list,
}
use easycall.Config.Strings.{
  index, push_front, split, is_space, trim_left, trim_right, trim_space, parse_digits, parse_uint,
  parse_int, parse_bool, max_uint64,
}
use easycall.Config.Lines.{
  load_last_wins, load_unterminated, get_key_value_comment, get_key_value_pair,
}
use easycall.Config.Values.{parse-bound, get_uint64-numeral, get_string_list-join}

abbrev empty : EasyConfig
empty = record { container = [] }

-- "a=1\nb = -25 # note\nc"
abbrev file : Bytes
file = 97 ∷ 61 ∷ 49 ∷ 10 ∷ 98 ∷ 32 ∷ 61 ∷ 32 ∷ 45 ∷ 50 ∷ 53 ∷ 32 ∷ 35 ∷ 32 ∷ 110 ∷ 10 ∷ 99 ∷ []

loaded :
    (load (ok file) none empty).0
    ≡ record { container = (97 ∷ [], 49 ∷ []) ∷ (98 ∷ [], 45 ∷ 50 ∷ 53 ∷ []) ∷ [] }
unfolding load load_lines load_line read_lines get_key_value key_value first_two strip_comment index
    split push_front trim_space trim_left trim_right is_space insert eq_bytes
loaded = refl

abbrev held : EasyConfig
held = record {
  container =
      (97 ∷ [], 49 ∷ 50 ∷ [])
      ∷ (98 ∷ [], 45 ∷ 50 ∷ 53 ∷ [])
      ∷ (99 ∷ [], 120 ∷ 44 ∷ 121 ∷ 122 ∷ [])
      ∷ [];
}

b_int : get_int64 (98 ∷ []) (pos 3) held ≡ negsuc 24
unfolding get_parsed parse_int parse_uint parse_digits lookup eq_bytes
b_int = refl

no_d : has_config (100 ∷ []) held ≡ false
unfolding has_config lookup eq_bytes
no_d = refl

-- "x:5, y : 7,z"
pairs :
    parse_map parse_int (120 ∷ 58 ∷ 53 ∷ 44 ∷ 32 ∷ 121 ∷ 32 ∷ 58 ∷ 55 ∷ 44 ∷ 122 ∷ [])
    ≡ (120 ∷ [], pos 5) ∷ (121 ∷ [], pos 7) ∷ []
unfolding parse_map put_pairs put_pair split push_front trim_space trim_left trim_right is_space
    parse_int parse_uint parse_digits insert eq_bytes
pairs = refl

upper_true : parse_bool (text "True") ≡ true
unfolding parse_bool text eq_bytes
upper_true = refl

load_last_wins_example :
    let loaded = (load (ok (file ++ 10 ∷ ((97 ∷ 61 ∷ 50 ∷ []) ++ 10 ∷ []))) none empty).0 in
    let before = (load (ok (file ++ 10 ∷ [])) none empty).0 in
    (get_parsed parse_uint (trim_space (97 ∷ [])) 0 loaded ≡ parse_uint (trim_space (50 ∷ [])))
    × ((name : Bytes)
        → trim_space (97 ∷ []) ≢ name
        → get_parsed parse_uint name 0 loaded ≡ get_parsed parse_uint name 0 before)
unfolding index trim_space trim_left trim_right is_space
load_last_wins_example =
    load_last_wins parse_uint 0 file (97 ∷ []) (50 ∷ []) empty (λ e. cc) refl refl refl refl refl

last_line_lost :
    load (ok (file ++ 10 ∷ 97 ∷ 61 ∷ 50 ∷ [])) none empty ≡ load (ok (file ++ 10 ∷ [])) none empty
unfolding index
last_line_lost = load_unterminated file (97 ∷ 61 ∷ 50 ∷ []) none empty refl

comment_kept_out : get_key_value (97 ∷ 61 ∷ 49 ∷ 35 ∷ 50 ∷ []) ≡ get_key_value (97 ∷ 61 ∷ 49 ∷ [])
comment_kept_out = get_key_value_comment (97 ∷ 61 ∷ 49 ∷ []) (50 ∷ [])

get_key_value_pair_example : get_key_value (97 ∷ 61 ∷ 32 ∷ 49 ∷ []) ≡ some (97 ∷ [], 49 ∷ [])
unfolding index trim_space trim_left trim_right is_space
get_key_value_pair_example = get_key_value_pair (97 ∷ []) (32 ∷ 49 ∷ []) (λ e. cc) refl refl refl

parse_small : (parse_uint (45 ∷ 49 ∷ []) ≤ max_uint64) × IsInt half64 (parse_int (45 ∷ 49 ∷ []))
parse_small = parse-bound (45 ∷ 49 ∷ [])

numeral_read : get_uint64 (97 ∷ []) 5 held ≡ 12
unfolding lookup eq_bytes
numeral_read =
    get_uint64-numeral (97 ∷ []) 5 (1 ∷ 2 ∷ []) held (omega arith, (omega arith, tt)) refl

list_read : get_string_list (99 ∷ []) held ≡ (120 ∷ []) ∷ (121 ∷ 122 ∷ []) ∷ []
unfolding lookup index eq_bytes
list_read =
    get_string_list-join (99 ∷ []) (120 ∷ []) ((121 ∷ 122 ∷ []) ∷ []) held refl (refl, tt) refl
