-- ===== src/Config/Lines.antt =====
-- The lines of a file, and what `Load` makes of them.
use easycall.Base.{
  ℕ, ◌≡◌, ◌≢◌, refl, ap, ◌∙◌, Bytes, false, Option, none, some, List, [], ◌∷◌, ◌++◌, append_assoc,
  append-nil, length, insert, bytes_key, ◌==◌, if◌then◌else◌, Bool-cases, Option-cases, inl, inr,
  arith, ok, err, lookup-insert_self, lookup-insert_ne,
}
use easycall.Config.{
  EasyConfig, strip_comment, first_two, key_value, get_key_value, load_line, read_lines, load_lines,
  load, get_parsed,
}
use easycall.Config.Strings.{index, push_front, split, is_space, trim_left, trim_right, trim_space}

-- The character does not occur in the text.
abbrev pub Lacks : ℕ → Bytes → Type 0
Lacks c s = index c s ≡ none

Lacks-tail : (c x : ℕ) (xs : Bytes) → Lacks c (x ∷ xs) → ((x == c) ≡ false) × Lacks c xs
unfolding index
Lacks-tail c x xs h = elim (Option-cases (index c xs)) [
  | inl e ↦ (ground arith, e)
  | inr (i, e) ↦ ground arith
]

pub index-append : (c : ℕ) (s t : Bytes) → Lacks c s → index c (s ++ c ∷ t) ≡ some (length s)
unfolding index
index-append c [] t h = ground arith
index-append c (x ∷ s) t h = let (n, k) = Lacks-tail c x s h in rw (n, index-append c s t k) refl

pub Lacks-append : (c : ℕ) (s t : Bytes) → Lacks c s → Lacks c t → Lacks c (s ++ t)
unfolding index
Lacks-append c [] t h k = k
Lacks-append c (x ∷ s) t h k =
    let (n, m) = Lacks-tail c x s h in rw (n, Lacks-append c s t m k) refl

pub split_one : (c : ℕ) (s : Bytes) → Lacks c s → split c s ≡ s ∷ []
unfolding split push_front
split_one c [] h = refl
split_one c (x ∷ s) h = let (n, k) = Lacks-tail c x s h in rw (n, split_one c s k) refl

pub split-append : (c : ℕ) (s t : Bytes) → Lacks c s → split c (s ++ c ∷ t) ≡ s ∷ split c t
unfolding split push_front
split-append c [] t h = ground arith
split-append c (x ∷ s) t h = let (n, k) = Lacks-tail c x s h in rw (n, split-append c s t k) refl

strip_comment_none : (s : Bytes) → Lacks 35 s → strip_comment s ≡ s
unfolding strip_comment
strip_comment_none s h = rw (strip_comment, h) refl

strip_comment_cons :
    (x : ℕ) (s : Bytes) → strip_comment (x ∷ s) ≡ (if x == 35 then [] else x ∷ strip_comment s)
unfolding strip_comment index
strip_comment_cons x s = elim (Option-cases (index 35 s)) [
  | inl e ↦ ground (arith, e)
  | inr (i, e) ↦ ground (arith, e)
]

strip_comment-append : (s t : Bytes) → strip_comment (s ++ 35 ∷ t) ≡ strip_comment s
strip_comment-append [] t = strip_comment_cons 35 t ∙ (unfold strip_comment index in refl)
strip_comment-append (x ∷ s) t =
    rw (strip_comment_cons x (s ++ 35 ∷ t), strip_comment_cons x s, strip_comment-append s t) refl

-- What follows a `#` on a line is without effect, whether or not the line has one before.
pub get_key_value_comment :
    (line rest : Bytes) → get_key_value (line ++ 35 ∷ rest) ≡ get_key_value line
unfolding get_key_value
get_key_value_comment line rest =
    ap (λ s. key_value (index 61 s) s) (strip_comment-append line rest)

-- A line `k=v` with no `#` and no further `=`, and a key that is not empty, is that key and that
-- value, each without the white space around it.
pub get_key_value_pair :
    (k v : Bytes)
    → k ≢ []
    → Lacks 35 (k ++ 61 ∷ v)
    → Lacks 61 k
    → Lacks 61 v
    → get_key_value (k ++ 61 ∷ v) ≡ some (trim_space k, trim_space v)
unfolding get_key_value key_value first_two
get_key_value_pair [] v n h a b = ground (arith, n)
get_key_value_pair (x ∷ k) v n h a b =
    rw
      (
        strip_comment_none (x ∷ k ++ 61 ∷ v) h,
        index-append 61 (x ∷ k) v a,
        split-append 61 (x ∷ k) v a,
        split_one 61 v b,
      )
      refl

read_lines-append :
    (line s t : Bytes)
    → read_lines line (s ++ 10 ∷ t) ≡ read_lines line (s ++ 10 ∷ []) ++ read_lines [] t
unfolding read_lines
read_lines-append line [] t = refl
read_lines-append line (c ∷ s) t = elim (Bool-cases (c == 10)) [
  | inl e ↦ rw (e, read_lines-append [] s t) refl
  | inr e ↦ rw e (read_lines-append (line ++ c ∷ []) s t)
]

read_lines_one :
    (line s : Bytes) → Lacks 10 s → read_lines line (s ++ 10 ∷ []) ≡ (line ++ (s ++ 10 ∷ [])) ∷ []
unfolding read_lines
read_lines_one line [] h = refl
read_lines_one line (c ∷ s) h =
    let (n, k) = Lacks-tail 10 c s h in
    rw n (
      read_lines_one (line ++ c ∷ []) s k
      ∙ ap (λ l. l ∷ []) (append_assoc line (c ∷ []) (s ++ 10 ∷ [])))

read_lines_none : (line s : Bytes) → Lacks 10 s → read_lines line s ≡ []
unfolding read_lines
read_lines_none line [] h = refl
read_lines_none line (c ∷ s) h =
    let (n, k) = Lacks-tail 10 c s h in rw n (read_lines_none (line ++ c ∷ []) s k)

load_lines-append :
    (a b : List Bytes) (ec : EasyConfig) → load_lines (a ++ b) ec ≡ load_lines b (load_lines a ec)
unfolding load_lines
load_lines-append [] b ec = refl
load_lines-append (l ∷ a) b ec = load_lines-append a b (load_line l ec)

trim_right_feed : (s : Bytes) → trim_right (s ++ 10 ∷ []) ≡ trim_right s
unfolding trim_right is_space
trim_right_feed [] = refl
trim_right_feed (c ∷ s) = rw (trim_right_feed s) refl

trim_space_feed : (s : Bytes) → trim_space (s ++ 10 ∷ []) ≡ trim_space s
unfolding trim_space trim_left
trim_space_feed [] = unfold trim_right is_space in refl
trim_space_feed (c ∷ s) = elim (Bool-cases (is_space c)) [
  | inl e ↦ rw e (trim_space_feed s)
  | inr e ↦ rw e (trim_right_feed (c ∷ s))
]

load_line_feed :
    (line : Bytes) (ec : EasyConfig) → load_lines ((line ++ 10 ∷ []) ∷ []) ec ≡ load_line line ec
unfolding load_lines load_line
load_line_feed line ec = rw (load_line, trim_space_feed line) refl

load_lines-read_lines :
    (s line : Bytes) (ec : EasyConfig)
    → Lacks 10 line
    → load_lines (read_lines [] (s ++ 10 ∷ (line ++ 10 ∷ []))) ec
      ≡ load_line line (load_lines (read_lines [] (s ++ 10 ∷ [])) ec)
load_lines-read_lines s line ec h =
    rw (read_lines-append [] s (line ++ 10 ∷ []), read_lines_one [] line h)
      (load_lines-append (read_lines [] (s ++ 10 ∷ [])) ((line ++ 10 ∷ []) ∷ []) ec
        ∙ load_line_feed line (load_lines (read_lines [] (s ++ 10 ∷ [])) ec))

-- A last line that no line feed ends is not read: the file loads as if it were not there.
pub load_unterminated :
    (s line : Bytes) (failure : Option Bytes) (ec : EasyConfig)
    → Lacks 10 line
    → load (ok (s ++ 10 ∷ line)) failure ec ≡ load (ok (s ++ 10 ∷ [])) failure ec
unfolding load
load_unterminated s line failure ec h =
    ap (λ ls. (load_lines ls ec, elim failure [ none ↦ ok tt | some e ↦ err e ]))
      (read_lines-append [] s line
        ∙ (ap (λ r. read_lines [] (s ++ 10 ∷ []) ++ r) (read_lines_none [] line h)
            ∙ append-nil (read_lines [] (s ++ 10 ∷ []))))

load_line_pair :
    (k v : Bytes) (ec : EasyConfig)
    → k ≢ []
    → Lacks 35 (k ++ 61 ∷ v)
    → Lacks 61 k
    → Lacks 61 v
    → trim_space (k ++ 61 ∷ v) ≡ k ++ 61 ∷ v
    → load_line (k ++ 61 ∷ v) ec
      ≡ (record ec { container = insert (trim_space k) (trim_space v) ec.container })
unfolding load_line
load_line_pair k v ec n h a b t = rw (load_line, t, get_key_value_pair k v n h a b) refl

-- When a file that loads ends in a line `k=v`, which is one pair and has no white space at its ends,
-- then every getter of the key reads the trimmed value, whatever the file and the configuration say
-- before it, and all other keys are as the rest of the file leaves them.
pub load_last_wins :
    {A : Type 0} (parse : Bytes → A) (d : A) (s k v : Bytes) (ec : EasyConfig)
    → k ≢ []
    → Lacks 35 (k ++ 61 ∷ v)
    → Lacks 61 k
    → Lacks 61 v
    → Lacks 10 (k ++ 61 ∷ v)
    → trim_space (k ++ 61 ∷ v) ≡ k ++ 61 ∷ v
    → let loaded = (load (ok (s ++ 10 ∷ ((k ++ 61 ∷ v) ++ 10 ∷ []))) none ec).0 in
      let before = (load (ok (s ++ 10 ∷ [])) none ec).0 in
      (get_parsed parse (trim_space k) d loaded ≡ parse (trim_space v))
      × ((name : Bytes)
          → trim_space k ≢ name
          → get_parsed parse name d loaded ≡ get_parsed parse name d before)
unfolding load get_parsed
load_last_wins parse d s k v ec n h a b f t =
    let before = load_lines (read_lines [] (s ++ 10 ∷ [])) ec in
    let e =
      ap (λ c. c.container)
        (load_lines-read_lines s (k ++ 61 ∷ v) ec f ∙ load_line_pair k v before n h a b t) in
    (
      rw (e, get_parsed, lookup-insert_self (trim_space k) (trim_space v) before.container) refl,
      λ name ne.
          rw
            (e, get_parsed, lookup-insert_ne (trim_space k) name (trim_space v) before.container ne)
            refl,
    )
