-- ===== src/Config/Struct/Panics.antt =====
-- Where `GetConfig` panics.
use easycall.Base.{
  ℕ, zero, suc, ◌≡◌, ◌↔◌, refl, sym, ap, ◌∙◌, Bytes, true, none, some, List, [], ◌∷◌, ◌++◌,
  append-nil, length, drop, get_elem?, Outcome, ok, panic, ◌>>=◌, inl, inr, arith,
}
use easycall.Config.Struct.{
  Field, has_prefix, to_upper, field_name, get_config, set_field, set_named,
}
use easycall.Config.Struct.Fields.{run, one, one-cases}

has_prefix-drop :
    (k prefix : Bytes) → has_prefix k prefix ≡ true → k ≡ prefix ++ drop (length prefix) k
unfolding has_prefix
has_prefix-drop k [] h = refl
has_prefix-drop [] (x ∷ prefix) h = absurd (cc)
has_prefix-drop (c ∷ k) (x ∷ prefix) h = ground (arith, has_prefix-drop k prefix)

field_name-none : (prefix k : Bytes) → field_name prefix k ≡ none → drop (length prefix) k ≡ []
unfolding field_name
field_name-none prefix k h = go (drop (length prefix) k) h
  where
    go :
        (rest : Bytes)
        → elim rest [ [] ↦ none | c ∷ cs ↦ some (to_upper c ∷ cs) ] ≡ none
        → rest ≡ []
    go [] h = refl
    go (c ∷ cs) h = absurd (cc)

prefix_itself :
    (prefix : Bytes) → (has_prefix prefix prefix ≡ true) × (drop (length prefix) prefix ≡ [])
unfolding has_prefix
prefix_itself [] = (refl, refl)
prefix_itself (x ∷ prefix) = let (a, b) = prefix_itself prefix in (ground (arith, a), b)

module _ {F : Type 0} (parse_float : Bytes → F) (single : F → F) where
  panics_only :
      (prefix : Bytes) (entries : List (Bytes × Bytes)) (fs : List (Field F))
      → get_config parse_float single prefix entries fs ≡ panic
      → (i : ℕ) × (v : Bytes) × (get_elem? entries i ≡ some (prefix, v))
  unfolding get_config
  panics_only prefix [] fs e = absurd (cc)
  panics_only prefix ((k, v) ∷ rest) fs e =
      let step = λ (o : Outcome (List (Field F))) (q : one parse_float single prefix k v fs ≡ o).
        ap (λ o. o >>= run parse_float single prefix rest) (sym q) ∙ e in
      elim (one-cases parse_float single prefix k v fs) [
        | inl (n, q) ↦ let (i, w, h) = panics_only prefix rest fs (step (ok fs) q) in (suc i, w, h)
        | inr (inl (name, y, nm, q)) ↦
            let fs' = set_field parse_float single name v fs in
            let (i, w, h) = panics_only prefix rest fs' (step (ok fs') q) in (suc i, w, h)
        | inr (inr (y, n, q)) ↦
            let same =
              has_prefix-drop k prefix y
              ∙ ap (prefix ++◌) (field_name-none prefix k n)
              ∙ append-nil prefix in
            (0, v, ap (λ k. some (k, v)) same)
      ]

  one_panics :
      (prefix v : Bytes) (fs : List (Field F)) → one parse_float single prefix prefix v fs ≡ panic
  unfolding field_name set_named
  one_panics prefix v fs = let (a, b) = prefix_itself prefix in rw (a, field_name, b) refl

  panics_at :
      (prefix : Bytes) (entries : List (Bytes × Bytes)) (fs : List (Field F)) (i : ℕ) (v : Bytes)
      → get_elem? entries i ≡ some (prefix, v)
      → get_config parse_float single prefix entries fs ≡ panic
  unfolding get_config
  panics_at prefix [] fs i v h = absurd (cc)
  panics_at prefix ((k, w) ∷ rest) fs zero v h =
      let same : k ≡ prefix = cc in
      ap (λ k. one parse_float single prefix k w fs >>= run parse_float single prefix rest) same
      ∙ ap (λ o. o >>= run parse_float single prefix rest) (one_panics prefix w fs)
  panics_at prefix ((k, w) ∷ rest) fs (suc i) v h =
      let then_rest =
        λ (o : Outcome (List (Field F))) (q : one parse_float single prefix k w fs ≡ o).
          ap (λ o. o >>= run parse_float single prefix rest) q in
      elim (one-cases parse_float single prefix k w fs) [
        | inl (n, q) ↦ then_rest (ok fs) q ∙ panics_at prefix rest fs i v h
        | inr (inl (name, y, nm, q)) ↦
            let fs' = set_field parse_float single name w fs in
            then_rest (ok fs') q ∙ panics_at prefix rest fs' i v h
        | inr (inr (y, n, q)) ↦ then_rest panic q
      ]

  -- Whatever the struct and the order of the settings, `GetConfig` panics exactly when one of the
  -- settings has the prefix itself as its key.
  pub get_config_panics :
      (prefix : Bytes) (entries : List (Bytes × Bytes)) (fs : List (Field F))
      → (get_config parse_float single prefix entries fs ≡ panic)
        ↔ ((i : ℕ) × (v : Bytes) × (get_elem? entries i ≡ some (prefix, v)))
  get_config_panics prefix entries fs =
      (panics_only prefix entries fs, λ (i, v, h). panics_at prefix entries fs i v h)
