-- ===== src/Config/Struct/Fields.antt =====
-- What `GetConfig` makes of a struct.
use easycall.Base.{
  ℕ, zero, suc, ◌≡◌, ◌≢◌, ◌⊎◌, refl, sym, ap, ◌∙◌, Bytes, true, false, Option, none, some, List, [],
  ◌∷◌, get_elem?, eq_bytes, eq_bytes_iff, if◌then◌else◌, Outcome, ok, panic, ◌>>=◌, Bool-cases,
  Option-cases, inl, inr, ok_inj, arith,
}
use easycall.Config.Struct.{
  Field, has_prefix, field_name, read_field, set_field, set_named, get_config,
}

module _ {F : Type 0} (parse_float : Bytes → F) (single : F → F) where
  -- The settings that follow.
  abbrev pub run : Bytes → List (Bytes × Bytes) → List (Field F) → Outcome (List (Field F))
  run prefix rest fs = get_config parse_float single prefix rest fs

  -- One setting, whose key has the prefix or not.
  abbrev pub one : Bytes → Bytes → Bytes → List (Field F) → Outcome (List (Field F))
  one prefix k v fs =
      if has_prefix k prefix then set_named parse_float single (field_name prefix k) v fs else ok fs

  -- What one setting does: nothing, it sets the field of that name, or it panics.
  pub one-cases :
      (prefix k v : Bytes) (fs : List (Field F))
      → ((has_prefix k prefix ≡ false) × (one prefix k v fs ≡ ok fs))
        ⊎ (((name : Bytes) × (has_prefix k prefix ≡ true)
              × (field_name prefix k ≡ some name)
              × (one prefix k v fs ≡ ok (set_field parse_float single name v fs)))
            ⊎ ((has_prefix k prefix ≡ true)
                × (field_name prefix k ≡ none)
                × (one prefix k v fs ≡ panic)))
  unfolding set_named
  one-cases prefix k v fs = elim (Bool-cases (has_prefix k prefix)) [
    | inl y ↦ elim (Option-cases (field_name prefix k)) [
      | inl n ↦ inr (inr (y, n, rw (y, n) refl))
      | inr (name, e) ↦ inr (inl (name, y, e, rw (y, e) refl))
    ]
    | inr n ↦ inl (n, rw n refl)
  ]

  one-named :
      (prefix k v name : Bytes) (fs : List (Field F))
      → has_prefix k prefix ≡ true
      → field_name prefix k ≡ some name
      → one prefix k v fs ≡ ok (set_field parse_float single name v fs)
  unfolding set_named
  one-named prefix k v name fs y e = rw (y, e) refl

  -- The field that `FieldByName` finds.
  abbrev pub find_field : Bytes → List (Field F) → Option (Field F)
  find_field name [] = none
  find_field name (f ∷ fs) = if eq_bytes f.name name then some f else find_field name fs

  -- What it is after it was set.
  abbrev pub after_read : Bytes → Option (Field F) → Option (Field F)
  after_read v none = none
  after_read v (some f) = some (read_field parse_float single v f)

  find_field-set_self :
      (name v : Bytes) (fs : List (Field F))
      → find_field name (set_field parse_float single name v fs) ≡ after_read v (find_field name fs)
  unfolding set_field
  find_field-set_self name v [] = refl
  find_field-set_self name v (f ∷ fs) = elim (Bool-cases (eq_bytes f.name name)) [
    | inl y ↦ rw (set_field, y) (rw y refl)
    | inr n ↦ rw (set_field, n) (rw n (find_field-set_self name v fs))
  ]

  find_field-set_ne :
      (name other v : Bytes) (fs : List (Field F))
      → name ≢ other
      → find_field other (set_field parse_float single name v fs) ≡ find_field other fs
  unfolding set_field
  find_field-set_ne name other v [] ne = refl
  find_field-set_ne name other v (f ∷ fs) ne = elim (Bool-cases (eq_bytes f.name name)) [
    | inl y ↦
        let away : eq_bytes f.name other ≡ false =
          ground (arith, eq_bytes_iff f.name name, eq_bytes_iff f.name other, ne, y) in
        rw (set_field, y) (rw away refl)
    | inr n ↦
        rw (set_field, n)
          (ap (λ x. if eq_bytes f.name other then some f else x)
            (find_field-set_ne name other v fs ne))
  ]

  -- No setting under the prefix is for a field of this name.
  abbrev IsFree : Bytes → Bytes → List (Bytes × Bytes) → Type 0
  IsFree prefix name entries =
      (j : ℕ) (k v : Bytes)
      → get_elem? entries j ≡ some (k, v)
      → has_prefix k prefix ≡ true
      → field_name prefix k ≢ some name

  find_field-free :
      (prefix name : Bytes) (entries : List (Bytes × Bytes)) (fs fs' : List (Field F))
      → get_config parse_float single prefix entries fs ≡ ok fs'
      → IsFree prefix name entries
      → find_field name fs' ≡ find_field name fs
  unfolding get_config
  find_field-free prefix name [] fs fs' e free = ap (find_field name) (sym (ok_inj e))
  find_field-free prefix name ((k, v) ∷ rest) fs fs' e free =
      let later : IsFree prefix name rest = λ j. free (suc j) in
      elim (one-cases prefix k v fs) [
        | inl (n, q) ↦
            find_field-free prefix name rest fs fs' (ap (λ o. o >>= run prefix rest) (sym q) ∙ e)
              later
        | inr (inl (other, y, nm, q)) ↦
            find_field-free prefix name rest (set_field parse_float single other v fs) fs'
              (ap (λ o. o >>= run prefix rest) (sym q) ∙ e) later
            ∙ find_field-set_ne other name v fs (λ same. free 0 k v refl y (nm ∙ ap some same))
        | inr (inr (y, n, q)) ↦
            let bad : panic ≡ ok fs' = ap (λ o. o >>= run prefix rest) (sym q) ∙ e in absurd (cc)
      ]

  -- A setting under the prefix is the only one for a field of this name.
  abbrev IsAlone : Bytes → Bytes → List (Bytes × Bytes) → ℕ → Type 0
  IsAlone prefix name entries i =
      (j : ℕ) (k v : Bytes)
      → i ≢ j
      → get_elem? entries j ≡ some (k, v)
      → has_prefix k prefix ≡ true
      → field_name prefix k ≢ some name

  find_field-alone :
      (prefix name : Bytes) (entries : List (Bytes × Bytes)) (fs fs' : List (Field F)) (i : ℕ)
      (k v : Bytes)
      → get_config parse_float single prefix entries fs ≡ ok fs'
      → get_elem? entries i ≡ some (k, v)
      → has_prefix k prefix ≡ true
      → field_name prefix k ≡ some name
      → IsAlone prefix name entries i
      → find_field name fs' ≡ after_read v (find_field name fs)
  unfolding get_config
  find_field-alone prefix name [] fs fs' i k v e at y nm alone = absurd (cc)
  find_field-alone prefix name ((k', v') ∷ rest) fs fs' zero k v e at y nm alone =
      let same_k : k ≡ k' = cc in
      let same_v : v ≡ v' = cc in
      let q : one prefix k' v' fs ≡ ok (set_field parse_float single name v fs) =
        ap (λ k. one prefix k v' fs) (sym same_k)
        ∙ ap (λ v. one prefix k v fs) (sym same_v)
        ∙ one-named prefix k v name fs y nm in
      find_field-free prefix name rest (set_field parse_float single name v fs) fs'
        (ap (λ o. o >>= run prefix rest) (sym q) ∙ e)
        (λ j k v h. alone (suc j) k v (λ n. omega (arith, n)) h)
      ∙ find_field-set_self name v fs
  find_field-alone prefix name ((k', v') ∷ rest) fs fs' (suc i) k v e at y nm alone =
      let later : IsAlone prefix name rest i =
        λ j k v ne. alone (suc j) k v (λ h. ne (omega (arith, h))) in
      elim (one-cases prefix k' v' fs) [
        | inl (n, q) ↦
            find_field-alone prefix name rest fs fs' i k v
              (ap (λ o. o >>= run prefix rest) (sym q) ∙ e) at y nm later
        | inr (inl (other, y', nm', q)) ↦
            find_field-alone prefix name rest (set_field parse_float single other v' fs) fs' i k v
              (ap (λ o. o >>= run prefix rest) (sym q) ∙ e) at y nm later
            ∙ ap (after_read v) (
                find_field-set_ne other name v' fs
                  (λ same. alone 0 k' v' (λ h. omega (arith, h)) refl y' (nm' ∙ ap some same)))
        | inr (inr (y, n, q)) ↦
            let bad : panic ≡ ok fs' = ap (λ o. o >>= run prefix rest) (sym q) ∙ e in absurd (cc)
      ]

  -- Let `GetConfig` return, and let the settings come in any order. A setting whose key is the prefix
  -- and a rest, and which alone is for the field of that name, is read into that field by the kind of
  -- the field. A field for which there is no setting keeps its value.
  pub get_config_fields :
      (prefix name kept : Bytes) (entries : List (Bytes × Bytes)) (fs fs' : List (Field F)) (i : ℕ)
      (k v : Bytes)
      → get_config parse_float single prefix entries fs ≡ ok fs'
      → get_elem? entries i ≡ some (k, v)
      → has_prefix k prefix ≡ true
      → field_name prefix k ≡ some name
      → ((j : ℕ) (k v : Bytes)
          → i ≢ j
          → get_elem? entries j ≡ some (k, v)
          → has_prefix k prefix ≡ true
          → field_name prefix k ≢ some name)
      → ((j : ℕ) (k v : Bytes)
          → get_elem? entries j ≡ some (k, v)
          → has_prefix k prefix ≡ true
          → field_name prefix k ≢ some kept)
      → (find_field name fs' ≡ after_read v (find_field name fs))
        × (find_field kept fs' ≡ find_field kept fs)
  get_config_fields prefix name kept entries fs fs' i k v e at y nm alone free = (
    find_field-alone prefix name entries fs fs' i k v e at y nm alone,
    find_field-free prefix kept entries fs fs' e free,
  )
