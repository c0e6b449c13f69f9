-- ===== src/Names/Tables.antt =====
-- The tables of offsets that `OpcodeEngine` starts with, and GetOffset: src/OpcodeEngine.cpp.
use aether_vm.Prelude.{
  ℕ, Bool, true, false, ◌||◌, Option, none, some, List, [], ◌∷◌, if◌then◌else◌, ◌≡◌, refl, sym, ap,
  ◌∙◌, arith, ==_iff, Option-cases, inl, inr,
}
use aether_vm.Names.{
  ArmField, arm_offset, from_chars, load_regoffs_aarch64, names_aarch64, offsets_of, get_offset,
  or_else, same_name,
}
use aether_vm.Names.X64.{X64Field, x64_offset, load_regoffs_x64, names_x64}

abbrev is_filled {ℓ} : {A : Type ℓ} → Option A → Bool
is_filled none = false
is_filled (some a) = true

filled {ℓ} : {A : Type ℓ} (o : Option A) → is_filled o ≡ true → (a : A) × (o ≡ some a)
filled none h = cc
filled (some a) h = (a, refl)

-- One of the names
abbrev pub is_listed : List (List ℕ) → List ℕ → Bool
is_listed [] name = false
is_listed (key ∷ names) name = is_listed names name || same_name key name

same_name-eq : (a b : List ℕ) → same_name a b ≡ true → a ≡ b
same_name-eq [] [] h = refl
same_name-eq [] (d ∷ m) h = cc
same_name-eq (c ∷ l) [] h = cc
same_name-eq (c ∷ l) (d ∷ m) h =
    ap (λ x. x ∷ l) ((==_iff c d).0 (ground (arith, h)))
    ∙ ap (λ x. d ∷ x) (same_name-eq l m (ground (arith, h)))

module _ {ℓ} {A : Type ℓ} (offset : List ℕ → Option A) where
  combine :
      (listed same : Bool) (field : A) (value : Option A)
      → (same ≡ true → value ≡ some field)
      → or_else (if listed then value else none) (if same then some field else none)
        ≡ (if listed || same then value else none)
  combine true true field value h = rw (h refl) refl
  combine true false field none h = refl
  combine true false field (some a) h = refl
  combine false true field value h = sym (h refl)
  combine false false field value h = refl

  offsets-cons :
      (key : List ℕ) (names : List (List ℕ)) {table : List (List ℕ × A)}
      → offsets_of offset (key ∷ names) ≡ some table
      → (field : A) × (rest : List (List ℕ × A)) × (offset key ≡ some field)
        × (offsets_of offset names ≡ some rest)
        × (table ≡ (key, field) ∷ rest)
  offsets-cons key names {table} h = elim (Option-cases (offset key)) [
    | inl e ↦ absurd (ground (arith, e, h))
    | inr (field, e) ↦ elim (Option-cases (offsets_of offset names)) [
      | inl k ↦ absurd (ground (arith, e, k, h))
      | inr (rest, k) ↦ (field, rest, e, k, ground (arith, e, k, h))
    ]
  ]

  get_offset-offsets_of :
      (names : List (List ℕ)) (table : List (List ℕ × A)) (name : List ℕ)
      → offsets_of offset names ≡ some table
      → get_offset table name ≡ (if is_listed names name then offset name else none)
  unfolding get_offset
  get_offset-offsets_of [] [] name h = refl
  get_offset-offsets_of [] (x ∷ table) name h = cc
  get_offset-offsets_of (key ∷ names) table name h =
      let (field, rest, e, k, same) = offsets-cons key names h in
      ap (λ t. get_offset t name) same
      ∙ ap (λ o. or_else o (if same_name key name then some field else none))
          (get_offset-offsets_of names rest name k)
      ∙ combine (is_listed names name) (same_name key name) field (offset name)
          (λ t. ap offset (sym (same_name-eq key name t)) ∙ e)

-- No name that the engine lists aborts, on either architecture, and in the tables GetOffset takes every name
-- that is listed to its offset_reg, and aborts at every other one.
pub load_regoffs-get_offset :
    ((table : List (List ℕ × ArmField)) × (load_regoffs_aarch64 ≡ some table)
      × ((name : List ℕ)
          → get_offset table name
            ≡ (if is_listed names_aarch64 name then arm_offset name else none)))
    × ((table : List (List ℕ × X64Field)) × (load_regoffs_x64 ≡ some table)
        × ((name : List ℕ)
            → get_offset table name ≡ (if is_listed names_x64 name then x64_offset name else none)))
unfolding arm_offset x64_offset from_chars
load_regoffs-get_offset =
    let (arm, loaded) = filled load_regoffs_aarch64 refl in
    let (x64, loaded') = filled load_regoffs_x64 refl in
    (
      (arm, loaded, λ name. get_offset-offsets_of arm_offset names_aarch64 arm name loaded),
      (x64, loaded', λ name. get_offset-offsets_of x64_offset names_x64 x64 name loaded'),
    )
