-- ===== src/Emulate/Cached.antt =====
-- The caches of the opcode handlers, and what a failed initialisation leaves behind.
use aether_vm.Prelude.{
  ℕ, Bool, true, false, Option, none, some, ◌==◌, if◌then◌else◌, ◌≡◌, refl, sym, ap, ◌∙◌, ◌≢◌,
  arith, ==_iff, ==_self, Bool-cases, Option-cases, inl, inr,
}
use aether_vm.Emulate.{
  Width, fib_hash8, OpcodeHandlers, lookup, Ran, rejected, interpreted, uninitialised, interpret,
  prefetch, cached, emulate_found, emulate,
}

-- The specification: an emulation without caches
abbrev pub outcome : (ℕ → Bool) → (ℕ → ℕ) → Bool → Option (Option ℕ) → ℕ → Ran
outcome decodes body readonly (some impl) opcode = interpret impl
outcome decodes body readonly none opcode =
    if readonly then rejected else if decodes opcode then interpreted (body opcode) else rejected

cached-some :
    (hs : OpcodeHandlers) (entry : Option ℕ) (opcode : ℕ) {impl : Option ℕ}
    → cached hs entry opcode ≡ some impl
    → lookup hs.handlers opcode ≡ some impl
cached-some hs none opcode h = absurd (ground (arith, h))
cached-some hs (some entry) opcode {impl} h = elim (Bool-cases (entry == opcode)) [
  | inr e ↦ absurd (ground (arith, e, h))
  | inl e ↦ ap (lookup hs.handlers) (sym ((==_iff entry opcode).0 e)) ∙ ground (arith, e, h)
]

module _ (w : Width) (decodes : ℕ → Bool) (body : ℕ → ℕ) where
  emulate_found-outcome :
      (readonly : Bool) (hs : OpcodeHandlers) (opcode : ℕ)
      → (emulate_found w decodes body readonly hs opcode).1
        ≡ outcome decodes body readonly (lookup hs.handlers opcode) opcode
  unfolding emulate_found
  emulate_found-outcome readonly hs opcode = elim (Option-cases (lookup hs.handlers opcode)) [
    | inr (impl, e) ↦ rw (emulate_found, e) refl
    | inl e ↦ elim (Bool-cases readonly) [
      | inl f ↦ rw (emulate_found, e, f) refl
      | inr f ↦ elim (Bool-cases (decodes opcode)) [
        | inl g ↦ rw (emulate_found, e, f, g) refl
        | inr g ↦ rw (emulate_found, e, f, g) refl
      ]
    ]
  ]

  -- Whatever the cache holds, an emulation does what it does without one.
  pub emulate-outcome :
      (readonly : Bool) (hs : OpcodeHandlers) (opcode : ℕ)
      → (emulate w decodes body readonly hs opcode).1
        ≡ outcome decodes body readonly (lookup hs.handlers opcode) opcode
  unfolding emulate
  emulate-outcome readonly hs opcode =
      elim (Option-cases (cached hs (hs.caches (fib_hash8 w opcode)) opcode)) [
        | inl e ↦ rw (emulate, e) (emulate_found-outcome readonly hs opcode)
        | inr (impl, e) ↦
            rw (emulate, e, cached-some hs (hs.caches (fib_hash8 w opcode)) opcode e) refl
      ]

  emulate_found-lookup :
      (readonly : Bool) (hs : OpcodeHandlers) (opcode : ℕ)
      → lookup hs.handlers opcode ≡ none
      → readonly ≡ false
      → decodes opcode ≡ false
      → lookup (emulate_found w decodes body readonly hs opcode).0.handlers opcode ≡ some none
  unfolding emulate_found
  emulate_found-lookup readonly hs opcode e f g = rw (emulate_found, e, f, g, ==_self opcode) refl

  missed :
      (readonly : Bool) (hs : OpcodeHandlers) (opcode : ℕ)
      → lookup hs.handlers opcode ≡ none
      → emulate w decodes body readonly hs opcode ≡ emulate_found w decodes body readonly hs opcode
  unfolding emulate
  missed readonly hs opcode e =
      elim (Option-cases (cached hs (hs.caches (fib_hash8 w opcode)) opcode)) [
        | inl f ↦ rw (emulate, f) refl
        | inr (impl, f) ↦
            absurd (ground (arith, e, cached-some hs (hs.caches (fib_hash8 w opcode)) opcode f))
      ]

  -- An opcode that the decoder rejects is rejected by its first emulation, which leaves a handler without
  -- an initialisation in the set: its second emulation interprets that handler.
  pub emulate-invalid :
      (hs : OpcodeHandlers) (opcode : ℕ)
      → lookup hs.handlers opcode ≡ none
      → decodes opcode ≡ false
      → ((emulate w decodes body false hs opcode).1 ≡ rejected)
        × ((emulate w decodes body false (emulate w decodes body false hs opcode).0 opcode).1
            ≡ uninitialised)
  emulate-invalid hs opcode e g = (
    emulate-outcome false hs opcode ∙ rw (e, g) refl,
    emulate-outcome false (emulate w decodes body false hs opcode).0 opcode
        ∙ ap (λ o. outcome decodes body false o opcode) left,
  )
    where
      left : lookup (emulate w decodes body false hs opcode).0.handlers opcode ≡ some none
      left =
          ap (λ (r : OpcodeHandlers × Ran). lookup r.0.handlers opcode) (missed false hs opcode e)
          ∙ emulate_found-lookup false hs opcode e refl g

  prefetch-lookup :
      (hs : OpcodeHandlers) (opcode other : ℕ)
      → lookup hs.handlers opcode ≡ none
      → lookup (prefetch w body hs opcode).handlers other
        ≡ (if opcode == other then some (some (body opcode)) else lookup hs.handlers other)
  unfolding prefetch
  prefetch-lookup hs opcode other e = rw (prefetch, e) refl

  -- After the prefetch of a new opcode, a readonly emulation interprets the handler that was made for it,
  -- and every other opcode is emulated as before.
  pub emulate-prefetch :
      (hs : OpcodeHandlers) (opcode : ℕ)
      → lookup hs.handlers opcode ≡ none
      → ((emulate w decodes body true (prefetch w body hs opcode) opcode).1
          ≡ interpreted (body opcode))
        × ((other : ℕ)
            → opcode ≢ other
            → (emulate w decodes body true (prefetch w body hs opcode) other).1
              ≡ (emulate w decodes body true hs other).1)
  emulate-prefetch hs opcode e = (
    emulate-outcome true (prefetch w body hs opcode) opcode
        ∙ ap (λ o. outcome decodes body true o opcode) (prefetch-lookup hs opcode opcode e ∙ own),
    λ other d.
        emulate-outcome true (prefetch w body hs opcode) other
        ∙ ap (λ o. outcome decodes body true o other)
            (prefetch-lookup hs opcode other e ∙ apart other d)
        ∙ sym (emulate-outcome true hs other),
  )
    where
      own :
          (if opcode == opcode then some (some (body opcode)) else lookup hs.handlers opcode)
          ≡ some (some (body opcode))
      own = rw (==_self opcode) refl

      apart :
          (other : ℕ)
          → opcode ≢ other
          → (if opcode == other then some (some (body opcode)) else lookup hs.handlers other)
            ≡ lookup hs.handlers other
      apart other d = elim (Bool-cases (opcode == other)) [
        | inl t ↦ absurd (d ((==_iff opcode other).0 t))
        | inr t ↦ rw t refl
      ]
