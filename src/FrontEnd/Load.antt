-- ===== src/FrontEnd/Load.antt =====
-- BinaryEngine::orchBinary of src/AetherVM.cpp: where the sections of a binary are in memory afterwards.
use aether_vm.Prelude.{
  ℕ, zero, suc, ◌+◌, ◌≤◌, ◌<◌, Bool, false, Option, some, List, [], ◌∷◌, ◌++◌, length, ◌==◌,
  if◌then◌else◌, ◌≡◌, refl, ap, subst, sym, ◌∙◌, ◌≢◌, ◌⊎◌, arith, All, Bool-cases, Option-cases,
  inl, inr,
}
use aether_vm.Word.{add64}
use aether_vm.Search.{◌>>=◌, align_up}
use aether_vm.Memory.{commit, Engine, mapped_address, load, store, write_memory}
use aether_vm.Memory.Access.{store-outside, load-store}
use aether_vm.Blocks.{EventConfig, BasicBlocks}
use aether_vm.Blocks.Encode.{ArchType, Func, last_end, encode}
use aether_vm.FrontEnd.{
  Section, Binary, Piece, total_size, lift_opcodes, section_pieces, map_sections, orch_binary,
}
use aether_vm.FrontEnd.Lift.{lift_opcodes-IsTiling}

-- Where a range of addresses is written to: guest memory, or the same addresses of the host
abbrev pub place : Engine → ℕ → ℕ → ℕ
place e addr size = if mapped_address e addr size == 0 then addr else mapped_address e addr size

abbrev pub section_place : Engine → ℕ → Section → ℕ
section_place e addend s = place e (add64 s.addr addend) (length s.content)

abbrev pub IsOutside : Engine → ℕ → ℕ → Section → Type 0
IsOutside e addend a s =
    (a < section_place e addend s) ⊎ (section_place e addend s + length s.content ≤ a)

-- No two sections share a byte.
abbrev pub IsApart : Engine → ℕ → Section → Section → Type 0
IsApart e addend s t =
    (section_place e addend s + length s.content ≤ section_place e addend t)
    ⊎ (section_place e addend t + length t.content ≤ section_place e addend s)

abbrev pub AreApart : Engine → ℕ → List Section → Type 0
AreApart e addend [] = Unit
AreApart e addend (s ∷ sections) = All (IsApart e addend s) sections × AreApart e addend sections

abbrev pub IsLoaded : Engine → (ℕ → ℕ) → ℕ → Section → Type 0
IsLoaded e bytes addend s = load bytes (section_place e addend s) (length s.content) ≡ s.content

load-eq :
    (b c : ℕ → ℕ) (addr n : ℕ)
    → ((d : ℕ) → d < n → b (addr + d) ≡ c (addr + d))
    → load b addr n ≡ load c addr n
load-eq b c addr zero h = refl
load-eq b c addr (suc n) h =
    let start : addr + 0 ≡ addr = omega arith in
    let here : b addr ≡ c addr = subst (λ a. b a ≡ c a) start (h 0 (omega arith)) in
    cc (
      here,
      load-eq b c (suc addr) n (λ d below.
          let at : suc addr + d ≡ addr + suc d = omega arith in
          subst (λ a. b a ≡ c a) (sym at) (h (suc d) (omega (arith, below)))),
    )

load-nil :
    (b : ℕ → ℕ) (addr : ℕ) (content : List ℕ)
    → length content ≡ 0
    → load b addr (length content) ≡ content
load-nil b addr [] h = refl
load-nil b addr (x ∷ content) h = absurd (omega (arith, h))

module _ (page_commit : ℕ → ℕ → Bool) (memory_write : (ℕ → ℕ) → ℕ → List ℕ → Option (ℕ → ℕ))
    (page_size default_size : ℕ) (disassemble : Section → ℕ → ℕ)
    (lookup : List Piece → ℕ → Option ℕ) (positive : default_size ≢ 0) where
  -- The section has a mapped address, or the host writes it.
  abbrev pub IsWritable : Engine → ℕ → Section → Type 0
  IsWritable e addend s =
      (mapped_address e (add64 s.addr addend) (length s.content) ≢ 0)
      ⊎ ((bytes : ℕ → ℕ)
          → memory_write bytes (add64 s.addr addend) s.content
            ≡ some (store bytes (add64 s.addr addend) s.content))

  pieces-total :
      (arch : ArchType) (s : Section) (vmaddr : ℕ)
      → (pieces : List Piece) × (section_pieces page_commit memory_write page_size default_size
            disassemble lookup arch s vmaddr
          ≡ some pieces)
  pieces-total arch s vmaddr = elim (Bool-cases s.is_text) [
    | inl e ↦
        let (pieces, done, tiles) =
          lift_opcodes-IsTiling arch default_size (disassemble s) vmaddr (length s.content)
            positive in
        (pieces, simp e done)
    | inr e ↦ ([], rw e refl)
  ]

  write-at :
      (e : Engine) (addend : ℕ) (s : Section)
      → IsWritable e addend s
      → (write_memory memory_write e (add64 s.addr addend) s.content).0
        ≡ record e { bytes = store e.bytes (section_place e addend s) s.content }
  unfolding write_memory
  write-at e addend s h =
      elim (Bool-cases (mapped_address e (add64 s.addr addend) (length s.content) == 0)) [
        | inl m ↦ elim h [
          | inl mapped ↦ absurd (ground (arith, m, mapped))
          | inr host ↦ rw (m, write_memory, host e.bytes) refl
        ]
        | inr m ↦ rw (m, write_memory) refl
      ]

  -- What is lifted of the sections: the instructions of every text section that is not empty, in the order
  -- of the sections, each at the address that it is loaded to.
  abbrev pub lifted_pieces : ArchType → ℕ → List Section → Option (List Piece)
  lifted_pieces arch addend [] = some []
  lifted_pieces arch addend (s ∷ sections) =
      let rest = lifted_pieces arch addend sections in
      if s.size == 0
      then rest
      else (if s.is_text
          then lift_opcodes arch default_size (disassemble s) (add64 s.addr addend)
              (length s.content)
          else some [])
        >>= λ first. rest >>= λ more. some (first ++ more)

  lifted-step :
      (arch : ArchType) (addend : ℕ) (s : Section) (sections : List Section)
      {first pieces : List Piece}
      → (s.size == 0) ≡ false
      → section_pieces page_commit memory_write page_size default_size disassemble lookup arch s
          (add64 s.addr addend)
        ≡ some first
      → lifted_pieces arch addend sections ≡ some pieces
      → lifted_pieces arch addend (s ∷ sections) ≡ some (first ++ pieces)
  lifted-step arch addend s sections t made done = simp (t, made, done) refl

  -- What map_sections does to the memory: the sections are at their places, all else is kept.
  abbrev pub IsMapped : ArchType → ℕ → List Section → Engine → Type 0
  IsMapped arch addend sections e =
      (bytes : ℕ → ℕ) × (pieces : List Piece) × (map_sections page_commit memory_write page_size
          default_size disassemble lookup arch addend sections e
        ≡ some (record e { bytes = bytes }, pieces))
      × (lifted_pieces arch addend sections ≡ some pieces)
      × ((a : ℕ) → All (IsOutside e addend a) sections → bytes a ≡ e.bytes a)
      × All (IsLoaded e bytes addend) sections

  abbrev pub IsWhole : Section → Type 0
  IsWhole s = length s.content ≡ s.size

  IsOutside-section :
      (e : Engine) (addend : ℕ) (s : Section) (d : ℕ) (sections : List Section)
      → d < length s.content
      → All (IsApart e addend s) sections
      → All (IsOutside e addend (section_place e addend s + d)) sections
  IsOutside-section e addend s d [] below apart = tt
  IsOutside-section e addend s d (t ∷ sections) below (apart, rest) =
      (before apart, IsOutside-section e addend s d sections below rest)
    where
      before : IsApart e addend s t → IsOutside e addend (section_place e addend s + d) t
      before (inl h) = inl (omega (arith, h, below))
      before (inr h) = inr (omega (arith, h, below))

  map-step :
      (arch : ArchType) (addend : ℕ) (s : Section) (sections : List Section) (e e' : Engine)
      {first : List Piece} {r : Engine × List Piece}
      → (s.size == 0) ≡ false
      → section_pieces page_commit memory_write page_size default_size disassemble lookup arch s
          (add64 s.addr addend)
        ≡ some first
      → (write_memory memory_write e (add64 s.addr addend) s.content).0 ≡ e'
      → map_sections page_commit memory_write page_size default_size disassemble lookup arch addend
          sections e'
        ≡ some r
      → map_sections page_commit memory_write page_size default_size disassemble lookup arch addend
          (s ∷ sections)
          e
        ≡ some (r.0, first ++ r.1)
  unfolding map_sections
  map-step arch addend s sections e e' t made written done =
      simp (t, map_sections, made, written, done) refl

  IsMapped-cons :
      (arch : ArchType) (addend : ℕ) (s : Section) (sections : List Section) (e : Engine)
      → (s.size == 0) ≡ false
      → IsWritable e addend s
      → All (IsApart e addend s) sections
      → IsMapped arch addend sections
          (record e { bytes = store e.bytes (section_place e addend s) s.content })
      → IsMapped arch addend (s ∷ sections) e
  unfolding map_sections mapped_address
  IsMapped-cons arch addend s sections e t writable apart
        (bytes, pieces, done, lifted, kept, loaded) =
      let (first, made) = pieces-total arch s (add64 s.addr addend) in
      let at = section_place e addend s in
      (
        bytes,
        first ++ pieces,
        map-step arch addend s sections e
            (record e { bytes = store e.bytes (section_place e addend s) s.content }) t made
            (write-at e addend s writable) done,
        lifted-step arch addend s sections t made lifted,
        λ a out. kept a out.1 ∙ store-outside e.bytes at s.content a out.0,
        (
          load-eq bytes (store e.bytes at s.content) at (length s.content)
                (λ d below. kept (at + d) (IsOutside-section e addend s d sections below apart))
              ∙ load-store e.bytes at s.content,
          loaded,
        ),
      )

  IsMapped-total :
      (arch : ArchType) (addend : ℕ) (sections : List Section) (e : Engine)
      → All IsWhole sections
      → All (IsWritable e addend) sections
      → AreApart e addend sections
      → IsMapped arch addend sections e
  unfolding map_sections mapped_address
  IsMapped-total arch addend [] e whole writable apart =
      (e.bytes, [], refl, refl, (λ a out. refl), tt)
  IsMapped-total arch addend (s ∷ sections) e (w, whole) (wr, writable) (a, apart) =
      elim (Bool-cases (s.size == 0)) [
        | inl t ↦
            let (bytes, pieces, done, lifted, kept, loaded) =
              IsMapped-total arch addend sections e whole writable apart in
            (
              bytes,
              pieces,
              simp (t, map_sections) done,
              simp t lifted,
              λ a out. kept a out.1,
              (load-nil bytes (section_place e addend s) s.content (ground (arith, w, t)), loaded),
            )
        | inr t ↦ IsMapped-cons arch addend s sections e t wr a (
            IsMapped-total arch addend sections
              (record e { bytes = store e.bytes (section_place e addend s) s.content }) whole
              writable apart)
      ]

  encode-total :
      (config : EventConfig) (arch : ArchType) (handlers : ℕ → Option ℕ) (addend : ℕ) (f : Func)
      (funcs : List Func)
      → (blocks : BasicBlocks) × (encode config arch handlers addend (f ∷ funcs) ≡ some blocks)
  unfolding encode
  encode-total config arch handlers addend f funcs =
      let (last, e) = last-total f funcs in
      elim (Option-cases (encode config arch handlers addend (f ∷ funcs))) [
        | inl k ↦ absurd (ground (arith, e, k))
        | inr found ↦ found
      ]
    where
      last-total : (f : Func) (funcs : List Func) → (last : ℕ) × (last_end (f ∷ funcs) ≡ some last)
      last-total f [] = (f.end_addr, refl)
      last-total f (g ∷ funcs) = last-total g funcs

  -- The engine once orchBinary has committed the pages
  abbrev pub committed : Binary → ℕ → Engine → Engine
  committed bin addend e = record e {
    guest_memory =
        (commit page_commit e.guest_memory (add64 bin.image_base addend)
          (align_up (total_size bin.sections) page_size)).0;
  }

  orch-step :
      (config : EventConfig) (bin : Binary) (addend : ℕ) (e : Engine) {r : Engine × List Piece}
      {blocks : BasicBlocks}
      → map_sections page_commit memory_write page_size default_size disassemble lookup bin.arch
          addend bin.sections
          (committed bin addend e)
        ≡ some r
      → encode config bin.arch (lookup r.1) addend bin.functions ≡ some blocks
      → orch_binary page_commit memory_write page_size default_size disassemble lookup config bin
          addend e
        ≡ some (r.0, blocks)
  unfolding orch_binary
  orch-step config bin addend e done encoded = simp (orch_binary, done, encoded) refl

  -- A binary that has a function, whose sections do not overlap and can each be written, is orchestrated:
  -- the blocks are those that `encode` makes of its functions with the handlers of the instructions lifted
  -- from its text sections, and in memory, which is otherwise unchanged, every section is found at the place
  -- of its address, all of it, whatever sections were written after it.
  pub orch_binary-IsLoaded :
      (config : EventConfig) (bin : Binary) (addend : ℕ) (e : Engine) (f : Func) (funcs : List Func)
      → bin.functions ≡ f ∷ funcs
      → All IsWhole bin.sections
      → All (IsWritable (committed bin addend e) addend) bin.sections
      → AreApart (committed bin addend e) addend bin.sections
      → (bytes : ℕ → ℕ) × (blocks : BasicBlocks) × (orch_binary page_commit memory_write page_size
            default_size disassemble lookup config bin addend e
          ≡ some (record (committed bin addend e) { bytes = bytes }, blocks))
        × ((pieces : List Piece) × (lifted_pieces bin.arch addend bin.sections ≡ some pieces)
            × (encode config bin.arch (lookup pieces) addend bin.functions ≡ some blocks))
        × ((a : ℕ)
            → All (IsOutside (committed bin addend e) addend a) bin.sections
            → bytes a ≡ e.bytes a)
        × All (IsLoaded (committed bin addend e) bytes addend) bin.sections
  orch_binary-IsLoaded config bin addend e f funcs h whole writable apart =
      let (bytes, pieces, done, lifted, kept, loaded) =
        IsMapped-total bin.arch addend bin.sections (committed bin addend e) whole writable apart in
      let (blocks, encoded) = encode-total config bin.arch (lookup pieces) addend f funcs in
      let made = ap (encode config bin.arch (lookup pieces) addend) h ∙ encoded in
      (bytes, blocks, orch-step config bin addend e done made, (pieces, lifted, made), kept, loaded)
