-- ===== src/FrontEnd/Counter.antt =====
-- The program counter that BinaryEngine::getRegister shows of an opcode binary, against
-- BinaryEngine::mappedAddress (src/AetherVM.cpp).
use aether_vm.Prelude.{
  ℕ, ◌+◌, ◌-◌, ◌^◌, ◌≤◌, ◌<◌, ◌&&◌, none, some, List, [], ◌∷◌, ltb, leb, ◌≡◌, ap, sym, ◌∙◌, arith,
  All, Bool-cases, inl, inr,
}
use aether_vm.Word.{add64, sub64}
use aether_vm.Memory.{Engine, OpcodeBinary, mapped_address}
use aether_vm.FrontEnd.{Section, find_section, convert_pc}

-- A section of the opcode binary whose file is at `filebuf`: its addresses are the binary's, and
-- `addrBuff` takes each to its byte in the file.
pub record IsSection (bin : OpcodeBinary) (filebuf : ℕ) (s : Section) : Type 0 where
  pub in_memory : filebuf + s.foff + s.size < 2 ^ 64
  pub from_base : bin.image_base ≤ s.key
  pub to_end : s.key + s.size ≤ bin.section_end
  pub addresses : s.key + s.size < 2 ^ 64
  pub buffer : (d : ℕ) → d < s.size → bin.addr_buff (s.key + d) ≡ filebuf + s.foff + d

-- The difference of two words, where it is small
moved :
    (key pc sectbuf : ℕ)
    → sectbuf ≤ pc
    → pc < 2 ^ 64
    → key + (pc - sectbuf) < 2 ^ 64
    → sub64 (add64 key pc) sectbuf ≡ key + (pc - sectbuf)
unfolding add64 sub64
moved key pc sectbuf from below small = elim (Bool-cases (ltb (key + pc) (2 ^ 64))) [
  | inl e ↦ ground (arith, e, from, below, small)
  | inr e ↦ ground (arith, e, from, below, small)
]

sum64 : (a b : ℕ) → a + b < 2 ^ 64 → add64 a b ≡ a + b
unfolding add64
sum64 a b small = omega (arith, small)

-- The pc that the loop finds is the address of the section and the distance of the pc in it.
pub find_section-inside :
    (bin : OpcodeBinary) (filebuf pc : ℕ) (sections : List Section) {v : ℕ}
    → All (IsSection bin filebuf) sections
    → find_section sections filebuf pc ≡ some v
    → (bin.addr_buff v ≡ pc) × (bin.image_base ≤ v) × (v < bin.section_end)
unfolding find_section
find_section-inside bin filebuf pc [] all e = cc
find_section-inside bin filebuf pc (s ∷ sections) {v} (i, all) e =
    let sectbuf = add64 filebuf s.foff in
    let base = sum64 filebuf s.foff (omega (arith, i.in_memory)) in
    let end : add64 sectbuf s.size ≡ filebuf + s.foff + s.size =
      rw base (sum64 (filebuf + s.foff) s.size i.in_memory) in
    elim (Bool-cases (leb sectbuf pc && ltb pc (add64 sectbuf s.size))) [
      | inl f ↦
          let from : filebuf + s.foff ≤ pc = ground (arith, f, base) in
          let below : pc < filebuf + s.foff + s.size = ground (arith, f, base, end) in
          let at = pc - (filebuf + s.foff) in
          let taken : sub64 (add64 s.key pc) sectbuf ≡ v = ground (arith, e, f) in
          let found : v ≡ s.key + at =
            sym taken
            ∙ ap (sub64 (add64 s.key pc)) base
            ∙ moved s.key pc (filebuf + s.foff) from (omega (arith, below, i.in_memory))
                (omega (arith, from, below, i.addresses)) in
          (
            ap bin.addr_buff found ∙ i.buffer at (omega (arith, from, below)) ∙ omega (arith, from),
            omega (arith, found, i.from_base),
            omega (arith, found, i.to_end, from, below),
          )
      | inr f ↦ elim (Bool-cases s.is_text) [
        | inl t ↦ find_section-inside bin filebuf pc sections all (ground (arith, e, f, t))
        | inr t ↦ absurd (ground (arith, e, f, t))
      ]
    ]

-- The pc that getRegister shows while an opcode binary runs in place lies within the binary, from its
-- image base to the end of its sections, and mappedAddress takes it back to the pc.
pub convert_pc-mapped_address :
    (e : Engine) (bin : OpcodeBinary) (filebuf pc size : ℕ) (sections : List Section) {v : ℕ}
    → e.binary_opcode ≡ some bin
    → All (IsSection bin filebuf) sections
    → convert_pc none (some (filebuf, sections)) e.guest_memory.base_pointer pc ≡ some v
    → (bin.image_base ≤ v) × (v < bin.section_end) × (mapped_address e v size ≡ pc)
unfolding convert_pc mapped_address
convert_pc-mapped_address e bin filebuf pc size sections h all found =
    let (back, from, to) = find_section-inside bin filebuf pc sections all found in
    (from, to, ground (arith, h, back, from, to))
