-- ===== src/Names/X64.antt =====
-- The offsets of x86 registers by their names: `offset_reg` of src/X86.cpp, and the table that
-- `load_regoffs_x64` of src/OpcodeEngine.cpp makes of them.
use Prim.Native.String.{String}
use aether_vm.Prelude.{
  ℕ, ◌+◌, ◌≤◌, Bool, true, ◌||◌, Option, some, List, [], ◌∷◌, ◌++◌, leb, ◌==◌, if◌then◌else◌, ◌≡◌,
  refl, subst, ==_iff, arith, Bool-cases, inl, inr,
}
use aether_vm.Names.{
  codes, to_string, from_chars, numbered, named, or_else, whole, offsets_of, for_numbers,
  fixed_names,
}
use aether_vm.Names.Decimal.{from_chars-to_string}

-- The fields of the x86 state; a general register is its place in the order of R8 to R15, or named.
pub data X64Field : Type 0 where
  rax rbx rcx rdx rsi rdi rsp rbp rip : X64Field
  ah bh ch dh : X64Field
  r_field vec_field k_field mmx_field st_field spare_field : ℕ → X64Field
  cf pf af zf sf df of rflag : X64Field
  ss es gs fs ds cs ss_base es_base gs_base fs_base ds_base cs_base : X64Field
  sw_c0 sw_c1 sw_c2 sw_c3 sw_pe sw_ue sw_oe sw_ze sw_de sw_ie sw_sf : X64Field

-- gpr_map
abbrev pub gpr_names : List (String × X64Field)
gpr_names =
    ("RAX", rax)
    ∷ ("EAX", rax)
    ∷ ("AX", rax)
    ∷ ("AL", rax)
    ∷ ("AH", ah)
    ∷ ("RBX", rbx)
    ∷ ("EBX", rbx)
    ∷ ("BX", rbx)
    ∷ ("BL", rbx)
    ∷ ("BH", bh)
    ∷ ("RCX", rcx)
    ∷ ("ECX", rcx)
    ∷ ("CX", rcx)
    ∷ ("CL", rcx)
    ∷ ("CH", ch)
    ∷ ("RDX", rdx)
    ∷ ("EDX", rdx)
    ∷ ("DX", rdx)
    ∷ ("DL", rdx)
    ∷ ("DH", dh)
    ∷ ("RSI", rsi)
    ∷ ("ESI", rsi)
    ∷ ("SI", rsi)
    ∷ ("SIL", rsi)
    ∷ ("RDI", rdi)
    ∷ ("EDI", rdi)
    ∷ ("DI", rdi)
    ∷ ("DIL", rdi)
    ∷ ("RSP", rsp)
    ∷ ("ESP", rsp)
    ∷ ("SP", rsp)
    ∷ ("SPL", rsp)
    ∷ ("RBP", rbp)
    ∷ ("EBP", rbp)
    ∷ ("BP", rbp)
    ∷ ("BPL", rbp)
    ∷ ("RIP", rip)
    ∷ ("EIP", rip)
    ∷ ("IP", rip)
    ∷ ("PC", rip)
    ∷ []

-- Flags, segments and status words
abbrev pub misc_names : List (String × X64Field)
misc_names =
    ("CF", cf)
    ∷ ("PF", pf)
    ∷ ("AF", af)
    ∷ ("ZF", zf)
    ∷ ("SF", sf)
    ∷ ("DF", df)
    ∷ ("OF", of)
    ∷ ("RFLAGS", rflag)
    ∷ ("EFLAGS", rflag)
    ∷ ("FLAGS", rflag)
    ∷ ("SS", ss)
    ∷ ("ES", es)
    ∷ ("GS", gs)
    ∷ ("FS", fs)
    ∷ ("DS", ds)
    ∷ ("CS", cs)
    ∷ ("SS_BASE", ss_base)
    ∷ ("ES_BASE", es_base)
    ∷ ("GS_BASE", gs_base)
    ∷ ("GSBASE", gs_base)
    ∷ ("FS_BASE", fs_base)
    ∷ ("FSBASE", fs_base)
    ∷ ("DS_BASE", ds_base)
    ∷ ("CS_BASE", cs_base)
    ∷ ("FPU_C0", sw_c0)
    ∷ ("FPU_C1", sw_c1)
    ∷ ("FPU_C2", sw_c2)
    ∷ ("FPU_C3", sw_c3)
    ∷ ("FPU_PE", sw_pe)
    ∷ ("FPU_UE", sw_ue)
    ∷ ("FPU_OE", sw_oe)
    ∷ ("FPU_ZE", sw_ze)
    ∷ ("FPU_DE", sw_de)
    ∷ ("FPU_IE", sw_ie)
    ∷ ("FPU_SF", sw_sf)
    ∷ []

abbrev pub special_names : List (String × X64Field)
special_names =
    ("BRANCH_TAKEN", spare_field 0)
    ∷ ("NEXT_PC", spare_field 1)
    ∷ ("RETURN_PC", spare_field 2)
    ∷ ("SUPPRESS_WRITEBACK", spare_field 3)
    ∷ ("MONITOR", spare_field 4)
    ∷ []

-- `if (num_sv.ends_with('D') || ...) num_sv.remove_suffix(1)`
abbrev pub is_suffix : ℕ → Bool
is_suffix c = c == b'D' || c == b'W' || c == b'B'

abbrev pub cut_suffix : List ℕ → List ℕ
cut_suffix [] = []
cut_suffix (c ∷ []) = if is_suffix c then [] else c ∷ []
cut_suffix (c ∷ d ∷ l) = c ∷ cut_suffix (d ∷ l)

-- x86::offset_reg of a name
unfoldable pub x64_offset : List ℕ → Option X64Field
x64_offset name = or_else (named gpr_names name) (
    or_else (numbered (codes "R") cut_suffix 8 15 r_field name) (
      or_else (numbered (codes "ZMM") whole 0 31 vec_field name) (
        or_else (numbered (codes "YMM") whole 0 31 vec_field name) (
          or_else (numbered (codes "XMM") whole 0 31 vec_field name) (
            or_else (numbered (codes "K") whole 0 7 k_field name) (
              or_else (numbered (codes "MM") whole 0 7 mmx_field name) (
                or_else (numbered (codes "ST") whole 0 7 st_field name)
                  (or_else (named misc_names name) (named special_names name)))))))))

-- The lists of names in load_regoffs_x64
abbrev pub loaded_gprs : List String
loaded_gprs =
    "RAX" ∷ "EAX" ∷ "AX" ∷ "AL" ∷ "AH" ∷ "RBX" ∷ "EBX" ∷ "BX" ∷ "BL" ∷ "BH" ∷ "RCX" ∷ "ECX" ∷ "CX"
    ∷ "CL" ∷ "CH" ∷ "RDX" ∷ "EDX" ∷ "DX" ∷ "DL" ∷ "DH" ∷ "RSI" ∷ "ESI" ∷ "SI" ∷ "SIL" ∷ "RDI"
    ∷ "EDI" ∷ "DI" ∷ "DIL" ∷ "RSP" ∷ "ESP" ∷ "SP" ∷ "SPL" ∷ "RBP" ∷ "EBP" ∷ "BP" ∷ "BPL" ∷ "RIP"
    ∷ "EIP" ∷ "IP" ∷ "PC" ∷ []

abbrev pub loaded_misc : List String
loaded_misc =
    "CF" ∷ "PF" ∷ "AF" ∷ "ZF" ∷ "SF" ∷ "DF" ∷ "OF" ∷ "RFLAGS" ∷ "EFLAGS" ∷ "FLAGS" ∷ "SS" ∷ "ES"
    ∷ "GS" ∷ "FS" ∷ "DS" ∷ "CS" ∷ "SS_BASE" ∷ "ES_BASE" ∷ "GS_BASE" ∷ "GSBASE" ∷ "FS_BASE"
    ∷ "FSBASE" ∷ "DS_BASE" ∷ "CS_BASE" ∷ "FPU_C0" ∷ "FPU_C1" ∷ "FPU_C2" ∷ "FPU_C3" ∷ "FPU_PE"
    ∷ "FPU_UE" ∷ "FPU_OE" ∷ "FPU_ZE" ∷ "FPU_DE" ∷ "FPU_IE" ∷ "FPU_SF" ∷ []

abbrev pub loaded_special : List String
loaded_special = "BRANCH_TAKEN" ∷ "NEXT_PC" ∷ "RETURN_PC" ∷ "SUPPRESS_WRITEBACK" ∷ "MONITOR" ∷ []

abbrev pub names_x64 : List (List ℕ)
names_x64 =
    fixed_names loaded_gprs
    ++ (for_numbers (("R", "") ∷ ("R", "D") ∷ ("R", "W") ∷ ("R", "B") ∷ []) 8 8
        ++ (for_numbers (("ZMM", "") ∷ ("YMM", "") ∷ ("XMM", "") ∷ []) 0 32
            ++ (for_numbers (("K", "") ∷ []) 0 8
                ++ (for_numbers (("MM", "") ∷ ("ST", "") ∷ []) 0 8
                    ++ (fixed_names loaded_misc ++ fixed_names loaded_special)))))

abbrev pub load_regoffs_x64 : Option (List (List ℕ × X64Field))
load_regoffs_x64 = offsets_of x64_offset names_x64

-- Each vector register has one offset under its ZMM, YMM and XMM name.
pub x64_offset-vector :
    (i : ℕ)
    → i ≤ 31
    → (x64_offset (codes "ZMM" ++ to_string i []) ≡ some (vec_field i))
      × (x64_offset (codes "YMM" ++ to_string i []) ≡ some (vec_field i))
      × (x64_offset (codes "XMM" ++ to_string i []) ≡ some (vec_field i))
unfolding x64_offset
x64_offset-vector i h =
    let read : from_chars (to_string i []) ≡ some i =
      from_chars-to_string i [] (omega (arith, h)) refl in
    let low : leb 0 i ≡ true = ground arith in
    let high : leb i 31 ≡ true = ground (arith, h) in
    (
      rw (x64_offset, read, low, high) refl,
      rw (x64_offset, read, low, high) refl,
      rw (x64_offset, read, low, high) refl,
    )

-- The four names of a numbered register
abbrev IsNumbered : ℕ → Type 0
IsNumbered i =
    (x64_offset (codes "R" ++ to_string i []) ≡ some (r_field i))
    × (x64_offset (codes "R" ++ to_string i (codes "D")) ≡ some (r_field i))
    × (x64_offset (codes "R" ++ to_string i (codes "W")) ≡ some (r_field i))
    × (x64_offset (codes "R" ++ to_string i (codes "B")) ≡ some (r_field i))

or_above : (k i : ℕ) → k ≤ i → IsNumbered k → (k + 1 ≤ i → IsNumbered i) → IsNumbered i
or_above k i h here above = elim (Bool-cases (k == i)) [
  | inl e ↦ subst IsNumbered ((==_iff k i).0 e) here
  | inr e ↦ above (ground (arith, h, e))
]

-- Each of R8 to R15 has one offset under its own name and those of its lower halves, D, W and B, although
-- some of these names begin like those of other registers.
pub x64_offset-numbered :
    (i : ℕ)
    → 8 ≤ i
    → i ≤ 15
    → (x64_offset (codes "R" ++ to_string i []) ≡ some (r_field i))
      × (x64_offset (codes "R" ++ to_string i (codes "D")) ≡ some (r_field i))
      × (x64_offset (codes "R" ++ to_string i (codes "W")) ≡ some (r_field i))
      × (x64_offset (codes "R" ++ to_string i (codes "B")) ≡ some (r_field i))
unfolding x64_offset from_chars
x64_offset-numbered i from to =
    or_above 8 i from (refl, refl, refl, refl)
      (λ h.
        or_above 9 i h (refl, refl, refl, refl)
          (λ h.
            or_above 10 i h (refl, refl, refl, refl)
              (λ h.
                or_above 11 i h (refl, refl, refl, refl)
                  (λ h.
                    or_above 12 i h (refl, refl, refl, refl)
                      (λ h.
                        or_above 13 i h (refl, refl, refl, refl)
                          (λ h.
                            or_above 14 i h (refl, refl, refl, refl)
                              (λ h.
                                or_above 15 i h (refl, refl, refl, refl)
                                  (λ h. absurd (omega (arith, h, to))))))))))
