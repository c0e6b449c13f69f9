-- ===== src/Names/Arm.antt =====
-- The numbered registers of AArch64 by their names: `offset_reg` of src/AArch64.cpp on the names of
-- `load_regoffs_aarch64` of src/OpcodeEngine.cpp.
use aether_vm.Prelude.{ℕ, ◌≤◌, true, some, [], ◌++◌, ◌≡◌, refl, arith, leb}
use aether_vm.Names.{codes, to_string, from_chars, x_field, v_field, arm_offset}
use aether_vm.Names.Decimal.{from_chars-to_string}

-- Each X and W name with a number up to 30 has the offset of that general register.
pub arm_offset-general :
    (i : ℕ)
    → i ≤ 30
    → (arm_offset (codes "X" ++ to_string i []) ≡ some (x_field i))
      × (arm_offset (codes "W" ++ to_string i []) ≡ some (x_field i))
unfolding arm_offset
arm_offset-general i h =
    let l = to_string i [] in
    let read : from_chars l ≡ some i = from_chars-to_string i [] (omega (arith, h)) refl in
    let low : leb 0 i ≡ true = ground arith in
    let high : leb i 30 ≡ true = ground (arith, h) in
    (rw (arm_offset, read, low, high) refl, rw (arm_offset, read, low, high) refl)

-- Each V, Q, D, S, H and B name with a number up to 31 has the offset of that vector register, so the six
-- names of a number are of one register.
pub arm_offset-vector :
    (i : ℕ)
    → i ≤ 31
    → (arm_offset (codes "V" ++ to_string i []) ≡ some (v_field i))
      × (arm_offset (codes "Q" ++ to_string i []) ≡ some (v_field i))
      × (arm_offset (codes "D" ++ to_string i []) ≡ some (v_field i))
      × (arm_offset (codes "S" ++ to_string i []) ≡ some (v_field i))
      × (arm_offset (codes "H" ++ to_string i []) ≡ some (v_field i))
      × (arm_offset (codes "B" ++ to_string i []) ≡ some (v_field i))
unfolding arm_offset
arm_offset-vector i h =
    let l = to_string i [] in
    let read : from_chars l ≡ some i = from_chars-to_string i [] (omega (arith, h)) refl in
    let low : leb 0 i ≡ true = ground arith in
    let high : leb i 31 ≡ true = ground (arith, h) in
    (
      rw (arm_offset, read, low, high) refl,
      rw (arm_offset, read, low, high) refl,
      rw (arm_offset, read, low, high) refl,
      rw (arm_offset, read, low, high) refl,
      rw (arm_offset, read, low, high) refl,
      rw (arm_offset, read, low, high) refl,
    )
