-- ===== src/Tests/Registries.antt =====
-- The names of registers
use aether_vm.Prelude.{some, ◌≡◌, arith}
use aether_vm.Names.{codes, v_field, arm_offset}
use aether_vm.Names.Arm.{arm_offset-vector}
use aether_vm.Names.X64.{x64_offset, r_field, x64_offset-numbered}

arm_offset-vector_example :
    (arm_offset (codes "V17") ≡ some (v_field 17))
    × (arm_offset (codes "Q17") ≡ some (v_field 17))
    × (arm_offset (codes "D17") ≡ some (v_field 17))
    × (arm_offset (codes "S17") ≡ some (v_field 17))
    × (arm_offset (codes "H17") ≡ some (v_field 17))
    × (arm_offset (codes "B17") ≡ some (v_field 17))
arm_offset-vector_example = arm_offset-vector 17 (omega arith)

x64_offset-numbered_example :
    (x64_offset (codes "R12") ≡ some (r_field 12))
    × (x64_offset (codes "R12D") ≡ some (r_field 12))
    × (x64_offset (codes "R12W") ≡ some (r_field 12))
    × (x64_offset (codes "R12B") ≡ some (r_field 12))
x64_offset-numbered_example = x64_offset-numbered 12 (omega arith) (omega arith)
