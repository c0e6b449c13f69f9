-- ===== src/Names.antt =====
-- The offsets of registers by their names: `offset_reg` of src/AArch64.cpp and src/X86.cpp, and the tables
-- that `load_regoffs_aarch64` and `load_regoffs_x64` of src/OpcodeEngine.cpp make of them.
-- A name is the list of its characters' codes, and an offset is the field of the state that it is the
-- offset of. `none` is abort.
pub mod Arm
pub mod Decimal
pub mod X64
pub mod Tables
use Prim.Native.Char.{code}
use Prim.Native.String.{String}
use aether_vm.Prelude.{
  ℕ, zero, suc, ◌+◌, ◌-◌, ◌*◌, ◌/◌, ◌%◌, ◌^◌, Bool, true, false, ◌&&◌, ◌||◌, Option, none, some,
  List, [], ◌∷◌, ◌++◌, map, contains, ltb, leb, ◌==◌, if◌then◌else◌,
}
use aether_vm.Search.{◌>>=◌}

abbrev pub codes : String → List ℕ
codes String.[] = []
codes (String.◌∷◌ c s) = code c ∷ codes s

abbrev pub same_name : List ℕ → List ℕ → Bool
same_name [] [] = true
same_name [] (d ∷ m) = false
same_name (c ∷ l) [] = false
same_name (c ∷ l) (d ∷ m) = c == d && same_name l m

abbrev pub starts_with : List ℕ → List ℕ → Bool
starts_with [] name = true
starts_with (c ∷ l) [] = false
starts_with (c ∷ l) (d ∷ name) = c == d && starts_with l name

abbrev pub substr : List ℕ → List ℕ → List ℕ
substr [] name = name
substr (c ∷ l) [] = []
substr (c ∷ l) (d ∷ name) = substr l name

abbrev pub or_else {ℓ} : {A : Type ℓ} → Option A → Option A → Option A
or_else none b = b
or_else (some a) b = some a

-- std::to_string: the digits in front of the rest. A number has fewer digits than the fuel, one more than
-- itself.
abbrev pub digits : ℕ → ℕ → List ℕ → List ℕ
digits zero n rest = rest
digits (suc fuel) n rest =
    if ltb n 10 then (48 + n) ∷ rest else digits fuel (n / 10) ((48 + n % 10) ∷ rest)

abbrev pub to_string : ℕ → List ℕ → List ℕ
to_string n rest = digits (suc n) n rest

-- std::from_chars of an `int`: the number that the leading digits write. A negative number, which no caller
-- takes, is `none` as an error is.
abbrev pub is_digit : ℕ → Bool
is_digit c = leb 48 c && leb c 57

abbrev pub read_digits : ℕ → List ℕ → ℕ
read_digits n [] = n
read_digits n (c ∷ l) = if is_digit c then read_digits (n * 10 + (c - 48)) l else n

abbrev pub int_of : List ℕ → Option ℕ
int_of [] = none
int_of (c ∷ l) =
    let n = read_digits 0 (c ∷ l) in
    if is_digit c then (if leb n (2 ^ 31 - 1) then some n else none) else none

unfoldable pub from_chars : List ℕ → Option ℕ
from_chars [] = none
from_chars (c ∷ l) =
    if c == 45 then (int_of l >>= λ n. if n == 0 then some 0 else none) else int_of (c ∷ l)

-- `if (reg.starts_with(prefix))` with a number between two bounds behind it, cut by `trim` first
abbrev pub numbered {ℓ} :
    {A : Type ℓ} → List ℕ → (List ℕ → List ℕ) → ℕ → ℕ → (ℕ → A) → List ℕ → Option A
numbered prefix trim first last field name =
    if starts_with prefix name
    then (from_chars (trim (substr prefix name)) >>= λ num.
        if leb first num && leb num last then some (field num) else none)
    else none

-- The comparisons with fixed names, the first that holds
abbrev pub named {ℓ} : {A : Type ℓ} → List (String × A) → List ℕ → Option A
named [] name = none
named ((s, field) ∷ table) name =
    let rest = named table name in if same_name (codes s) name then some field else rest

-- The fields of the AArch64 state
pub data ArmField : Type 0 where
  x_field v_field spare_field : ℕ → ArmField
  sp_field pc_field zero_field tpidr_el0 tpidrro_el0 nzcv_field fpcr_field fpsr_field : ArmField
  sr_n sr_z sr_c sr_v sr_ixc sr_ofc sr_ufc sr_idc sr_ioc sr_dzc : ArmField
  sleigh_ng sleigh_zr sleigh_cy sleigh_ov sleigh_shift_carry : ArmField

abbrev pub arm_names : List (String × ArmField)
arm_names =
    ("SP", sp_field)
    ∷ ("WSP", sp_field)
    ∷ ("PC", pc_field)
    ∷ ("XZR", zero_field)
    ∷ ("WZR", zero_field)
    ∷ ("BRANCH_TAKEN", spare_field 0)
    ∷ ("NEXT_PC", spare_field 1)
    ∷ ("RETURN_PC", spare_field 2)
    ∷ ("IGNORE_WRITE_TO_WZR", spare_field 3)
    ∷ ("IGNORE_WRITE_TO_XZR", spare_field 4)
    ∷ ("SUPPRESS_WRITEBACK", spare_field 5)
    ∷ ("MONITOR", spare_field 6)
    ∷ ("TPIDR_EL0", tpidr_el0)
    ∷ ("TPIDRRO_EL0", tpidrro_el0)
    ∷ ("NZCV", nzcv_field)
    ∷ ("FPCR", fpcr_field)
    ∷ ("FPSR", fpsr_field)
    ∷ ("N", sr_n)
    ∷ ("Z", sr_z)
    ∷ ("C", sr_c)
    ∷ ("V", sr_v)
    ∷ ("IXC", sr_ixc)
    ∷ ("OFC", sr_ofc)
    ∷ ("UFC", sr_ufc)
    ∷ ("IDC", sr_idc)
    ∷ ("IOC", sr_ioc)
    ∷ ("DZC", sr_dzc)
    ∷ ("NG", sleigh_ng)
    ∷ ("ZR", sleigh_zr)
    ∷ ("CY", sleigh_cy)
    ∷ ("OV", sleigh_ov)
    ∷ ("SHIFT_CARRY", sleigh_shift_carry)
    ∷ []

abbrev pub whole : List ℕ → List ℕ
whole l = l

-- aarch64::offset_reg of a name
unfoldable pub arm_offset : List ℕ → Option ArmField
arm_offset name = or_else (numbered (codes "X") whole 0 30 x_field name) (
    or_else (numbered (codes "W") whole 0 30 x_field name) (
      or_else (numbered (codes "Q") whole 0 31 v_field name) (
        or_else (numbered (codes "V") whole 0 31 v_field name) (
          or_else (numbered (codes "D") whole 0 31 v_field name) (
            or_else (numbered (codes "S") whole 0 31 v_field name) (
              or_else (numbered (codes "H") whole 0 31 v_field name) (
                or_else (numbered (codes "B") whole 0 31 v_field name) (named arm_names name))))))))

-- A table of offsets: `none` when one of the names aborts
abbrev pub offsets_of {ℓ} :
    {A : Type ℓ} → (List ℕ → Option A) → List (List ℕ) → Option (List (List ℕ × A))
offsets_of offset [] = some []
offsets_of offset (name ∷ names) =
    offset name >>= λ field. offsets_of offset names >>= λ rest. some ((name, field) ∷ rest)

-- The names with the numbers from a first one on, for each of some prefixes and a suffix
abbrev pub for_prefixes : List (String × String) → ℕ → List (List ℕ)
for_prefixes [] i = []
for_prefixes ((prefix, suffix) ∷ prefixes) i =
    (codes prefix ++ to_string i (codes suffix)) ∷ for_prefixes prefixes i

abbrev pub for_numbers : List (String × String) → ℕ → ℕ → List (List ℕ)
for_numbers prefixes first zero = []
for_numbers prefixes first (suc count) =
    for_prefixes prefixes first ++ for_numbers prefixes (first + 1) count

abbrev pub fixed_names : List String → List (List ℕ)
fixed_names [] = []
fixed_names (s ∷ names) = codes s ∷ fixed_names names

abbrev pub x_names : List (String × String)
x_names = ("X", "") ∷ ("W", "") ∷ []

abbrev pub v_names : List (String × String)
v_names = ("V", "") ∷ ("Q", "") ∷ ("D", "") ∷ ("S", "") ∷ ("H", "") ∷ ("B", "") ∷ []

-- The stack pointer and the program counter
abbrev pub pointer_names : List String
pointer_names = "SP" ∷ "WSP" ∷ "PC" ∷ []

-- The other names that are written out in load_regoffs_aarch64
abbrev pub state_names : List String
state_names =
    "XZR" ∷ "WZR" ∷ "BRANCH_TAKEN" ∷ "NEXT_PC" ∷ "RETURN_PC" ∷ "IGNORE_WRITE_TO_WZR"
    ∷ "IGNORE_WRITE_TO_XZR" ∷ "SUPPRESS_WRITEBACK" ∷ "MONITOR" ∷ "TPIDR_EL0" ∷ "TPIDRRO_EL0"
    ∷ "NZCV" ∷ "FPCR" ∷ "FPSR" ∷ "N" ∷ "Z" ∷ "C" ∷ "V" ∷ "IXC" ∷ "OFC" ∷ "UFC" ∷ "IDC" ∷ "IOC"
    ∷ "DZC" ∷ "NG" ∷ "ZR" ∷ "CY" ∷ "OV" ∷ "SHIFT_CARRY" ∷ []

abbrev pub names_aarch64 : List (List ℕ)
names_aarch64 =
    for_numbers x_names 0 31
    ++ (fixed_names pointer_names ++ (for_numbers v_names 0 32 ++ fixed_names state_names))

abbrev pub load_regoffs_aarch64 : Option (List (List ℕ × ArmField))
load_regoffs_aarch64 = offsets_of arm_offset names_aarch64

-- GetOffset of a name: the map holds the last offset that a name was given, and a missing name aborts.
unfoldable pub get_offset {ℓ} : {A : Type ℓ} → List (List ℕ × A) → List ℕ → Option A
get_offset [] name = none
get_offset ((key, field) ∷ table) name =
    or_else (get_offset table name) (if same_name key name then some field else none)
