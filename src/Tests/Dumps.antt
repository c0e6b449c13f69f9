-- ===== src/Tests/Dumps.antt =====
-- A metadata file, written and dumped
use aether_vm.Prelude.{ℕ, true, some, none, List, [], ◌∷◌, ◌≡◌, refl, arith}
use aether_vm.Word.{not64}
use aether_vm.PreEncode.{oht_remill, oht_dynamic, impl_index, record_size, aotimpl_offset, round4}
use aether_vm.MetaFile.{
  HandlerData, Input, record_bytes, convert_record, serialize_records, fix_up, serialize, zeros,
}
use aether_vm.MetaFile.Dump.{Dumped, done, dump}
use aether_vm.MetaFile.Sections.{IsInput, IsDump, dump-serialize}

-- A lifted handler of three bytes with a pointer, and a generated one of four bytes with its code
abbrev lifted : HandlerData
lifted = record {
  source = record {
    kind = oht_remill;
    width = 4;
    oplen = 3;
    args = 0 ∷ 1 ∷ [];
    implsize = 0;
    has_impl = true;
    found = some 7;
  };
  opcode = 197121;
  pointers = true ∷ [];
  code = [];
}

abbrev generated : HandlerData
generated = record {
  source = record {
    kind = oht_dynamic;
    width = 4;
    oplen = 4;
    args = [];
    implsize = 5;
    has_impl = true;
    found = none;
  };
  opcode = 3596551104;
  pointers = [];
  code = 1 ∷ 2 ∷ 3 ∷ 4 ∷ 5 ∷ [];
}

-- Three instructions, of which the second has no handler
abbrev input : Input
input = record {
  haswx = true;
  arm64 = true;
  num_operands = 0;
  operands = [];
  num_expressions = 1;
  expressions = zeros 12;
  handlers = lifted ∷ generated ∷ [];
  insns = (4096, some 1) ∷ (4100, none) ∷ (4104, some 0) ∷ [];
}

abbrev file : List ℕ
file =
    65 ∷ 69 ∷ 86 ∷ 77 ∷ 1 ∷ 0 ∷ 0 ∷ 0 ∷ 112 ∷ 0 ∷ 0 ∷ 0 ∷ 3 ∷ 0 ∷ 0 ∷ 0 ∷ 48 ∷ 0 ∷ 0 ∷ 0 ∷ 3 ∷ 0 ∷ 0
    ∷ 0 ∷ 72 ∷ 0 ∷ 0 ∷ 0 ∷ 0 ∷ 0 ∷ 0 ∷ 0 ∷ 72 ∷ 0 ∷ 0 ∷ 0 ∷ 1 ∷ 0 ∷ 0 ∷ 0 ∷ 84 ∷ 0 ∷ 0 ∷ 0 ∷ 2 ∷ 0
    ∷ 0 ∷ 0 ∷ 0 ∷ 16 ∷ 0 ∷ 0 ∷ 12 ∷ 0 ∷ 0 ∷ 0 ∷ 4 ∷ 16 ∷ 0 ∷ 0 ∷ 255 ∷ 255 ∷ 255 ∷ 255 ∷ 8 ∷ 16 ∷ 0
    ∷ 0 ∷ 0 ∷ 0 ∷ 0 ∷ 0 ∷ 0 ∷ 0 ∷ 0 ∷ 0 ∷ 0 ∷ 0 ∷ 0 ∷ 0 ∷ 0 ∷ 0 ∷ 0 ∷ 0 ∷ 7 ∷ 0 ∷ 48 ∷ 2 ∷ 1 ∷ 2 ∷ 3
    ∷ 0 ∷ 128 ∷ 1 ∷ 0 ∷ 0 ∷ 5 ∷ 0 ∷ 66 ∷ 0 ∷ 192 ∷ 3 ∷ 95 ∷ 214 ∷ 1 ∷ 2 ∷ 3 ∷ 4 ∷ 5 ∷ 0 ∷ 0 ∷ 0 ∷ []

serialized : serialize input ≡ some file
unfolding serialize serialize_records convert_record record_bytes impl_index record_size
    aotimpl_offset round4 not64 fix_up
serialized = refl

input-IsInput : IsInput input
input-IsInput = record {
  operands_whole = refl;
  expressions_whole = refl;
  handlers_typed = (
    record { impl_small = omega arith; code_whole = refl },
    (record { impl_small = omega arith; code_whole = refl }, tt),
  );
  rvas = (omega arith, (omega arith, (omega arith, tt)));
}

dump-serialize_example : (d : Dumped) × (dump file ≡ done d) × IsDump input d
dump-serialize_example = dump-serialize input input-IsInput (λ e. refl) serialized
