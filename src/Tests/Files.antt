-- ===== src/Tests/Files.antt =====
-- The metadata file: handler indices and the layout of the records
use aether_vm.Prelude.{ℕ, true, some, none, List, [], ◌∷◌, All, get_elem?, ◌≡◌, refl, arith}
use aether_vm.Word.{not64}
use aether_vm.Search.Bound.{IsAscending}
use aether_vm.PreEncode.{
  Sets, set_of, range_start, search_range, index_width, handler_index, Source, oht_remill,
  oht_dynamic, round4, impl_index, aotimpl_offset, record_size, convert_handler, serialize_handlers,
}
use aether_vm.PreEncode.Layout.{IsAligned, serialize_handlers-IsAligned}

-- One handler of one byte, and two of four bytes
abbrev sets : Sets
sets = record { set1 = 195 ∷ []; set2 = []; set4 = 100 ∷ 197121 ∷ []; set8 = []; set16 = [] }

four-IsAscending : IsAscending (set_of sets (index_width 3))
unfolding index_width
four-IsAscending = (omega arith, tt)

third : get_elem? (set_of sets (index_width 3)) 1 ≡ some 197121
unfolding index_width
third = refl

indexed : handler_index sets (1 ∷ 2 ∷ 3 ∷ []) ≡ some 2
unfolding handler_index search_range range_start index_width
indexed = refl

abbrev lifted : Source
lifted = record {
  kind = oht_remill;
  width = 4;
  oplen = 3;
  args = 0 ∷ 1 ∷ [];
  implsize = 0;
  has_impl = true;
  found = some 7;
}

abbrev generated : Source
generated = record {
  kind = oht_dynamic;
  width = 4;
  oplen = 4;
  args = [];
  implsize = 20;
  has_impl = true;
  found = none;
}

abbrev records : List (ℕ × ℕ)
records = (0, 12) ∷ (12, 28) ∷ []

serialized : serialize_handlers true 0 0 (lifted ∷ generated ∷ []) ≡ some records
unfolding serialize_handlers convert_handler impl_index record_size aotimpl_offset round4 not64
serialized = refl

serialize_handlers-IsAligned_example : All IsAligned records
serialize_handlers-IsAligned_example =
    serialize_handlers-IsAligned 0 0 (lifted ∷ generated ∷ []) (omega arith, (omega arith, tt)) refl
      serialized
