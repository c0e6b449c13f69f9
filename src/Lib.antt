-- ===== src/Lib.antt =====
-- AetherVM: a model of the parts of the engine that decide what is executed, in which order and on which
-- values, and their correctness.
--
-- The engine takes a binary apart into basic blocks of instruction handlers and runs them one after the
-- other; an event handler between them may look at the guest and choose the next one. Alternatively it
-- emulates single opcodes through sets of handlers with caches, or runs a binary from metadata that was
-- encoded ahead of time and is mapped from a file. All of them evaluate operands to raw 64-bit values,
-- which a handler takes as its parameters.
--
-- - Word: `MaskToBits`, `SignExtend` and the 64-bit operators of src/OpcodeEngine.cpp, with the
--   wrap-around written out (`% 2 ^ 64`), and the digits of the bit operations.
-- - Operand: the operands of an instruction. Operand/Raw is the `Lift…OperandRaw` family of
--   src/OpcodeEngine.cpp, Operand/Meta that of src/InterpMetaData.cpp, Operand/Convert is
--   `ConvertExpression`, `ConvertOperand` and `convertOperands`, and the other children compare them.
--   The recursion of the metadata's evaluation follows indices into an array, so it takes fuel; the
--   height of the expression that was converted is enough.
-- - Search: `binary_search`, `is_exact`, `align_up` and `align_down` of include/Utils.h. The search loop
--   has one round of fuel more than there are elements, and ends before it is used up.
-- - Interp: `RuntimeMetaData::find`, `InterpMetaData::find`, the constructor's cache and the step of
--   `vmEntry` to the next instruction inside a binary (src/InterpMetaData.cpp).
-- - Cpu: `getRegisterAArch64`, `setRegisterAArch64`, `setRegisterNEON` and their x86 kin (src/CPUState.cpp)
--   on the numbers of include/Register.h. The layout of the state is another library's: each register is
--   taken to have a cell of its own that holds the value written to it, except the segment selectors of
--   x86, which are 2 bytes wide and 4 bytes apart (Segments). The bit fields of the flags are parameters.
-- - Emulate: `OpcodeHandlers`, `OpcodeEngine::emulate` and `OpcodeEngine::prefetch` (src/OpcodeEngine.h and
--   src/OpcodeEngine.cpp) and `fib_hash8`. The decoder and what a handler does are parameters. The prefetch
--   loop has a round of fuel for each byte, which is enough since each round takes one at least.
-- - Memory: `GuestMemory` (src/Memory.h, src/Memory.cpp) and the memory functions of `BinaryEngine`
--   (src/AetherVM.cpp). The operating system's commit, read and write are parameters.
-- - Blocks: `Orchestrator` and `BasicBlocks` (src/Orchestrator.cpp): Blocks/Encode is `encode`, Contents and
--   Build describe its blocks, Blocks.antt has `convert` and `findBlocks`, Blocks/Cache has `findCache`,
--   `find` and the thread's cache. The parsed binary is the input, and the set of lifted handlers a
--   parameter.
-- - Events: the host side of the event handlers (src/Event.cpp) and `handleEvent`.
-- - FrontEnd: `getRegister`, `readUInt64`, `liftOpcodes`, `orchBinary` and `execute` of `BinaryEngine`
--   (src/AetherVM.cpp), over Memory, Cpu and Blocks. The lift of a section has a round of fuel for each byte
--   and one to end, and each round takes one byte at least. The disassembler and the parsed binary are
--   parameters.
-- - Native: `nativeHandlerAArch64` (src/Lifter.cpp), the assembly around an instruction that cannot be
--   lifted. Native.antt has the assembly and a machine that runs it; Guest and Host are its loops over the
--   guest's and the host's registers, Moves and Context the register that holds the cpu context, and
--   Switch the whole. The instruction itself is a parameter.
-- - NativeX64: the registers that an x64 instruction uses, and `nativeHandlerX64` (src/Lifter.cpp) for both
--   ABIs, as the list of its instructions. Temporaries has the registers that stand in for R12 and RSP,
--   Mirror the saving and restoring of the host's registers. This list is not run on a machine.
-- - Intrinsics: the functions of src/Intrinsic.cpp by which lifted code reads and writes integers in the
--   host's memory, with the events that callbacks may answer (Access), and its atomic functions (Atomic).
-- - Names: the offsets of registers by name, `offset_reg` of src/AArch64.cpp and src/X86.cpp, and the
--   tables `load_regoffs_aarch64` and `load_regoffs_x64` of src/OpcodeEngine.cpp with `GetOffset` of a name.
--   An offset is the field of the state that it leads to, since the layout is another library's, which has
--   32 vector registers and R8 to R15 16 bytes apart.
-- - PreEncode: `handlerIndex` and the records of `serializeHandler` (src/PreEncoder.cpp), their sizes and
--   offsets without their bytes. MetaFile has the bytes of the records and of the whole file of
--   `serialize`, and MetaFile/Dump is `dump`, which reads it back; Records, Walk, Listing, Insns and Sections
--   take the file section by section. The operand and expression structures are given by their bytes, since
--   they are copied as they lie in memory.
-- - Renaming: `parse_regused`, `normalize_opcode` and the two generators of src/UtilsAArch64.cpp. The search
--   for a free register has one round of fuel more than there are used registers. The disassembler, the
--   assembler and the lifter are parameters.
-- - Debugger: `AetherProcess` and `AetherThread` (lldb/src/Process.cpp, lldb/src/Thread.cpp). A thread's
--   wait on its condition variable is a phase of the thread; the client's commands and the threads' events
--   are steps of the process (Debugger/Ids), in any order.
-- - Prelude: shared names and lemmas. Tests: runs at concrete inputs.
--
-- Reads outside an array, failed assertions and `abort` are `none`. `assert(reg.offset)` in `GetOffset` of a
-- resolved register is left out: the metadata's evaluation has no such test, and no register is at the start
-- of the state.
--
-- Not modelled: the LLVM code generation of src/Lifter.cpp, the assembly between machine code and the host
-- (src/AArch64.cpp, src/X86.cpp), the tables of handlers, the floating point accesses and settings, the hyper
-- calls and the system calls of src/Intrinsic.cpp, the operating system layer (src/Platform.cpp),
-- what `dump` prints of operands, expressions and disassembly, the register contexts and the server of the
-- debugger, and the samples and tools. Threads are not modelled either, except those of the debugger: each
-- cache belongs to one thread, and the lock of the decoder guards no state of the model.
pub mod Prelude
pub mod Word
pub mod MetaFile
pub mod Operand
pub mod Renaming
pub mod Search
pub mod Intrinsics
pub mod Interp
pub mod Cpu
pub mod Debugger
pub mod Emulate
pub mod PreEncode
pub mod Memory
pub mod Blocks
pub mod Events
pub mod FrontEnd
pub mod Native
pub mod NativeX64
pub mod Names
pub mod Tests
