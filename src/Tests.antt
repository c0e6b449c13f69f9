-- ===== src/Tests.antt =====
-- Runs of the model at concrete inputs.
pub mod Words
pub mod Operands
pub mod Lookups
pub mod Blocks
pub mod Emulation
pub mod Guests
pub mod Files
pub mod Dumps
pub mod Front
pub mod Natives
pub mod Natives64
pub mod Accesses
pub mod Debug
pub mod Registers
pub mod Registries
