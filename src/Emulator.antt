-- ===== src/Emulator.antt =====
-- bare-metal-16bit/emulate.c: the definitions, and the modules that prove facts of them.
pub mod Fields
pub mod Data
pub mod Alu
pub mod Control
pub mod Step
pub mod Invariant
pub mod Isa
pub mod Format
pub mod Branches
pub mod Decode
pub mod Stack
pub mod Compare
pub mod StoreLoad
pub mod Examples
