-- ===== src/Stage2.antt =====
-- stage2/*.c: the code that stage 1 hands over to.
pub mod Kb
pub mod Mem
pub mod Vm
pub mod Va
pub mod Main
