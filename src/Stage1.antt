-- ===== src/Stage1.antt =====
-- Stage 1, the UEFI application: what stage1/*.c does before it leaves the UEFI boot services.
pub mod Bmem
pub mod Bparm
pub mod Util
pub mod Rimg
pub mod Fv
pub mod Load
pub mod Handover
pub mod Acpi
mod Tests
