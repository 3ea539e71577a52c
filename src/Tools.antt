-- ===== src/Tools.antt =====
-- The command-line tools of system/utils, which program the control planes' tables.
pub mod RowTable
pub mod IchTool
pub mod Scan
pub mod Assign
pub mod IrqMap
pub mod IchPlane
pub mod Loader
pub mod ConfigMemory
pub mod Boot
