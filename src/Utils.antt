-- ===== src/Utils.antt =====
-- The package `utils`.
pub mod Desktop
pub mod Mmap
pub mod Pageant
pub mod TcpOwner
pub mod XAgent
pub mod PageantWindow
pub mod PageantService
pub mod Shell
pub mod Clipboard
pub mod Machines
pub mod RandomText
pub mod System
pub mod MessageBox
pub mod ProcessNotify
