-- ===== src/FileSystem/Behaviour.antt =====
-- What the calls of filesystem.go do for the guest, branch by branch.
pub mod Duplicate
pub mod Closing
pub mod Resizing
pub mod Contents
pub mod Transfer
pub mod Gather
pub mod Opening
pub mod Renaming
