-- ===== src/CProject.antt =====
-- FULMemoryPool/CProjectDfn.c and CProjectDfn.h: helpers for paths, counted memory, handles and numbers.
pub mod Paths
pub mod Memory
pub mod Handles
pub mod Numbers
pub mod RandomText
