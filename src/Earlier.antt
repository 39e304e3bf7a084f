-- ===== src/Earlier.antt =====
-- The programs that main-ev.c replaced: main.c, its client client.c, and what both include.
pub mod Network
pub mod Client
pub mod Driver
pub mod Parts
pub mod Loop
mod Tests
