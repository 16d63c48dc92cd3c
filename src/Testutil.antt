-- ===== src/Testutil.antt =====
-- internal/testutil/testutil.go: the harness that starts the service inside a test. The command `ip`,
-- the temporary files and `net.ParseMAC` are parameters.
pub mod Ip
pub mod Interfaces
pub mod Listing
pub mod Frame
pub mod TempDb
pub mod Harness
pub mod Pairs
