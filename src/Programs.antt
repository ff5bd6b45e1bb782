-- ===== src/Programs.antt =====
-- The programs of cmd/: the server's and the console client's `main`, and the fake game client.
pub mod ConsoleClient
pub mod ServerMain
pub mod Simulator
