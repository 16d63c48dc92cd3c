-- ===== src/Examples.antt =====
-- Runs of the model on concrete inputs, and the theorems at inputs that meet their hypotheses.
mod Data
mod Attachment
mod Config
mod Service
mod Main
mod Flush
mod History
mod Interleave
mod Entry
mod Http
mod Routes
mod Storage
mod Startup
mod Testutil
mod Goroutines
