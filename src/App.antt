-- ===== src/App.antt =====
-- The Swift code of the application, SOLTA/trial 3.
pub mod Float64
pub mod Trap
pub mod Detection
pub mod Login
pub mod Firebase
pub mod Wired
mod DetectionRuns
mod FirebaseRuns
mod WiredRuns
