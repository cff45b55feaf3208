-- ===== src/App/Firebase.antt =====
-- Detections in Firebase: FirebaseHelper.swift and HistoryVC.swift of SOLTA/trial 3.
pub mod Database
pub mod Detection
pub mod Helper
pub mod History
pub mod Whole
pub mod Served
pub mod Calls
pub mod Rows
pub mod Shown
pub mod Address
