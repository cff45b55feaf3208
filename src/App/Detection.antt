-- ===== src/App/Detection.antt =====
-- The detection of bright pixels in camera frames: DetectionVC.swift and DetectionHelper.swift of
-- SOLTA/trial 3.
pub mod Detector
pub mod Scan
pub mod Capture
pub mod Events
