-- ===== src/Analyzer.antt =====
-- The storage analyzer, frontend/src/pages/StorageAnalyzerView.tsx: the results of a scan, page by
-- page; the two scans and their requests; the duplicate files.
pub mod Pages
pub mod Scan
pub mod Duplicates
pub mod Groups
pub mod Keep
pub mod Search
pub mod Attach
mod Tests
