-- ===== src/Importer.antt =====
-- src/core/importer.cpp: a launch script as the lines of a VM.
pub mod Words
pub mod Script
pub mod Progress
pub mod Exported
pub mod Import
pub mod Imported
