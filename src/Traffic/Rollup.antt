-- ===== src/Traffic/Rollup.antt =====
-- Rolling requests up loses none of them and counts none twice.
pub mod Groups
pub mod Unique
pub mod Conservation
