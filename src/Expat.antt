-- ===== src/Expat.antt =====
-- student/results/expat-2.8.1/compare.py: the same runs through two libraries, row by row.
pub mod Events
pub mod Rows
