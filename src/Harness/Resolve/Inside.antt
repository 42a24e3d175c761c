-- ===== src/Harness/Resolve/Inside.antt =====
-- Which files an external entity may be read from.
