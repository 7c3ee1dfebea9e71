-- ===== src/Stdlib/Tests.antt =====
-- The theorems on the conversions, at concrete numbers and strings.
