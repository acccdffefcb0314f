-- ===== src/Process/Transfer/Range.antt =====
-- What the range test of the calls lets through.
