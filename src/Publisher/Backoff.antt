-- ===== src/Publisher/Backoff.antt =====
-- The pauses after failed batches.
