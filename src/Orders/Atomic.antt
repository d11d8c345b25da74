-- ===== src/Orders/Atomic.antt =====
-- Every operation of the order service is all or nothing, as far as the tables go.
use packfinderz_backend.Store.Atomic.{Atomic}
