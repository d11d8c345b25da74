-- ===== src/Ledger.antt =====
-- internal/ledger/service.go: the events of the money's life, which are only appended.
use packfinderz_backend.Prelude.{◌==◌, if◌then◌else◌, Bool, false, ◌&&◌, ◌||◌, List, [], ◌∷◌, ◌++◌}
use packfinderz_backend.Enums.{LedgerType, is_ledger}
use packfinderz_backend.Errors.{driver}
use packfinderz_backend.Store.Tables.{LedgerEvent, Uuid}
use packfinderz_backend.Store.Tx.{Call, Env, M, ⊤, call, raise, gets, modify}

-- `RecordLedgerEventInput`, without the metadata, which the order services leave empty. The row
-- that `RecordEvent` writes has the same fields.
abbrev pub RecordInput : Type 0
RecordInput = LedgerEvent

abbrev pub has_type : Uuid → LedgerType → List LedgerEvent → Bool
has_type k t [] = false
has_type k t (e ∷ es) = (e.order_id == k && is_ledger e.type t) || has_type k t es

module _ (env : Env) where
  -- `RecordEvent`; every type of the model is one that `IsValid` accepts.
  unfoldable pub record_event : RecordInput → M ⊤
  record_event input =
      if input.order_id == 0
      then raise driver
      else if input.buyer_store_id == 0
      then raise driver
      else if input.vendor_store_id == 0
      then raise driver
      else if input.actor_user_id == 0
      then raise driver
      else call env (Call.ledger_record input.order_id)
          (modify λ w. record w { ledger = w.ledger ++ input ∷ [] })

  -- `HasEvent`
  unfoldable pub has_event : Uuid → LedgerType → M Bool
  has_event k t =
      if k == 0
      then raise driver
      else call env (Call.ledger_list k) (gets λ w. has_type k t w.ledger)
