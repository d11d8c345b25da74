-- ===== src/Licenses.antt =====
-- Licenses: the queries of internal/licenses/repo.go, and those of internal/stores/repo.go and
-- internal/memberships/repo.go that the license service makes.
pub mod Service
pub mod Scheduler
pub mod Verified
pub mod Unique
pub mod Agrees
pub mod Keeps
pub mod Operations
pub mod Scheduled
pub mod Lifecycle
pub mod Run
pub mod Kyc
pub mod Decided
pub mod Listing
use packfinderz_backend.Prelude.{
  ℕ, ◌==◌, ◌+◌, leb, ltb, if◌then◌else◌, Bool, true, false, not, ◌&&◌, ◌||◌, Option, some, none,
  List, [], ◌∷◌, ◌++◌, map, select, count_if,
}
use packfinderz_backend.Enums.{LicenseStatus, KycStatus, MemberRole, is_license, is_role}
use packfinderz_backend.Errors.{record_not_found, driver, ok, err}
use packfinderz_backend.Store.Tables.{World, Uuid, License, StoreRow, Membership}
use packfinderz_backend.Store.Rows.{find, update}
use packfinderz_backend.Store.Tx.{Call, Env, M, ⊤, call, gets, modify, or_raise}

abbrev pub set_licenses : (List License → List License) → World → World
set_licenses f w = record w { tables = record (w.tables) { licenses = f w.tables.licenses } }

abbrev pub set_stores : (List StoreRow → List StoreRow) → World → World
set_stores f w = record w { tables = record (w.tables) { stores = f w.tables.stores } }

abbrev pub license_row : Uuid → List License → Option License
license_row = find (λ l. l.id)

abbrev pub set_status : LicenseStatus → License → License
set_status s l = record l { status = s }

abbrev pub set_kyc : KycStatus → StoreRow → StoreRow
set_kyc s r = record r { kyc_status = s }

-- `Where("id = ?", k).Delete`
abbrev pub remove : Uuid → List License → List License
remove k = select (λ l. not (l.id == k))

-- The statuses of the licenses of a store.
abbrev pub statuses_of : Uuid → List License → List LicenseStatus
statuses_of s [] = []
statuses_of s (l ∷ ls) = if l.store_id == s then l.status ∷ statuses_of s ls else statuses_of s ls

-- `Save`: an update of the row, and an insertion where there is none.
abbrev pub save_row : StoreRow → List StoreRow → List StoreRow
save_row r rows = elim (find (λ s. s.id) r.id rows) [
  | some old ↦ update (λ s. s.id) r.id (λ s. r) rows
  | none ↦ rows ++ r ∷ []
]

abbrev pub is_one_of : List MemberRole → MemberRole → Bool
is_one_of [] r = false
is_one_of (x ∷ xs) r = is_role x r || is_one_of xs r

-- A date that is given, in [from, to), where `from` is `window` seconds before `now`.
abbrev pub date_in : ℕ → ℕ → Option ℕ → Bool
date_in from to none = false
date_in from to (some d) = leb from d && ltb d to

module _ (env : Env) where
  unfoldable pub find_license : Uuid → M License
  find_license k =
      call env (Call.find_license k)
        (λ w. or_raise (license_row k w.tables.licenses) record_not_found w)

  -- The row with the identifier and the time that the database gives it. One with that identifier
  -- breaks the primary key; that `number` and `gcs_key` are unique too is one more way to fail.
  unfoldable pub create_license_row : License → M License
  create_license_row l =
      let row = record l { id = env.fresh 1; created_at = env.now } in
      call env Call.create_license (λ w. elim (license_row row.id w.tables.licenses) [
        | some old ↦ (err driver, w)
        | none ↦ (ok row, set_licenses (λ ls. ls ++ row ∷ []) w)
      ])

  unfoldable pub update_license_status : Uuid → LicenseStatus → M ⊤
  update_license_status k s =
      call env (Call.update_license k) (modify (set_licenses (update (λ l. l.id) k (set_status s))))

  unfoldable pub delete_license_row : Uuid → M ⊤
  delete_license_row k = call env (Call.delete_license k) (modify (set_licenses (remove k)))

  unfoldable pub list_statuses : Uuid → M (List LicenseStatus)
  list_statuses s = call env (Call.list_statuses s) (gets λ w. statuses_of s w.tables.licenses)

  unfoldable pub count_valid_licenses : Uuid → M ℕ
  count_valid_licenses s = call env (Call.count_valid s) (
      gets λ w.
        count_if (λ l. l.store_id == s && is_license l.status LicenseStatus.verified)
          w.tables.licenses)

  unfoldable pub find_store : Uuid → M StoreRow
  find_store k =
      call env (Call.find_store k)
        (λ w. or_raise (find (λ s. s.id) k w.tables.stores) record_not_found w)

  unfoldable pub save_store : StoreRow → M ⊤
  save_store r = call env (Call.update_store r.id) (modify (set_stores (save_row r)))

  unfoldable pub update_store_status : Uuid → KycStatus → M ⊤
  update_store_status k s =
      call env (Call.update_store k) (modify (set_stores (update (λ r. r.id) k (set_kyc s))))

  unfoldable pub user_has_role : Uuid → Uuid → List MemberRole → M Bool
  user_has_role user_id store_id roles = call env Call.has_role (
      gets λ w. ltb 0 (
        count_if (λ m. m.user_id == user_id && m.store_id == store_id && is_one_of roles m.role)
          w.tables.memberships))
