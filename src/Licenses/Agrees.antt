-- ===== src/Licenses/Agrees.antt =====
-- The invariant of licenses and stores, and the ways in which a store's KYC status follows a change
-- of its licenses.
use packfinderz_backend.Prelude.{
  ◌==◌, if◌then◌else◌, false, Option, some, List, [], ◌∷◌, ◌≡◌, refl, ◌∙◌, sym, ap, arith,
  Bool-cases, Option-cases, inl, inr,
}
use mathlib.Core.Option
use packfinderz_backend.Enums.{KycStatus, is_kyc}
use packfinderz_backend.Store.Tables.{Uuid, License, StoreRow, Tables}
use packfinderz_backend.Store.Rows.{find, update, find-update}
use packfinderz_backend.Licenses.{set_kyc, save_row}
use packfinderz_backend.Licenses.Verified.{has_verified}
use packfinderz_backend.Licenses.Unique.{Unique}

abbrev pub store_row : Uuid → List StoreRow → Option StoreRow
store_row = find (λ s. s.id)

-- A store is verified exactly if one of its licenses is.
abbrev pub Agrees : List StoreRow → List License → Type 0
Agrees stores ls =
    (k : Uuid) (r : StoreRow)
    → store_row k stores ≡ some r
    → is_kyc r.kyc_status KycStatus.verified ≡ has_verified k ls

pub record Good (t : Tables) : Type 0 where
  pub agrees : Agrees t.stores t.licenses
  pub unique : Unique t.licenses

module _ (s : Uuid) (stores : List StoreRow) (ls ls' : List License) (status : KycStatus) where
  abbrev pub Others : Type 0
  Others = (j : Uuid) → (s == j) ≡ false → has_verified j ls' ≡ has_verified j ls

  module _ (before : Agrees stores ls) (others : Others)
      (right : is_kyc status KycStatus.verified ≡ has_verified s ls') where
    -- The store gets the status that is right for its licenses.
    pub recomputed-Agrees : Agrees (update (λ r. r.id) s (set_kyc status) stores) ls'
    recomputed-Agrees k r f =
        let moved = find-update (λ x. x.id) (set_kyc status) (λ x. refl) k s stores in
        elim (Option-cases (store_row k stores)) [
          | inl gone ↦ ground arith
          | inr (old, found) ↦ elim (Bool-cases (k == s)) [
            | inl hit ↦
                let key : k ≡ s = ground arith in
                let new : set_kyc status old ≡ r = ground arith in
                let kyc : r.kyc_status ≡ status = ground arith in rw kyc (rw key right)
            | inr miss ↦
                let same : old ≡ r = ground arith in
                before k r (rw same at found) ∙ sym (others k (ground arith))
          ]
        ]

    -- It has it already.
    pub settled-Agrees :
        {row : StoreRow}
        → store_row s stores ≡ some row
        → row.kyc_status ≡ status
        → Agrees stores ls'
    settled-Agrees {row} found e k r f = elim (Bool-cases (k == s)) [
      | inl hit ↦
          let key : k ≡ s = ground arith in
          let same : row ≡ r = ground arith in
          rw key (
            ap (λ x. is_kyc x KycStatus.verified)
              (ap (λ (x : StoreRow). x.kyc_status) (sym same) ∙ e)
            ∙ right)
      | inr miss ↦ before k r f ∙ sym (others k (ground arith))
    ]

-- `Save` of a row that is there replaces the rows with its identifier.
find-replace :
    (j k : Uuid) (row : StoreRow) (xs : List StoreRow)
    → row.id ≡ k
    → store_row j (update (λ r. r.id) k (λ r. row) xs)
      ≡ (if j == k then Option.map (λ r. row) (store_row j xs) else store_row j xs)
find-replace j k row [] e = ground arith
find-replace j k row (x ∷ xs) e = ground (arith, find-replace j k row xs e)

pub find-save :
    (j : Uuid) (row old : StoreRow) (xs : List StoreRow)
    → store_row row.id xs ≡ some old
    → store_row j (save_row row xs) ≡ (if j == row.id then some row else store_row j xs)
find-save j row old xs e =
    rw (e, save_row)
      (elim (Bool-cases (j == row.id)) [
        | inl hit ↦
            let key : j ≡ row.id = ground arith in
            ground (arith, find-replace j row.id row xs refl, ap (λ x. store_row x xs) key)
        | inr miss ↦ ground (arith, find-replace j row.id row xs refl)
      ])

module _ (s : Uuid) (stores : List StoreRow) (ls ls' : List License) (row old : StoreRow) where
  -- A store that is saved with the right status.
  pub saved-Agrees :
      Agrees stores ls
      → Others s stores ls ls' row.kyc_status
      → is_kyc row.kyc_status KycStatus.verified ≡ has_verified s ls'
      → row.id ≡ s
      → store_row s stores ≡ some old
      → Agrees (save_row row stores) ls'
  saved-Agrees before others right key found k r f =
      let moved = find-save k row old stores (rw key found) in
      elim (Bool-cases (k == s)) [
        | inl hit ↦
            let same : row ≡ r = ground arith in
            let key' : k ≡ s = ground arith in
            rw key'
              (ap (λ (x : StoreRow). is_kyc x.kyc_status KycStatus.verified) (sym same) ∙ right)
        | inr miss ↦ before k r (ground arith) ∙ sym (others k (ground arith))
      ]
