-- ===== src/Licenses/Verified.antt =====
-- The licenses of a store as the KYC status looks at them: whether one is verified, what the
-- statuses determine, and that a change of one license leaves the other stores alone.
use packfinderz_backend.Prelude.{
  ◌==◌, Bool, true, false, not, ◌&&◌, ◌||◌, some, List, [], ◌∷◌, ◌++◌, ◌≡◌, refl, arith, All,
  Bool-cases, inl, inr,
}
use packfinderz_backend.Enums.{
  LicenseStatus, LicenseStatus-discrete, KycStatus, KycStatus-discrete, is_license, is_kyc,
}
use packfinderz_backend.Store.Tables.{Uuid, License}
use packfinderz_backend.Store.Rows.{update}
use packfinderz_backend.Licenses.{license_row, set_status, statuses_of, remove}
use packfinderz_backend.Licenses.Service.{kyc_loop, determine_store_kyc_status, kyc_of_flags}

abbrev pub has_verified : Uuid → List License → Bool
has_verified s [] = false
has_verified s (l ∷ ls) =
    (l.store_id == s && is_license l.status LicenseStatus.verified) || has_verified s ls

-- One round of the loop, if a verified license is what counts.
loop_head :
    (a b : Bool) (st : LicenseStatus) (ss : List LicenseStatus) (found : Bool)
    → ((a' b' : Bool) → is_kyc (kyc_loop a' b' ss) KycStatus.verified ≡ found)
    → is_kyc (kyc_loop a b (st ∷ ss)) KycStatus.verified
      ≡ (is_license st LicenseStatus.verified || found)
unfolding kyc_loop KycStatus-discrete LicenseStatus-discrete
loop_head a b LicenseStatus.pending ss found h = h a b
loop_head a b LicenseStatus.verified ss found h = refl
loop_head a b LicenseStatus.rejected ss found h = h a true
loop_head a b LicenseStatus.expired ss found h = h true b

flags-verified : (a b : Bool) → is_kyc (kyc_of_flags a b) KycStatus.verified ≡ false
unfolding KycStatus-discrete
flags-verified true true = refl
flags-verified true false = refl
flags-verified false true = refl
flags-verified false false = refl

loop-verified :
    (s : Uuid) (ls : List License) (a b : Bool)
    → is_kyc (kyc_loop a b (statuses_of s ls)) KycStatus.verified ≡ has_verified s ls
loop-verified s [] a b = unfold kyc_loop in flags-verified a b
loop-verified s (l ∷ ls) a b = elim (Bool-cases (l.store_id == s)) [
  | inl ours ↦ rw ours (
      loop_head a b l.status (statuses_of s ls) (has_verified s ls)
        (λ a' b'. loop-verified s ls a' b'))
  | inr other ↦ rw other (loop-verified s ls a b)
]

-- A store is to be verified exactly if it has a verified license.
pub determine-verified :
    (s : Uuid) (ls : List License)
    → is_kyc (determine_store_kyc_status (statuses_of s ls)) KycStatus.verified ≡ has_verified s ls
unfolding determine_store_kyc_status
determine-verified s ls = loop-verified s ls false false

-- One of the statuses is not pending.
abbrev pub has_settled : List LicenseStatus → Bool
has_settled [] = false
has_settled (st ∷ ss) = not (is_license st LicenseStatus.pending) || has_settled ss

loop-settled :
    (a b : Bool) (ss : List LicenseStatus)
    → (a || b || has_settled ss) ≡ true
    → is_kyc (kyc_loop a b ss) KycStatus.pending_verification ≡ false
unfolding kyc_loop KycStatus-discrete LicenseStatus-discrete
loop-settled true true [] h = refl
loop-settled true false [] h = refl
loop-settled false true [] h = refl
loop-settled false false [] h = cc
loop-settled a b (LicenseStatus.pending ∷ ss) h = loop-settled a b ss h
loop-settled a b (LicenseStatus.verified ∷ ss) h = refl
loop-settled a b (LicenseStatus.rejected ∷ ss) h = loop-settled a true ss (ground arith)
loop-settled a b (LicenseStatus.expired ∷ ss) h = loop-settled true b ss (ground arith)

settled_after_update :
    (k : Uuid) (st : LicenseStatus) (ls : List License) {l : License}
    → license_row k ls ≡ some l
    → is_license st LicenseStatus.pending ≡ false
    → has_settled (statuses_of l.store_id (update (λ x. x.id) k (set_status st) ls)) ≡ true
settled_after_update k st [] f n = cc
settled_after_update k st (x ∷ ls) {l} f n = elim (Bool-cases (x.id == k)) [
  | inl hit ↦ let same : x ≡ l = ground arith in rw hit (rw same (ground arith))
  | inr miss ↦
      let rest = settled_after_update k st ls {l = l} (rw miss at f) n in
      rw miss (ground (arith, rest))
]

-- After a license of the store has been given a status, the store's is not pending.
pub determine-settled :
    (k : Uuid) (st : LicenseStatus) (ls : List License) {l : License}
    → license_row k ls ≡ some l
    → is_license st LicenseStatus.pending ≡ false
    → is_kyc
        (determine_store_kyc_status
          (statuses_of l.store_id (update (λ x. x.id) k (set_status st) ls)))
        KycStatus.pending_verification
      ≡ false
unfolding determine_store_kyc_status
determine-settled k st ls f n = loop-settled false false _ (settled_after_update k st ls f n)

-- Every license with the identifier is of the store.
abbrev pub SameStore : Uuid → Uuid → List License → Type 0
SameStore k s = All (λ l. (not (l.id == k) || l.store_id == s) ≡ true)

module _ (k s j : Uuid) where
  pub has_verified-update :
      (st : LicenseStatus) (ls : List License)
      → SameStore k s ls
      → (s == j) ≡ false
      → has_verified j (update (λ x. x.id) k (set_status st) ls) ≡ has_verified j ls
  has_verified-update st [] h n = refl
  has_verified-update st (l ∷ ls) h n = ground (arith, has_verified-update st ls h.1 n)

  pub has_verified-remove :
      (ls : List License)
      → SameStore k s ls
      → (s == j) ≡ false
      → has_verified j (remove k ls) ≡ has_verified j ls
  has_verified-remove [] h n = refl
  has_verified-remove (l ∷ ls) h n = ground (arith, has_verified-remove ls h.1 n)

pub has_verified-append :
    (j : Uuid) (ls : List License) (l : License)
    → is_license l.status LicenseStatus.verified ≡ false
    → has_verified j (ls ++ l ∷ []) ≡ has_verified j ls
has_verified-append j [] l h = ground arith
has_verified-append j (x ∷ ls) l h = ground (arith, has_verified-append j ls l h)
