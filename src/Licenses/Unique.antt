-- ===== src/Licenses/Unique.antt =====
-- The primary key of the licenses: every change keeps it, and a row that was read is the only one
-- with its identifier.
use packfinderz_backend.Prelude.{
  ◌==◌, Bool, false, some, none, List, [], ◌∷◌, ◌++◌, ◌≡◌, refl, arith, select, All, Bool-cases,
  inl, inr,
}
use packfinderz_backend.Enums.{LicenseStatus, is_license}
use packfinderz_backend.Store.Tables.{Uuid, License}
use packfinderz_backend.Store.Rows.{update, find-update, find-append}
use packfinderz_backend.Licenses.{license_row, set_status, remove}
use packfinderz_backend.Licenses.Verified.{SameStore, has_verified}

abbrev pub Unique : List License → Type 0
Unique [] = Unit
Unique (l ∷ ls) = (license_row l.id ls ≡ none) × Unique ls

pub update-Unique :
    (k : Uuid) (st : LicenseStatus) (ls : List License)
    → Unique ls
    → Unique (update (λ l. l.id) k (set_status st) ls)
update-Unique k st [] u = tt
update-Unique k st (l ∷ ls) u = elim (Bool-cases (l.id == k)) [
  | inl hit ↦ rw hit (
    ground (arith, find-update (λ x. x.id) (set_status st) (λ x. refl) l.id k ls),
    update-Unique k st ls u.1,
  )
  | inr miss ↦ rw miss (
    ground (arith, find-update (λ x. x.id) (set_status st) (λ x. refl) l.id k ls),
    update-Unique k st ls u.1,
  )
]

find-remove :
    (j k : Uuid) (ls : List License) → license_row j ls ≡ none → license_row j (remove k ls) ≡ none
find-remove j k [] h = refl
find-remove j k (l ∷ ls) h = ground (arith, find-remove j k ls)

pub remove-Unique : (k : Uuid) (ls : List License) → Unique ls → Unique (remove k ls)
remove-Unique k [] u = tt
remove-Unique k (l ∷ ls) u = elim (Bool-cases (l.id == k)) [
  | inl hit ↦ rw hit (remove-Unique k ls u.1)
  | inr miss ↦ rw miss (find-remove l.id k ls u.0, remove-Unique k ls u.1)
]

pub append-Unique :
    (l : License) (ls : List License)
    → Unique ls
    → license_row l.id ls ≡ none
    → Unique (ls ++ l ∷ [])
append-Unique l [] u h = (refl, tt)
append-Unique l (x ∷ ls) u h = (
  ground (arith, find-append (λ y. y.id) x.id ls (l ∷ [])),
  append-Unique l ls u.1 (ground arith),
)

absent-SameStore : (k s : Uuid) (ls : List License) → license_row k ls ≡ none → SameStore k s ls
absent-SameStore k s [] h = tt
absent-SameStore k s (l ∷ ls) h = (ground arith, absent-SameStore k s ls (ground arith))

-- What was found is the only row with its identifier.
pub found-SameStore :
    (k : Uuid) (ls : List License) {l : License}
    → Unique ls
    → license_row k ls ≡ some l
    → SameStore k l.store_id ls
found-SameStore k [] u f = tt
found-SameStore k (x ∷ ls) {l} u f = elim (Bool-cases (x.id == k)) [
  | inl hit ↦
      let same : x ≡ l = ground arith in
      let key : x.id ≡ k = ground arith in
      (rw same (ground arith), absent-SameStore k l.store_id ls (rw key at u.0))
  | inr miss ↦ (ground arith, found-SameStore k ls {l = l} u.1 (rw miss at f))
]

remove_absent :
    (j k : Uuid) (ls : List License)
    → license_row k ls ≡ none
    → has_verified j (remove k ls) ≡ has_verified j ls
remove_absent j k [] h = refl
remove_absent j k (l ∷ ls) h = ground (arith, remove_absent j k ls)

-- To delete a license that is not verified changes no store's standing.
pub remove_unverified :
    (j k : Uuid) (ls : List License) {l : License}
    → Unique ls
    → license_row k ls ≡ some l
    → is_license l.status LicenseStatus.verified ≡ false
    → has_verified j (remove k ls) ≡ has_verified j ls
remove_unverified j k [] u f h = refl
remove_unverified j k (x ∷ ls) {l} u f h = elim (Bool-cases (x.id == k)) [
  | inl hit ↦
      let same : x ≡ l = ground arith in
      let key : x.id ≡ k = ground arith in
      let rest = remove_absent j k ls (rw key at u.0) in rw hit (rw same (ground arith))
  | inr miss ↦
      let rest = remove_unverified j k ls {l = l} u.1 (rw miss at f) h in
      rw miss (ground (arith, rest))
]

-- The licenses that a query lists are the only ones with their identifiers.
abbrev pub Listed : List License → List License → Type 0
Listed ls = All (λ l. SameStore l.id l.store_id ls)

other_rows :
    (k : Uuid) (ls : List License) → license_row k ls ≡ none → All (λ l. (k == l.id) ≡ false) ls
other_rows k [] h = tt
other_rows k (l ∷ ls) h = (ground arith, other_rows k ls (ground arith))

Listed-behind :
    (l : License) (xs ls : List License)
    → All (λ x. (l.id == x.id) ≡ false) xs
    → Listed ls xs
    → Listed (l ∷ ls) xs
Listed-behind l [] ls o h = tt
Listed-behind l (x ∷ xs) ls o h = ((ground arith, h.0), Listed-behind l xs ls o.1 h.1)

pub Unique-Listed : (ls : List License) → Unique ls → Listed ls ls
Unique-Listed [] u = tt
Unique-Listed (l ∷ ls) u = (
  (ground arith, absent-SameStore l.id l.store_id ls u.0),
  Listed-behind l ls ls (other_rows l.id ls u.0) (Unique-Listed ls u.1),
)

pub select-Listed :
    (p : License → Bool) (xs ls : List License) → Listed ls xs → Listed ls (select p xs)
select-Listed p [] ls h = tt
select-Listed p (x ∷ xs) ls h = elim (Bool-cases (p x)) [
  | inl in_ ↦ rw in_ (h.0, select-Listed p xs ls h.1)
  | inr out ↦ rw out (select-Listed p xs ls h.1)
]

update-SameStore :
    (k j s : Uuid) (st : LicenseStatus) (ls : List License)
    → SameStore j s ls
    → SameStore j s (update (λ l. l.id) k (set_status st) ls)
update-SameStore k j s st [] h = tt
update-SameStore k j s st (l ∷ ls) h = elim (Bool-cases (l.id == k)) [
  | inl hit ↦ rw hit (h.0, update-SameStore k j s st ls h.1)
  | inr miss ↦ rw miss (h.0, update-SameStore k j s st ls h.1)
]

remove-SameStore :
    (k j s : Uuid) (ls : List License) → SameStore j s ls → SameStore j s (remove k ls)
remove-SameStore k j s [] h = tt
remove-SameStore k j s (l ∷ ls) h = elim (Bool-cases (l.id == k)) [
  | inl hit ↦ rw hit (remove-SameStore k j s ls h.1)
  | inr miss ↦ rw miss (h.0, remove-SameStore k j s ls h.1)
]

pub update-Listed :
    (k : Uuid) (st : LicenseStatus) (xs ls : List License)
    → Listed ls xs
    → Listed (update (λ l. l.id) k (set_status st) ls) xs
update-Listed k st [] ls h = tt
update-Listed k st (x ∷ xs) ls h =
    (update-SameStore k x.id x.store_id st ls h.0, update-Listed k st xs ls h.1)

pub remove-Listed : (k : Uuid) (xs ls : List License) → Listed ls xs → Listed (remove k ls) xs
remove-Listed k [] ls h = tt
remove-Listed k (x ∷ xs) ls h =
    (remove-SameStore k x.id x.store_id ls h.0, remove-Listed k xs ls h.1)
