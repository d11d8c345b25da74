-- ===== src/Licenses/Listing.antt =====
-- `ListLicenses` of internal/licenses/service.go, with `List` of internal/licenses/repo.go.
use packfinderz_backend.Prelude.{◌==◌, Option, List, [], ◌∷◌, ◌≡◌, refl, ap, map, select, ℤ}
use packfinderz_backend.Errors.{Code, ok}
use packfinderz_backend.Store.Tables.{Uuid, Blob, License, World}
use packfinderz_backend.Store.Tx.{Call, Env, M, call, fail_if, gets, pure, wrapped, ◌>>=◌, ◌>>◌}
use packfinderz_backend.Store.Post.{
  Post, Post-ok, bind-Post, call-Post, gets-Post, pure-Post, fail_if-Post, map_error-Post,
  or_raise-Post, weaken-Post,
}
use packfinderz_backend.Media.{find_media}
use packfinderz_backend.Pages.{Cursor, license_page}

-- `ListItem`: the license without its GCS key, and the URL of its medium
pub record ListItem : Type 0 where
  pub license : License
  pub signed_url : Blob

pub record ListResult : Type 0 where
  pub items : List ListItem
  pub cursor : Option Cursor

-- The columns that a list of licenses is ordered by.
abbrev pub license_key : License → Cursor
license_key l = record { created_at = l.created_at; id = l.id }

-- `WHERE store_id = ?`
abbrev pub of_store : Uuid → List License → List License
of_store s = select (λ l. l.store_id == s)

module _ (env : Env) where
  -- The loop that looks up the medium of each row.
  unfoldable pub list_items : List License → M (List ListItem)
  list_items [] = pure []
  list_items (l ∷ ls) = do
    media ← wrapped (find_media env l.media_id)
    rest ← list_items ls
    pure (record { license = l; signed_url = media.public_url } ∷ rest)

  -- `ListLicenses`, for a cursor that has been read back.
  unfoldable pub list_licenses : Uuid → ℤ → Option Cursor → M ListResult
  unfolding list_items license_page
  list_licenses store_id limit cursor = do
    fail_if (store_id == 0) Code.validation
    page ← wrapped (
        call env Call.list_licenses
          (gets λ w. license_page license_key limit cursor (of_store store_id w.tables.licenses)))
    items ← list_items page.items
    pure (record { items = items; cursor = page.next })

  list_items-Post :
      (ls : List License) (w : World)
      → Post (λ items v. map (λ i. i.license) items ≡ ls) (list_items ls w)
  unfolding list_items find_media
  list_items-Post [] w = pure-Post [] w refl
  list_items-Post (l ∷ ls) w = bind-Post _ _ w (
      map_error-Post _ _ w (
        call-Post env _ _ w (
          or_raise-Post _ _ w λ media found. bind-Post _ _ w (
            weaken-Post _ (λ items v h. pure-Post _ v (ap (λ xs. l ∷ xs) h))
              (list_items-Post ls w)))))

  list_licenses-Post :
      (store_id : Uuid) (limit : ℤ) (cursor : Option Cursor) (w : World)
      → Post
          (λ r v.
            let p = license_page license_key limit cursor (of_store store_id w.tables.licenses) in
            (map (λ i. i.license) r.items ≡ p.items) × (r.cursor ≡ p.next))
          (list_licenses store_id limit cursor w)
  unfolding list_licenses
  list_licenses-Post store_id limit cursor w = bind-Post _ _ w (
      fail_if-Post _ _ w λ _. bind-Post _ _ w (
        map_error-Post _ _ w (
          call-Post env _ _ w (
            gets-Post _ w (
              bind-Post _ _ w
                (weaken-Post _ (λ items v h. pure-Post _ v (h, refl)) (list_items-Post _ w)))))))

  -- A list that is returned is the page of the store's licenses that `Pages` walks over.
  pub list_licenses_ok :
      (store_id : Uuid) (limit : ℤ) (cursor : Option Cursor) (w : World) {r : ListResult}
      → (list_licenses store_id limit cursor w).0 ≡ ok r
      → let p = license_page license_key limit cursor (of_store store_id w.tables.licenses) in
        (map (λ i. i.license) r.items ≡ p.items) × (r.cursor ≡ p.next)
  list_licenses_ok store_id limit cursor w h =
      Post-ok (list_licenses store_id limit cursor w) (list_licenses-Post store_id limit cursor w) h
