-- ===== src/Products/Loading.antt =====
-- src/oria/domain/enrollment.py: the loop that reads all pages of a catalog, `_load_products`. Between two
-- pages others may install snapshots, or fail to: `gaps` says which.
use oria.Base.{
  ℕ, zero, suc, String, Bool, false, not, ◌&&◌, Option, none, some, List, [], ◌∷◌, map, find,
  Result, ok, err, ◌>>=◌, ◌>>◌, raise_if, or_raise, same_text, if◌then◌else◌,
}
use oria.Products.{ProductSnapshot}
use oria.Products.Cursor.{
  Encoding, Policy, CatalogError, pagination_changed, product_unavailable, out_of_fuel,
}
use oria.Products.Catalog.{Tenants, Catalog, same_key, normalized, install_snapshot, list_products}

-- The key of a product that an enrollment asks for.
pub record ItemKey : Type 0 where
  pub merchant_id : String
  pub product_ref : String
  pub product_version : String

-- `found[key] = product`
abbrev pub set_found : ProductSnapshot → List ProductSnapshot → List ProductSnapshot
set_found p [] = p ∷ []
set_found p (q ∷ qs) = let rest = set_found p qs in if same_key q p then p ∷ qs else q ∷ rest

abbrev pub set_all : List ProductSnapshot → List ProductSnapshot → List ProductSnapshot
set_all [] found = found
set_all (p ∷ ps) found = set_all ps (set_found p found)

abbrev pub has_item_key : ItemKey → ProductSnapshot → Bool
has_item_key key p =
    same_text p.merchant_id key.merchant_id
    && same_text p.product_ref key.product_ref
    && same_text p.product_version key.product_version

-- The products at the requested keys.
unfoldable pub at_keys :
    List ItemKey → List ProductSnapshot → Result CatalogError (List ProductSnapshot)
at_keys [] found = ok []
at_keys (key ∷ keys) found = do
  product ← or_raise (find (has_item_key key) found) product_unavailable
  products ← at_keys keys found
  ok (product ∷ products)

abbrev pub install_all : Catalog → List (String × Tenants) → Catalog
install_all catalog [] = catalog
install_all catalog ((snapshot_id, tenants) ∷ installs) =
    install_all (install_snapshot catalog snapshot_id tenants).1 installs

abbrev pub is_changed : Option String → String → Bool
is_changed none snapshot_id = false
is_changed (some observed) snapshot_id = not (same_text snapshot_id observed)

module _ (encoding : Encoding) (query_hash : List String → Policy → String) (tenant_id : String)
    (merchants : List String) (policy : Policy) (expected : Option String) (limit : ℕ)
    (gaps : ℕ → List (String × Tenants)) where
  -- The loop, of which the first `k` rounds are done.
  unfoldable pub load_from :
      ℕ
      → ℕ
      → Catalog
      → Option String
      → Option String
      → List ProductSnapshot
      → Result CatalogError (String × List ProductSnapshot)
  load_from zero k catalog cursor observed found = err out_of_fuel
  load_from (suc fuel) k catalog cursor observed found = do
    page ←
        list_products encoding query_hash catalog tenant_id merchants policy expected cursor limit
    raise_if (is_changed observed page.catalog_snapshot_id) pagination_changed
    elim page.next_cursor [
      | none ↦ ok (page.catalog_snapshot_id, set_all page.products found)
      | some next ↦
          load_from fuel (suc k) (install_all catalog (gaps k)) (some next)
            (some page.catalog_snapshot_id) (set_all page.products found)
    ]

-- `_load_products`, with the fuel of its loop.
unfoldable pub load_products :
    Encoding
    → (List String → Policy → String)
    → String
    → List ItemKey
    → Policy
    → Option String
    → (ℕ → List (String × Tenants))
    → ℕ
    → Catalog
    → Result CatalogError (String × List ProductSnapshot)
load_products encoding query_hash tenant_id requested policy expected gaps fuel catalog = do
  (snapshot_id, found) ←
      load_from encoding query_hash tenant_id
        (normalized (map (λ (key : ItemKey). key.merchant_id) requested)) policy expected 100 gaps
        fuel 0 catalog none none []
  products ← at_keys requested found
  ok (snapshot_id, products)
