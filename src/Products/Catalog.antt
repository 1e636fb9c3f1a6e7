-- ===== src/Products/Catalog.antt =====
-- src/oria/adapters/products.py: the catalog in memory. The hash of a query is a parameter.
use oria.Base.{
  ℕ, ◌+◌, String, Bool, false, not, ◌&&◌, ◌||◌, Option, none, some, List, [], ◌∷◌, any, select,
  length, take, drop, Result, ok, err, ◌>>=◌, ◌>>◌, raise_if, or_raise, ltb, leb, ◌==◌, same_text,
  text_le, present, if◌then◌else◌,
}
use oria.Products.{ProductSnapshot, among}
use oria.Products.Cursor.{
  Encoding, Policy, encode_cursor, decode_cursor, CatalogError, identity_required, identity_used,
  duplicate_keys, no_tenant, limit_out_of_range, no_merchants, query_mismatch, snapshot_mismatch,
  snapshot_unavailable,
}

-- The products of each tenant, and the tenants of each snapshot.
abbrev pub Tenants : Type 0
Tenants = List (String × List ProductSnapshot)

pub record Catalog : Type 0 where
  pub current : String
  pub snapshots : List (String × Tenants)
  pub secret : String

pub record Page : Type 0 where
  pub catalog_snapshot_id : String
  pub products : List ProductSnapshot
  pub next_cursor : Option String

-- `mapping.get(key)`
abbrev pub get_key : {A : Type 0} → String → List (String × A) → Option A
get_key key [] = none
get_key key ((k, a) ∷ entries) = if same_text k key then some a else get_key key entries

abbrev pub same_key : ProductSnapshot → ProductSnapshot → Bool
same_key a b =
    same_text a.merchant_id b.merchant_id
    && same_text a.product_ref b.product_ref
    && same_text a.product_version b.product_version

abbrev pub duplicated : List ProductSnapshot → Bool
duplicated [] = false
duplicated (p ∷ ps) = any (same_key p) ps || duplicated ps

-- The order of the tuples of merchant, product and version.
abbrev pub key_le : ProductSnapshot → ProductSnapshot → Bool
key_le a b =
    if not (same_text a.merchant_id b.merchant_id)
    then text_le a.merchant_id b.merchant_id
    else (if not (same_text a.product_ref b.product_ref)
        then text_le a.product_ref b.product_ref
        else text_le a.product_version b.product_version)

abbrev pub inserted : ProductSnapshot → List ProductSnapshot → List ProductSnapshot
inserted p [] = p ∷ []
inserted p (q ∷ qs) = let rest = inserted p qs in if key_le p q then p ∷ q ∷ qs else q ∷ rest

abbrev pub by_key : List ProductSnapshot → List ProductSnapshot
by_key [] = []
by_key (p ∷ ps) = inserted p (by_key ps)

-- `_sorted`
unfoldable pub sorted : List ProductSnapshot → Result CatalogError (List ProductSnapshot)
sorted products = raise_if (duplicated products) duplicate_keys >> ok (by_key products)

abbrev pub sorted_tenants : Tenants → Result CatalogError Tenants
sorted_tenants [] = ok []
sorted_tenants ((tenant, products) ∷ tenants) = do
  ps ← sorted products
  rest ← sorted_tenants tenants
  ok ((tenant, ps) ∷ rest)

-- The constructor.
unfoldable pub new_catalog : Tenants → String → String → Result CatalogError Catalog
new_catalog tenants snapshot_id secret = do
  raise_if (not (present snapshot_id) || not (present secret)) identity_required
  ts ← sorted_tenants tenants
  ok (record { current = snapshot_id; snapshots = (snapshot_id, ts) ∷ []; secret = secret })

abbrev pub is_known : String → List (String × Tenants) → Bool
is_known snapshot_id snapshots = any (λ (s : String × Tenants). same_text s.0 snapshot_id) snapshots

abbrev pub after_sorting :
    Catalog → String → Result CatalogError Tenants → Result CatalogError (Unit {0}) × Catalog
after_sorting catalog snapshot_id (err e) = (err e, catalog)
after_sorting catalog snapshot_id (ok ts) = (
  ok tt,
  record catalog { current = snapshot_id; snapshots = (snapshot_id, ts) ∷ catalog.snapshots },
)

unfoldable pub install_snapshot :
    Catalog → String → Tenants → Result CatalogError (Unit {0}) × Catalog
install_snapshot catalog snapshot_id tenants =
    if not (present snapshot_id) || is_known snapshot_id catalog.snapshots
    then (err identity_used, catalog)
    else after_sorting catalog snapshot_id (sorted_tenants tenants)

-- `sorted(set(texts))`
abbrev pub with_text : String → List String → List String
with_text t [] = t ∷ []
with_text t (x ∷ xs) =
    let rest = with_text t xs in
    if same_text t x then x ∷ xs else (if text_le t x then t ∷ x ∷ xs else x ∷ rest)

abbrev pub normalized : List String → List String
normalized [] = []
normalized (t ∷ ts) = with_text t (normalized ts)

-- `catalog_snapshot_id or self._current_snapshot_id`
abbrev pub requested_or : Option String → String → String
requested_or none current = current
requested_or (some s) current = if present s then s else current

abbrev pub is_other : Option String → String → Bool
is_other none snapshot_id = false
is_other (some requested) snapshot_id = not (same_text snapshot_id requested)

abbrev pub tenant_products : Option (List ProductSnapshot) → List ProductSnapshot
tenant_products none = []
tenant_products (some products) = products

abbrev pub allowed : List String → Tenants → String → List ProductSnapshot
allowed merchants tenants tenant_id =
    select (λ (p : ProductSnapshot). among merchants p.merchant_id)
      (tenant_products (get_key tenant_id tenants))

module _ (encoding : Encoding) where
  -- The snapshot and the offset of a page.
  abbrev pub start_of :
      Catalog → String → Option String → Option String → Result CatalogError (String × ℕ)
  start_of catalog query_hash requested none = ok (requested_or requested catalog.current, 0)
  start_of catalog query_hash requested (some cursor) = do
    (snapshot_id, offset, observed_hash) ← decode_cursor encoding catalog.secret cursor
    raise_if (not (same_text observed_hash query_hash)) query_mismatch
    raise_if (is_other requested snapshot_id) snapshot_mismatch
    ok (snapshot_id, offset)

  -- The page of the products from an offset.
  abbrev pub page_at : Catalog → String → String → List ProductSnapshot → ℕ → ℕ → Page
  page_at catalog query_hash snapshot_id products offset limit =
      let page = take limit (drop offset products) in
      record {
        catalog_snapshot_id = snapshot_id;
        products = page;
        next_cursor =
            if ltb (offset + length page) (length products)
            then some (
                encode_cursor encoding catalog.secret snapshot_id (offset + length page) query_hash)
            else none;
      }

  -- `list_products`
  unfoldable pub list_products :
      (List String → Policy → String)
      → Catalog
      → String
      → List String
      → Policy
      → Option String
      → Option String
      → ℕ
      → Result CatalogError Page
  list_products query_hash catalog tenant_id merchants policy requested cursor limit = do
    raise_if (not (present tenant_id)) no_tenant
    raise_if (not (leb 1 limit) || not (leb limit 100)) limit_out_of_range
    raise_if (length (normalized merchants) == 0) no_merchants
    (snapshot_id, offset) ←
        start_of catalog (query_hash (normalized merchants) policy) requested cursor
    tenants ← or_raise (get_key snapshot_id catalog.snapshots) snapshot_unavailable
    ok (
        page_at catalog (query_hash (normalized merchants) policy) snapshot_id
          (allowed (normalized merchants) tenants tenant_id) offset limit)
