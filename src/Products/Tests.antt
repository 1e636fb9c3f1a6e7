-- ===== src/Products/Tests.antt =====
-- Runs of the catalog and of the product policy, and the theorems at concrete inputs.
use Prim.Native.String.{String}
use oria.Base.{
  ℕ, zero, suc, ◌≡◌, ◌≢◌, refl, ap, true, false, none, some, List, [], ◌∷◌, length, select, ok, err,
  ◌>>=◌, has_dot, split_dot, same_text, String_discrete, is-yes, boolean, text, Fields, no_fields,
  field, arith,
}
use oria.Products.{
  ProductSnapshot, ProductEligibilityCriteria, ProductReason, price_above_maximum, evaluate,
  evaluate_from, evaluate_page,
}
use oria.Products.Cursor.{
  Encoding, pos, Policy, query_mismatch, ReadsBack, encode_cursor, decode_cursor,
  decode_cursor-encode_cursor,
}
use oria.Products.Catalog.{Tenants, Catalog, list_products, new_catalog, install_snapshot, sorted}
use oria.Products.Loading.{ItemKey, at_keys, load_from, load_products}
use oria.Products.Paging.{load_products_eq, foreign_cursor_refused}
use oria.Products.Admission.{admitted, fails, count_of, Ascending, evaluate_page_lem}

-- What an operation computes through.
everything : Unit {0}
unfolding String_discrete encode_cursor decode_cursor split_dot sorted new_catalog install_snapshot
    list_products at_keys load_from load_products evaluate evaluate_from evaluate_page
everything = tt

abbrev hash_a : String
hash_a = "aaaaaaaaaaaaaaaaaaaaaaaaaaaaaaaaaaaaaaaaaaaaaaaaaaaaaaaaaaaaaaaa"

abbrev hash_b : String
hash_b = "bbbbbbbbbbbbbbbbbbbbbbbbbbbbbbbbbbbbbbbbbbbbbbbbbbbbbbbbbbbbbbbb"

-- An encoding for one query in one snapshot: the offset in unary.
abbrev unary : ℕ → String
unary zero = ""
unary (suc n) = String.◌∷◌ "a" (unary n)

abbrev size : String → ℕ
size String.[] = 0
size (String.◌∷◌ c s) = suc (size s)

abbrev encoding_of : String → Encoding
encoding_of h = record {
  to_json = λ id n q. unary n;
  of_json = λ s. some ("snapshot", pos (size s), h);
  encode64 = λ s. s;
  decode64 = some;
  digest = λ secret payload. secret;
}

size-unary : (n : ℕ) → size (unary n) ≡ n
size-unary zero = refl
size-unary (suc n) = ap suc (size-unary n)

dotless_unary : (n : ℕ) → has_dot (unary n) ≡ false
dotless_unary zero = refl
dotless_unary (suc n) = dotless_unary n

reads_a : ReadsBack (encoding_of hash_a) "snapshot" hash_a
unfolding everything
reads_a = record {
  json_back = λ n. ap (λ k. some ("snapshot", pos k, hash_a)) (size-unary n);
  base64_back = λ n. refl;
  dotless = dotless_unary;
  identified = refl;
  query_length = refl;
}

reads_b : ReadsBack (encoding_of hash_b) "snapshot" hash_b
unfolding everything
reads_b = record {
  json_back = λ n. ap (λ k. some ("snapshot", pos k, hash_b)) (size-unary n);
  base64_back = λ n. refl;
  dotless = dotless_unary;
  identified = refl;
  query_length = refl;
}

abbrev facts : Fields
facts = field "status" (text "available") (field "available" (boolean true) no_fields)

abbrev product : String → ℕ → ProductSnapshot
product name price = record {
  product_ref = name;
  product_version = "v1";
  merchant_id = "merchant";
  source_ref = "source";
  captured_at = 10;
  category = "tea";
  normalized_price = price;
  currency = "CNY";
  normalized_title = "title";
  keyword_labels = "green" ∷ [];
  eligibility_facts = facts;
}

abbrev tenants : Tenants
tenants = ("tenant", product "p1" 10 ∷ product "p2" 90 ∷ []) ∷ []

abbrev catalog : Catalog
catalog = record { current = "snapshot"; snapshots = ("snapshot", tenants) ∷ []; secret = "secret" }

abbrev policy : Policy
policy = record { policy_ref = "policy"; policy_version = "1" }

abbrev key : String → ItemKey
key name = record { merchant_id = "merchant"; product_ref = name; product_version = "v1" }

-- The products were given in another order.
sorted_catalog :
    new_catalog (("tenant", product "p2" 90 ∷ product "p1" 10 ∷ []) ∷ []) "snapshot" "secret"
    ≡ ok catalog
unfolding everything
sorted_catalog = refl

-- A snapshot is installed between the pages.
abbrev gaps : ℕ → List (String × Tenants)
gaps k = ("newer", []) ∷ []

decode_cursor-encode_cursor_example :
    decode_cursor
      (encoding_of hash_a)
      "secret"
      (encode_cursor (encoding_of hash_a) "secret" "snapshot" 7 hash_a)
    ≡ ok ("snapshot", 7, hash_a)
decode_cursor-encode_cursor_example =
    decode_cursor-encode_cursor (encoding_of hash_a) "secret" "snapshot" hash_a reads_a 7

load_products_eq_example :
    load_products
      (encoding_of hash_a)
      (λ m p. hash_a)
      "tenant"
      (key "p2" ∷ [])
      policy
      none
      gaps
      3
      catalog
    ≡ (at_keys (key "p2" ∷ []) (product "p1" 10 ∷ product "p2" 90 ∷ []) >>= λ ps.
        ok ("snapshot", ps))
unfolding String_discrete
load_products_eq_example =
    load_products_eq (encoding_of hash_a) (λ m p. hash_a) "tenant" (key "p2") [] policy none gaps 3
      catalog tenants refl refl refl reads_a (omega arith)

no_match : ¬ (same_text hash_b hash_a ≡ true)
unfolding String_discrete
no_match k = cc

b_not_a : hash_b ≢ hash_a
b_not_a h = absurd (no_match (is-yes (String_discrete hash_b hash_a) h))

foreign_cursor_refused_example :
    list_products
      (encoding_of hash_b)
      (λ m p. hash_a)
      catalog
      "tenant"
      ("merchant" ∷ [])
      policy
      none
      (some (encode_cursor (encoding_of hash_b) "secret" "snapshot" 1 hash_b))
      20
    ≡ err query_mismatch
unfolding String_discrete
foreign_cursor_refused_example =
    foreign_cursor_refused (encoding_of hash_b) (λ m p. hash_a) catalog "tenant" ("merchant" ∷ [])
      policy none "snapshot" hash_b 1 20 refl (omega arith) (omega arith) refl reads_b b_not_a

abbrev criteria : ProductEligibilityCriteria
criteria = record {
  rule_snapshot_id = "rs";
  rule_snapshot_hash = "hash";
  policy_ref = "policy";
  policy_version = "1";
  price_min = 5;
  price_max = 50;
  categories = "tea" ∷ [];
  keywords = "green" ∷ [];
}

page_runs :
    evaluate_page (product "p1" 10 ∷ product "p2" 90 ∷ []) criteria
    ≡ (product "p1" 10 ∷ [], (price_above_maximum, 1) ∷ [])
unfolding everything
page_runs = refl

evaluate_page_lem_example :
    let products = product "p1" 10 ∷ product "p2" 90 ∷ [] in
    let page = evaluate_page products criteria in
    (page.0 ≡ select (admitted criteria) products)
    × ((r : ProductReason) → count_of r page.1 ≡ length (select (fails criteria r) products))
    × Ascending page.1
evaluate_page_lem_example = evaluate_page_lem (product "p1" 10 ∷ product "p2" 90 ∷ []) criteria
