-- ===== src/Products/Paging.antt =====
-- The pages of a catalog are together the whole snapshot, whatever is installed while they are read.
use oria.Base.{
  own_text, ℕ, zero, suc, ◌+◌, ◌≤◌, ◌<◌, String, ◌≡◌, ◌≢◌, refl, sym, ap, subst, ◌∙◌, inl, inr,
  true, false, not, ◌||◌, Option, none, some, List, [], ◌∷◌, ◌++◌, map, take, drop, length,
  length-append, length-drop, drop-drop, take_then_drop, take-pos, ok, err, ◌>>=◌, same_text,
  present, ltb, leb, ◌==◌, Bool-cases, Result-cases, String_discrete, is-no, is-true, arith,
}
use oria.Products.{ProductSnapshot}
use oria.Products.Cursor.{
  Encoding, Policy, query_mismatch, ReadsBack, encode_cursor, decode_cursor-encode_cursor,
}
use oria.Products.Catalog.{
  Tenants, Catalog, Page, get_key, normalized, with_text, requested_or, is_other, is_known,
  sorted_tenants, allowed, start_of, page_at, install_snapshot, list_products,
}
use oria.Products.Loading.{
  ItemKey, set_all, at_keys, install_all, is_changed, load_from, load_products,
}

set_all-append :
    (xs ys found : List ProductSnapshot) → set_all (xs ++ ys) found ≡ set_all ys (set_all xs found)
set_all-append [] ys found = refl
set_all-append (x ∷ xs) ys found = set_all-append xs ys _

known_key :
    (id : String) (snapshots : List (String × Tenants)) (tenants : Tenants)
    → get_key id snapshots ≡ some tenants
    → is_known id snapshots ≡ true
known_key id [] tenants h = cc
known_key id ((i, t) ∷ rest) tenants h = let k = known_key id rest tenants in ground arith

-- A snapshot that is there stays what it is.
install_kept :
    (catalog : Catalog) (id i : String) (tenants ts : Tenants)
    → get_key id catalog.snapshots ≡ some tenants
    → get_key id (install_snapshot catalog i ts).1.snapshots ≡ some tenants
unfolding install_snapshot
install_kept catalog id i tenants ts h =
    elim (Bool-cases (not (present i) || is_known i catalog.snapshots)) [
      | inl refused ↦ rw refused h
      | inr fresh ↦ elim (Result-cases (sorted_tenants ts)) [
        | inr (e, failed) ↦ rw (fresh, failed) h
        | inl (sorted, done) ↦ elim (Bool-cases (same_text i id)) [
          | inr other ↦ rw (fresh, done, other) h
          | inl same ↦
              let q : i ≡ id = is-true (String_discrete i id) same in
              let k : is_known i catalog.snapshots ≡ true =
                subst (λ x. is_known x catalog.snapshots ≡ true) (sym q)
                  (known_key id catalog.snapshots tenants h) in
              absurd (ground arith)
        ]
      ]
    ]

install_secret :
    (catalog : Catalog) (i : String) (ts : Tenants)
    → (install_snapshot catalog i ts).1.secret ≡ catalog.secret
unfolding install_snapshot
install_secret catalog i ts = elim (Bool-cases (not (present i) || is_known i catalog.snapshots)) [
  | inl refused ↦ rw refused refl
  | inr fresh ↦ elim (Result-cases (sorted_tenants ts)) [
    | inr (e, failed) ↦ rw (fresh, failed) refl
    | inl (sorted, done) ↦ rw (fresh, done) refl
  ]
]

install_all-kept :
    (installs : List (String × Tenants)) (catalog : Catalog) (id : String) (tenants : Tenants)
    → get_key id catalog.snapshots ≡ some tenants
    → get_key id (install_all catalog installs).snapshots ≡ some tenants
install_all-kept [] catalog id tenants h = h
install_all-kept ((i, ts) ∷ installs) catalog id tenants h =
    install_all-kept installs (install_snapshot catalog i ts).1 id tenants
      (install_kept catalog id i tenants ts h)

install_all-secret :
    (installs : List (String × Tenants)) (catalog : Catalog)
    → (install_all catalog installs).secret ≡ catalog.secret
install_all-secret [] catalog = refl
install_all-secret ((i, ts) ∷ installs) catalog =
    install_all-secret installs (install_snapshot catalog i ts).1 ∙ install_secret catalog i ts

empty_list : {A : Type 0} (xs : List A) → length xs ≡ 0 → xs ≡ []
empty_list [] h = refl
empty_list (x ∷ xs) h = absurd (ground arith)

module _ (encoding : Encoding) (query_hash : List String → Policy → String) (tenant_id : String)
    (merchants : List String) (policy : Policy) (expected : Option String) (limit : ℕ)
    (gaps : ℕ → List (String × Tenants)) (snapshot_id : String) (tenants : Tenants)
    (named : present tenant_id ≡ true) (positive : 1 ≤ limit) (bounded : limit ≤ 100)
    (some_merchant : (length (normalized merchants) == 0) ≡ false)
    (not_other : is_other expected snapshot_id ≡ false)
    (back : ReadsBack encoding snapshot_id (query_hash (normalized merchants) policy)) where
  abbrev whole : List ProductSnapshot
  whole = allowed (normalized merchants) tenants tenant_id

  abbrev at_offset : Catalog → ℕ → Page
  at_offset catalog offset =
      page_at encoding catalog (query_hash (normalized merchants) policy) snapshot_id whole offset
        limit

  list_from :
      (catalog : Catalog) (offset : ℕ) (cursor : Option String)
      → get_key snapshot_id catalog.snapshots ≡ some tenants
      → start_of encoding catalog (query_hash (normalized merchants) policy) expected cursor
        ≡ ok (snapshot_id, offset)
      → list_products encoding query_hash catalog tenant_id merchants policy expected cursor limit
        ≡ ok (at_offset catalog offset)
  unfolding list_products
  list_from catalog offset cursor held start =
      let low : leb 1 limit ≡ true = ground arith in
      let high : leb limit 100 ≡ true = ground arith in
      rw (named, low, high, some_merchant, start, held) refl

  cursor_start :
      (catalog : Catalog) (secret : String) (offset : ℕ)
      → catalog.secret ≡ secret
      → start_of encoding catalog (query_hash (normalized merchants) policy) expected (
          some (
            encode_cursor encoding secret snapshot_id offset
              (query_hash (normalized merchants) policy)))
        ≡ ok (snapshot_id, offset)
  cursor_start catalog secret offset q =
      let read =
        decode_cursor-encode_cursor encoding secret snapshot_id
          (query_hash (normalized merchants) policy) back offset in
      rw (q, read, own_text (query_hash (normalized merchants) policy), not_other) refl

  -- The rest of the loop reads the rest of the products.
  load_rest :
      (fuel k : ℕ) (catalog : Catalog) (cursor observed : Option String)
      (found : List ProductSnapshot) (offset : ℕ)
      → get_key snapshot_id catalog.snapshots ≡ some tenants
      → start_of encoding catalog (query_hash (normalized merchants) policy) expected cursor
        ≡ ok (snapshot_id, offset)
      → is_changed observed snapshot_id ≡ false
      → offset ≤ length whole
      → length whole < offset + fuel
      → load_from encoding query_hash tenant_id merchants policy expected limit gaps fuel k catalog
          cursor observed found
        ≡ ok (snapshot_id, set_all (drop offset whole) found)
  unfolding load_from
  load_rest zero k catalog cursor observed found offset held start same inside enough =
      absurd (omega (arith, inside, enough))
  load_rest (suc fuel) k catalog cursor observed found offset held start same inside enough =
      let left = drop offset whole in
      let page = take limit left in
      let split : page ++ drop (length page) left ≡ left = take_then_drop limit left in
      let sizes = length-append page (drop (length page) left) in
      let total : length page + length (drop (length page) left) ≡ length left =
        sym sizes ∙ ap length split in
      let here : offset + length left ≡ length whole = length-drop offset whole inside in
      let set : set_all left found ≡ set_all (drop (length page) left) (set_all page found) =
        subst (λ xs. set_all xs found ≡ set_all (drop (length page) left) (set_all page found))
          split (set_all-append page (drop (length page) left) found) in
      elim (Bool-cases (ltb (offset + length page) (length whole))) [
        | inr last ↦
            let gone : drop (length page) left ≡ [] =
              empty_list (drop (length page) left) (ground arith) in
            rw (list_from catalog offset cursor held start, same, last)
              (ap (λ x. ok (snapshot_id, x))
                (sym (subst (λ xs. set_all left found ≡ set_all xs (set_all page found)) gone set)))
        | inl more ↦
            let some_left : 1 ≤ length page = take-pos limit left positive (ground arith) in
            let rest =
              load_rest fuel (suc k) (install_all catalog (gaps k))
                (some (
                  encode_cursor encoding catalog.secret snapshot_id (offset + length page)
                    (query_hash (normalized merchants) policy)))
                (some snapshot_id) (set_all page found) (offset + length page)
                (install_all-kept (gaps k) catalog snapshot_id tenants held)
                (cursor_start (install_all catalog (gaps k)) catalog.secret (offset + length page)
                  (install_all-secret (gaps k) catalog))
                (rw (own_text snapshot_id) refl) (ground arith)
                (omega (arith, enough, some_left)) in
            rw (list_from catalog offset cursor held start, same, more, rest)
              (ap (λ x. ok (snapshot_id, x))
                (ap (λ xs. set_all xs (set_all page found)) (drop-drop offset (length page) whole)
                  ∙ sym set))
      ]

with_text_some : (t : String) (xs : List String) → (length (with_text t xs) == 0) ≡ false
with_text_some t [] = refl
with_text_some t (x ∷ xs) = elim (Bool-cases (same_text t x)) [
  | inl hit ↦ rw hit (ground arith)
  | inr miss ↦ ground arith
]

normalized_some :
    (xs : List String) → (length xs == 0) ≡ false → (length (normalized xs) == 0) ≡ false
normalized_some [] h = absurd (ground arith)
normalized_some (x ∷ xs) h = with_text_some x (normalized xs)

abbrev pub requested_merchants : List ItemKey → List String
requested_merchants requested = normalized (map (λ (key : ItemKey). key.merchant_id) requested)

-- The paged loop of an enrollment that asks for at least one product, for a named tenant, ends with what
-- one read of the whole snapshot gives, whatever snapshots are installed between its pages, if its
-- rounds are more than the products and the library's functions read back what they wrote. The
-- snapshot is the expected one, or the current one at the start; it is there, and the expected
-- identity is not the empty text.
pub load_products_eq :
    (encoding : Encoding) (query_hash : List String → Policy → String) (tenant_id : String)
    (key : ItemKey) (keys : List ItemKey) (policy : Policy) (expected : Option String)
    (gaps : ℕ → List (String × Tenants)) (fuel : ℕ) (catalog : Catalog) (tenants : Tenants)
    → present tenant_id ≡ true
    → get_key (requested_or expected catalog.current) catalog.snapshots ≡ some tenants
    → is_other expected (requested_or expected catalog.current) ≡ false
    → ReadsBack encoding
        (requested_or expected catalog.current)
        (query_hash (normalized (requested_merchants (key ∷ keys))) policy)
    → length (allowed (normalized (requested_merchants (key ∷ keys))) tenants tenant_id) < fuel
    → load_products encoding query_hash tenant_id (key ∷ keys) policy expected gaps fuel catalog ≡ (
        at_keys
          (key ∷ keys)
          (set_all (allowed (normalized (requested_merchants (key ∷ keys))) tenants tenant_id) [])
        >>= λ products. ok (requested_or expected catalog.current, products))
unfolding load_products
load_products_eq encoding query_hash tenant_id key keys policy expected gaps fuel catalog tenants
      named held not_other back enough =
    let merchants = requested_merchants (key ∷ keys) in
    let some_merchant =
      normalized_some merchants
        (with_text_some key.merchant_id (normalized (map (λ (k : ItemKey). k.merchant_id) keys))) in
    rw
      (load_rest encoding query_hash tenant_id merchants policy expected 100 gaps
        (requested_or expected catalog.current) tenants named (omega arith) (omega arith)
        some_merchant not_other back fuel 0 catalog none none [] 0 held refl refl (omega arith)
        (omega (arith, enough)))
      refl

-- In a request with a tenant, a merchant and a limit from 1 to 100, a cursor that was made for another
-- query is refused as such, if the library's functions read back what they wrote.
pub foreign_cursor_refused :
    (encoding : Encoding) (query_hash : List String → Policy → String) (catalog : Catalog)
    (tenant_id : String) (merchants : List String) (policy : Policy) (requested : Option String)
    (snapshot_id other_hash : String) (offset limit : ℕ)
    → present tenant_id ≡ true
    → 1 ≤ limit
    → limit ≤ 100
    → (length merchants == 0) ≡ false
    → ReadsBack encoding snapshot_id other_hash
    → other_hash ≢ query_hash (normalized merchants) policy
    → list_products encoding query_hash catalog tenant_id merchants policy requested
        (some (encode_cursor encoding catalog.secret snapshot_id offset other_hash))
        limit
      ≡ err query_mismatch
unfolding list_products
foreign_cursor_refused encoding query_hash catalog tenant_id merchants policy requested snapshot_id
      other_hash offset limit named positive bounded some_merchant back differs =
    let low : leb 1 limit ≡ true = ground arith in
    let high : leb limit 100 ≡ true = ground arith in
    let read =
      decode_cursor-encode_cursor encoding catalog.secret snapshot_id other_hash back offset in
    let miss =
      is-no (String_discrete other_hash (query_hash (normalized merchants) policy)) differs in
    rw (named, low, high, normalized_some merchants some_merchant, read, miss) refl
