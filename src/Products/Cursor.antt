-- ===== src/Products/Cursor.antt =====
-- src/oria/adapters/products.py: cursors of the product catalog. What a cursor says is signed and encoded
-- by library functions, which are parameters.
use oria.Base.{
  ℕ, String, ◌≡◌, refl, true, false, not, ◌||◌, Option, some, Result, ok, err, ◌>>=◌, ◌>>◌,
  raise_if, or_raise, ◌==◌, same_text, split_dot, split_dot_append, has_dot, ◌+++◌, length_text,
  present, String_discrete, is-yes,
}

-- An integer: `int(decoded["offset"])` may be negative.
pub data ℤ : Type 0 where
  pos negsuc : ℕ → ℤ

-- The library's functions: JSON of a position (snapshot, offset, query), base64 without its padding, and
-- the digest of the secret and the payload.
pub record Encoding : Type 0 where
  pub to_json : String → ℕ → String → String
  pub of_json : String → Option (String × ℤ × String)
  pub encode64 : String → String
  pub decode64 : String → Option String
  pub digest : String → String → String

pub record Policy : Type 0 where
  pub policy_ref : String
  pub policy_version : String

pub data CatalogError : Type 0 where
  identity_required identity_used duplicate_keys no_tenant limit_out_of_range : CatalogError
  no_merchants cursor_invalid query_mismatch snapshot_mismatch snapshot_unavailable : CatalogError
  pagination_changed product_unavailable out_of_fuel : CatalogError

module _ (encoding : Encoding) where
  -- `_encode_cursor`
  unfoldable pub encode_cursor : String → String → ℕ → String → String
  encode_cursor secret snapshot_id offset query_hash =
      let payload = encoding.to_json snapshot_id offset query_hash in
      "pc1" +++ ("." +++ (encoding.encode64 payload +++ ("." +++ encoding.digest secret payload)))

  abbrev pub natural : ℤ → Result CatalogError ℕ
  natural (pos n) = ok n
  natural (negsuc n) = err cursor_invalid

  -- `_decode_cursor`
  unfoldable pub decode_cursor : String → String → Result CatalogError (String × ℕ × String)
  decode_cursor secret cursor = do
    (prefix, rest) ← or_raise (split_dot cursor) cursor_invalid
    (encoded, signature) ← or_raise (split_dot rest) cursor_invalid
    raise_if (not (same_text prefix "pc1")) cursor_invalid
    payload ← or_raise (encoding.decode64 encoded) cursor_invalid
    raise_if (not (same_text (encoding.digest secret payload) signature)) cursor_invalid
    (snapshot_id, position, query_hash) ← or_raise (encoding.of_json payload) cursor_invalid
    offset ← natural position
    raise_if (not (present snapshot_id) || not (length_text query_hash == 64)) cursor_invalid
    ok (snapshot_id, offset, query_hash)

-- The library's functions read back what they wrote, at the positions of one query in one snapshot.
pub record ReadsBack (encoding : Encoding) (snapshot_id query_hash : String) : Type 0 where
  pub json_back :
      (n : ℕ)
      → encoding.of_json (encoding.to_json snapshot_id n query_hash)
        ≡ some (snapshot_id, pos n, query_hash)
  pub base64_back :
      (n : ℕ)
      → let payload = encoding.to_json snapshot_id n query_hash in
        encoding.decode64 (encoding.encode64 payload) ≡ some payload
  pub dotless :
      (n : ℕ) → has_dot (encoding.encode64 (encoding.to_json snapshot_id n query_hash)) ≡ false
  pub identified : present snapshot_id ≡ true
  pub query_length : length_text query_hash ≡ 64

-- A cursor is decoded to the snapshot, the offset and the query that it was made of, under the secret
-- that signed it, if the library's functions read back what they wrote.
pub decode_cursor-encode_cursor :
    (encoding : Encoding) (secret snapshot_id query_hash : String)
    → ReadsBack encoding snapshot_id query_hash
    → (offset : ℕ)
    → decode_cursor encoding secret (encode_cursor encoding secret snapshot_id offset query_hash)
      ≡ ok (snapshot_id, offset, query_hash)
unfolding decode_cursor encode_cursor String_discrete
decode_cursor-encode_cursor encoding secret snapshot_id query_hash back offset =
    let payload = encoding.to_json snapshot_id offset query_hash in
    let signature = encoding.digest secret payload in
    let first = split_dot_append "pc1" (encoding.encode64 payload +++ ("." +++ signature)) refl in
    let second = split_dot_append (encoding.encode64 payload) signature (back.dotless offset) in
    let signed = is-yes (String_discrete signature signature) refl in
    rw
      (
        first,
        second,
        back.base64_back offset,
        signed,
        back.json_back offset,
        back.identified,
        back.query_length,
      )
      refl
