-- ===== src/Inbox/Visibility.antt =====
-- What a redacted value shows of a payload.
use oria.Base.{
  Json, null, boolean, number, text, array, object, Items, no_items, item, Fields, no_fields, field,
  String, ◌≡◌, refl, sym, subst, ap, ◌∙◌, inl, inr, true, List, [], ◌∷◌, All, any, Bool-cases,
  is-true, String_discrete, same_text, if◌then◌else◌, arith,
}
use oria.Inbox.Redaction.{
  is_sensitive, sensitive_fields, redacted, redact, redact_items, redact_fields,
}

-- The names whose values are hidden.
pub data Secret : String → Type 0 where
  authorization_name : Secret "authorization"
  body_name : Secret "body"
  cookie_name : Secret "cookie"
  credential_name : Secret "credential"
  merchant_name : Secret "merchant_id"
  password_name : Secret "password"
  raw_body_name : Secret "raw_body"
  secret_name : Secret "secret"
  token_name : Secret "token"

Secret-is_sensitive : (s : String) → Secret s → is_sensitive s ≡ true
unfolding is_sensitive String_discrete
Secret-is_sensitive s authorization_name = refl
Secret-is_sensitive s body_name = refl
Secret-is_sensitive s cookie_name = refl
Secret-is_sensitive s credential_name = refl
Secret-is_sensitive s merchant_name = refl
Secret-is_sensitive s password_name = refl
Secret-is_sensitive s raw_body_name = refl
Secret-is_sensitive s secret_name = refl
Secret-is_sensitive s token_name = refl

any-All :
    (P : String → Type 0) (s : String) (names : List String)
    → All P names
    → any (same_text s) names ≡ true
    → P s
any-All P s [] held h = cc
any-All P s (x ∷ names) held h = elim (Bool-cases (same_text s x)) [
  | inl hit ↦ subst P (sym (is-true (String_discrete s x) hit)) held.0
  | inr miss ↦ any-All P s names held.1 (rw miss at h)
]

is_sensitive-Secret : (s : String) → is_sensitive s ≡ true → Secret s
unfolding is_sensitive
is_sensitive-Secret s h =
    any-All Secret s sensitive_fields
      (
        authorization_name,
        (
          body_name,
          (
            cookie_name,
            (
              credential_name,
              (merchant_name, (password_name, (raw_body_name, (secret_name, (token_name, tt))))),
            ),
          ),
        ),
      )
      h

module _ (lower : String → String) where
  -- Two values are the same but for what stands under secret names.
  mutual
    pub data Alike : Json → Json → Type 0 where
      same : (value : Json) → Alike value value
      arrays : (xs ys : Items) → AlikeItems xs ys → Alike (array xs) (array ys)
      objects : (xs ys : Fields) → AlikeFields xs ys → Alike (object xs) (object ys)

    pub data AlikeItems : Items → Items → Type 0 where
      no_more : AlikeItems no_items no_items
      both :
          (v w : Json) (xs ys : Items)
          → Alike v w
          → AlikeItems xs ys
          → AlikeItems (item v xs) (item w ys)

    pub data AlikeFields : Fields → Fields → Type 0 where
      none_left : AlikeFields no_fields no_fields
      hidden :
          (k : String) (v w : Json) (xs ys : Fields)
          → Secret (lower k)
          → AlikeFields xs ys
          → AlikeFields (field k v xs) (field k w ys)
      shown :
          (k : String) (v w : Json) (xs ys : Fields)
          → Alike v w
          → AlikeFields xs ys
          → AlikeFields (field k v xs) (field k w ys)

  field_eq :
      {k : String} {v w : Json} {xs ys : Fields} → v ≡ w → xs ≡ ys → field k v xs ≡ field k w ys
  field_eq {k} {v} {w} {xs} {ys} p q = ap (λ x. field k x xs) p ∙ ap (field k w) q

  mutual
    unfolding redact

    same_redact : (v w : Json) → Alike v w → redact lower v ≡ redact lower w
    same_redact v w (same u) = refl
    same_redact v w (arrays xs ys h) = ap array (same_redact_items xs ys h)
    same_redact v w (objects xs ys h) = ap object (same_redact_fields xs ys h)

    same_redact_items :
        (xs ys : Items) → AlikeItems xs ys → redact_items lower xs ≡ redact_items lower ys
    same_redact_items xs ys no_more = refl
    same_redact_items xs ys (both v w us ws h k) =
        ap (λ x. item x (redact_items lower us)) (same_redact v w h)
        ∙ ap (item (redact lower w)) (same_redact_items us ws k)

    same_redact_fields :
        (xs ys : Fields) → AlikeFields xs ys → redact_fields lower xs ≡ redact_fields lower ys
    same_redact_fields xs ys none_left = refl
    same_redact_fields xs ys (hidden k v w us ws h r) =
        rw (Secret-is_sensitive (lower k) h) (field_eq refl (same_redact_fields us ws r))
    same_redact_fields xs ys (shown k v w us ws h r) =
        field_eq (ap (λ x. if is_sensitive (lower k) then redacted else x) (same_redact v w h))
          (same_redact_fields us ws r)

  -- Values that differ under secret names only are redacted to one value.
  pub redact-Alike : (v w : Json) → Alike v w → redact lower v ≡ redact lower w
  redact-Alike v w h = same_redact v w h

  -- No value stands under a secret name, at any depth of arrays and objects: only the mark does.
  mutual
    pub IsClean : Json → Type 0
    IsClean (array items) = AreClean items
    IsClean (object fields) = FieldsAreClean fields
    IsClean null = Unit
    IsClean (boolean b) = Unit
    IsClean (number n) = Unit
    IsClean (text s) = Unit

    pub AreClean : Items → Type 0
    AreClean no_items = Unit
    AreClean (item value items) = IsClean value × AreClean items

    pub FieldsAreClean : Fields → Type 0
    FieldsAreClean no_fields = Unit
    FieldsAreClean (field key value fields) =
        (Secret (lower key) → value ≡ text "[REDACTED]") × IsClean value × FieldsAreClean fields

  -- What stands under one name.
  shown-IsClean :
      (key : String) (value : Json)
      → IsClean (redact lower value)
      → (Secret (lower key)
          → (if is_sensitive (lower key) then redacted else redact lower value) ≡ text "[REDACTED]")
        × IsClean (if is_sensitive (lower key) then redacted else redact lower value)
  unfolding IsClean
  shown-IsClean key value clean = elim (Bool-cases (is_sensitive (lower key))) [
    | inl hit ↦ rw hit ((λ s. refl), tt)
    | inr miss ↦
        ((λ s. let k = Secret-is_sensitive (lower key) s in absurd (ground arith)), rw miss clean)
  ]

  shown-Alike :
      (key : String) (value : Json) (xs ys : Fields)
      → Alike value (redact lower value)
      → AlikeFields xs ys
      → AlikeFields
          (field key value xs)
          (field key (if is_sensitive (lower key) then redacted else redact lower value) ys)
  shown-Alike key value xs ys h k = elim (Bool-cases (is_sensitive (lower key))) [
    | inl hit ↦ hidden key value _ xs ys (is_sensitive-Secret (lower key) hit) k
    | inr miss ↦ rw miss (shown key value (redact lower value) xs ys h k)
  ]

  mutual
    unfolding redact IsClean

    clean : (v : Json) → IsClean (redact lower v)
    clean (array items) = items_clean items
    clean (object fields) = fields_clean fields
    clean null = tt
    clean (boolean b) = tt
    clean (number n) = tt
    clean (text s) = tt

    items_clean : (items : Items) → AreClean (redact_items lower items)
    items_clean no_items = tt
    items_clean (item v items) = (clean v, items_clean items)

    fields_clean : (fields : Fields) → FieldsAreClean (redact_fields lower fields)
    fields_clean no_fields = tt
    fields_clean (field k v fields) =
        let (marked, inner) = shown-IsClean k v (clean v) in (marked, inner, fields_clean fields)

  mutual
    unfolding redact

    alike : (v : Json) → Alike v (redact lower v)
    alike (array items) = arrays items (redact_items lower items) (items_alike items)
    alike (object fields) = objects fields (redact_fields lower fields) (fields_alike fields)
    alike null = same null
    alike (boolean b) = same (boolean b)
    alike (number n) = same (number n)
    alike (text s) = same (text s)

    items_alike : (items : Items) → AlikeItems items (redact_items lower items)
    items_alike no_items = no_more
    items_alike (item v items) =
        both v (redact lower v) items (redact_items lower items) (alike v) (items_alike items)

    fields_alike : (fields : Fields) → AlikeFields fields (redact_fields lower fields)
    fields_alike no_fields = none_left
    fields_alike (field k v fields) =
        shown-Alike k v fields (redact_fields lower fields) (alike v) (fields_alike fields)

  -- A redacted value has, at any depth of arrays and objects, only the mark under a secret name, and is
  -- the value that it was made of but for what stands under secret names.
  pub redact-IsClean : (v : Json) → IsClean (redact lower v) × Alike v (redact lower v)
  redact-IsClean v = (clean v, alike v)
