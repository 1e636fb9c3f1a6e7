-- ===== src/Eligibility/Admission.antt =====
-- When a merchant is eligible: the conditions in terms of the elements of the lists.
use oria.Base.{
  not-false, String, ◌≡◌, refl, sym, ap, subst, ◌∙◌, ◌↔◌, ◌⊎◌, inl, inr, Bool, true, false, not,
  ◌||◌, List, [], ◌∷◌, ◌++◌, is, is-yes, is-true, String_discrete, Bool-cases, arith,
}
use oria.Eligibility.{
  MerchantRecord, Merchant, EligibilityCriteria, EligibilityReason, contains, intersects, reason_if,
  decided, evaluate, public_merchant, eligible_merchants,
}

-- `x` is an element.
abbrev pub Among : {A : Type 0} → A → List A → Type 0
Among x [] = ⊥
Among x (y ∷ ys) = (y ≡ x) ⊎ Among x ys

-- The lists have an element in common.
abbrev pub Meet : List String → List String → Type 0
Meet a b = (x : String) × Among x a × Among x b

pub record Admissible (merchant : MerchantRecord) (criteria : EligibilityCriteria) : Type 0 where
  pub is_active : merchant.active ≡ true
  pub category : Meet merchant.categories criteria.categories
  pub city : Meet merchant.cities criteria.cities
  pub allowed : Among merchant.merchant_id criteria.allowlist_merchant_ids
  pub not_denied : ¬ Among merchant.merchant_id criteria.denylist_merchant_ids
  pub system : Meet merchant.enrollment_systems criteria.enrollment_systems
  pub organization : Among merchant.sales_org_code criteria.sales_org_scope

contains-Among : (x : String) (xs : List String) → contains xs x ≡ true → Among x xs
contains-Among x [] h = cc
contains-Among x (y ∷ ys) h = elim (Bool-cases (is (String_discrete y x))) [
  | inl hit ↦ inl (is-true (String_discrete y x) hit)
  | inr miss ↦ inr (contains-Among x ys (rw miss at h))
]

or_true : (b : Bool) → (b || true) ≡ true
or_true true = refl
or_true false = refl

Among-contains : (x : String) (xs : List String) → Among x xs → contains xs x ≡ true
Among-contains x [] h = absurd h
Among-contains x (y ∷ ys) (inl q) = rw (is-yes (String_discrete y x) q) refl
Among-contains x (y ∷ ys) (inr h) = rw (Among-contains x ys h) (or_true (is (String_discrete y x)))

intersects-Meet : (a b : List String) → intersects a b ≡ true → Meet a b
intersects-Meet [] b h = cc
intersects-Meet (x ∷ xs) b h = elim (Bool-cases (contains b x)) [
  | inl hit ↦ (x, inl refl, contains-Among x b hit)
  | inr miss ↦ let (y, there, both) = intersects-Meet xs b (rw miss at h) in (y, inr there, both)
]

Meet-intersects : (a b : List String) (x : String) → Among x a → Among x b → intersects a b ≡ true
Meet-intersects [] b x h k = absurd h
Meet-intersects (y ∷ ys) b x (inl q) k =
    rw (Among-contains y b (subst (λ z. Among z b) (sym q) k)) refl
Meet-intersects (y ∷ ys) b x (inr h) k = rw (Meet-intersects ys b x h k) (or_true (contains b y))

no_reason :
    (b : Bool) (reason : EligibilityReason) (others : List EligibilityReason)
    → (decided (reason_if b reason ++ others)).is_eligible ≡ true
    → (b ≡ false) × ((decided others).is_eligible ≡ true)
no_reason true reason others h = absurd (ground arith)
no_reason false reason others h = (refl, h)

last_reason :
    (b : Bool) (reason : EligibilityReason)
    → (decided (reason_if b reason)).is_eligible ≡ true
    → b ≡ false
last_reason true reason h = absurd (ground arith)
last_reason false reason h = refl

denied : (x : String) (xs : List String) → contains xs x ≡ false → ¬ Among x xs
denied x xs h k = let c = Among-contains x xs k in absurd (ground arith)

not_denied_contains : (x : String) (xs : List String) → ¬ Among x xs → contains xs x ≡ false
not_denied_contains x xs h = elim (Bool-cases (contains xs x)) [
  | inl c ↦ absurd (h (contains-Among x xs c))
  | inr c ↦ c
]

evaluate-Admissible :
    (m : MerchantRecord) (c : EligibilityCriteria)
    → (evaluate m c).is_eligible ≡ true
    → Admissible m c
unfolding evaluate
evaluate-Admissible m c h =
    let (a, h1) = no_reason (not m.active) _ _ h in
    let (b, h2) = no_reason (not (intersects m.categories c.categories)) _ _ h1 in
    let (d, h3) = no_reason (not (intersects m.cities c.cities)) _ _ h2 in
    let (e, h4) = no_reason (not (contains c.allowlist_merchant_ids m.merchant_id)) _ _ h3 in
    let (f, h5) = no_reason (contains c.denylist_merchant_ids m.merchant_id) _ _ h4 in
    let (g, h6) = no_reason (not (intersects m.enrollment_systems c.enrollment_systems)) _ _ h5 in
    let o = last_reason (not (contains c.sales_org_scope m.sales_org_code)) _ h6 in
    record {
      is_active = not-false m.active a;
      category = intersects-Meet m.categories c.categories (not-false _ b);
      city = intersects-Meet m.cities c.cities (not-false _ d);
      allowed = contains-Among m.merchant_id c.allowlist_merchant_ids (not-false _ e);
      not_denied = denied m.merchant_id c.denylist_merchant_ids f;
      system = intersects-Meet m.enrollment_systems c.enrollment_systems (not-false _ g);
      organization = contains-Among m.sales_org_code c.sales_org_scope (not-false _ o);
    }

Admissible-evaluate :
    (m : MerchantRecord) (c : EligibilityCriteria)
    → Admissible m c
    → (evaluate m c).is_eligible ≡ true
unfolding evaluate
Admissible-evaluate m c h =
    let (x, x1, x2) = h.category in
    let (y, y1, y2) = h.city in
    let (z, z1, z2) = h.system in
    rw
      (
        h.is_active,
        Meet-intersects m.categories c.categories x x1 x2,
        Meet-intersects m.cities c.cities y y1 y2,
        Among-contains m.merchant_id c.allowlist_merchant_ids h.allowed,
        not_denied_contains m.merchant_id c.denylist_merchant_ids h.not_denied,
        Meet-intersects m.enrollment_systems c.enrollment_systems z z1 z2,
        Among-contains m.sales_org_code c.sales_org_scope h.organization,
      )
      refl

-- A record of the list that meets every condition, and gives the merchant that is returned.
abbrev pub IsAdmitted : List MerchantRecord → EligibilityCriteria → Merchant → Type 0
IsAdmitted records c m =
    (r : MerchantRecord) × Among r records × Admissible r c × (m ≡ public_merchant r)

returned-IsAdmitted :
    (records : List MerchantRecord) (c : EligibilityCriteria) (m : Merchant)
    → Among m (eligible_merchants records c)
    → IsAdmitted records c m
unfolding eligible_merchants
returned-IsAdmitted [] c m h = absurd h
returned-IsAdmitted (r ∷ rs) c m h = elim (Bool-cases (evaluate r c).is_eligible) [
  | inl yes_r ↦ here (rw yes_r at h) (evaluate-Admissible r c yes_r) (returned-IsAdmitted rs c m)
  | inr no_r ↦
      let (x, x1, x2, x3) = returned-IsAdmitted rs c m (rw no_r at h) in (x, inr x1, x2, x3)
]
  where
    here :
        Among m (public_merchant r ∷ eligible_merchants rs c)
        → Admissible r c
        → (Among m (eligible_merchants rs c) → IsAdmitted rs c m)
        → IsAdmitted (r ∷ rs) c m
    here (inl q) a rest = (r, inl refl, a, sym q)
    here (inr k) a rest = let (x, x1, x2, x3) = rest k in (x, inr x1, x2, x3)

kept_later :
    (r : MerchantRecord) (rs : List MerchantRecord) (c : EligibilityCriteria) (m : Merchant)
    → Among m (eligible_merchants rs c)
    → Among m (eligible_merchants (r ∷ rs) c)
unfolding eligible_merchants
kept_later r rs c m h = elim (Bool-cases (evaluate r c).is_eligible) [
  | inl yes_r ↦ rw yes_r (inr h)
  | inr no_r ↦ rw no_r h
]

IsAdmitted-returned :
    (records : List MerchantRecord) (c : EligibilityCriteria) (m : Merchant) (r : MerchantRecord)
    → Among r records
    → Admissible r c
    → m ≡ public_merchant r
    → Among m (eligible_merchants records c)
unfolding eligible_merchants
IsAdmitted-returned [] c m r h a q = absurd h
IsAdmitted-returned (s ∷ rs) c m r (inl p) a q =
    rw (Admissible-evaluate s c (subst (λ x. Admissible x c) (sym p) a))
      (inl (ap public_merchant p ∙ sym q))
IsAdmitted-returned (s ∷ rs) c m r (inr h) a q =
    kept_later s rs c m (IsAdmitted-returned rs c m r h a q)

-- A merchant is returned exactly when a record of the list gives it that is active, shares a category,
-- a city and an enrollment system with the criteria, is on the allow list, is not on the deny list,
-- and belongs to a sales organization of the scope.
pub eligible_iff :
    (records : List MerchantRecord) (c : EligibilityCriteria) (m : Merchant)
    → Among m (eligible_merchants records c) ↔ IsAdmitted records c m
eligible_iff records c m = (
  returned-IsAdmitted records c m,
  λ h. let (r, x1, x2, x3) = h in IsAdmitted-returned records c m r x1 x2 x3,
)
