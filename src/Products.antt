-- ===== src/Products.antt =====
-- src/oria/domain/product_eligibility.py: products of a catalog and the frozen conditions on them. Prices
-- are exact decimals that are not negative: they are counted in a unit that divides them all.
pub mod Cursor
pub mod Catalog
pub mod Loading
pub mod Paging
pub mod Admission
mod Tests
use oria.Base.{
  ℕ, suc, String, Bool, true, false, not, ◌&&◌, ◌||◌, Option, none, some, List, [], ◌∷◌, ◌++◌, any,
  ltb, ◌==◌, same_text, Json, boolean, text, Fields, lookup, if◌then◌else◌,
}

pub record ProductSnapshot : Type 0 where
  pub product_ref : String
  pub product_version : String
  pub merchant_id : String
  pub source_ref : String
  pub captured_at : ℕ
  pub category : String
  pub normalized_price : ℕ
  pub currency : String
  pub normalized_title : String
  pub keyword_labels : List String
  pub eligibility_facts : Fields

pub record ProductEligibilityCriteria : Type 0 where
  pub rule_snapshot_id : String
  pub rule_snapshot_hash : String
  pub policy_ref : String
  pub policy_version : String
  pub price_min : ℕ
  pub price_max : ℕ
  pub categories : List String
  pub keywords : List String

pub data ProductReason : Type 0 where
  eligible price_below_minimum price_above_maximum category_mismatch : ProductReason
  keyword_mismatch product_unavailable : ProductReason

pub record ProductDecision : Type 0 where
  pub is_eligible : Bool
  pub reason_codes : List ProductReason

-- `text in texts`
abbrev pub among : List String → String → Bool
among texts t = any (λ (x : String). same_text x t) texts

abbrev pub reason_if : Bool → ProductReason → List ProductReason
reason_if test reason = if test then reason ∷ [] else []

-- `facts.get("status") == "available"`
abbrev pub is_text : String → Option Json → Bool
is_text s (some (text t)) = same_text t s
is_text s _ = false

-- `facts.get("available") is True`
abbrev pub is_set : Option Json → Bool
is_set (some (boolean b)) = b
is_set _ = false

abbrev pub reasons : ProductSnapshot → ProductEligibilityCriteria → List ProductReason
reasons product criteria =
    reason_if (ltb product.normalized_price criteria.price_min) price_below_minimum
    ++ (reason_if (ltb criteria.price_max product.normalized_price) price_above_maximum
        ++ (reason_if (not (among criteria.categories product.category)) category_mismatch
            ++ (reason_if (not (any (among criteria.keywords) product.keyword_labels))
                  keyword_mismatch
                ++ reason_if
                    (not (is_text "available" (lookup "status" product.eligibility_facts))
                      || not (is_set (lookup "available" product.eligibility_facts)))
                    product_unavailable)))

abbrev pub decided : List ProductReason → ProductDecision
decided [] = record { is_eligible = true; reason_codes = eligible ∷ [] }
decided (reason ∷ others) = record { is_eligible = false; reason_codes = reason ∷ others }

unfoldable pub evaluate : ProductSnapshot → ProductEligibilityCriteria → ProductDecision
evaluate product criteria = decided (reasons product criteria)

-- The place of a reason in the order of the texts.
abbrev pub rank : ProductReason → ℕ
rank category_mismatch = 0
rank eligible = 1
rank keyword_mismatch = 2
rank price_above_maximum = 3
rank price_below_minimum = 4
rank product_unavailable = 5

-- `reasons[code] += 1`, in a counter whose keys are kept sorted.
abbrev pub counted : ProductReason → List (ProductReason × ℕ) → List (ProductReason × ℕ)
counted reason [] = (reason, 1) ∷ []
counted reason ((r, n) ∷ counts) =
    let rest = counted reason counts in
    if rank reason == rank r
    then (r, suc n) ∷ counts
    else (if ltb (rank reason) (rank r) then (reason, 1) ∷ (r, n) ∷ counts else (r, n) ∷ rest)

-- `reasons.update(codes)`
abbrev pub count_all : List ProductReason → List (ProductReason × ℕ) → List (ProductReason × ℕ)
count_all [] counts = counts
count_all (reason ∷ codes) counts = count_all codes (counted reason counts)

-- The loop of `evaluate_page`, with the products and the counts so far.
unfoldable pub evaluate_from :
    List ProductSnapshot
    → ProductEligibilityCriteria
    → List ProductSnapshot
    → List (ProductReason × ℕ)
    → List ProductSnapshot × List (ProductReason × ℕ)
evaluate_from [] criteria found counts = (found, counts)
evaluate_from (product ∷ products) criteria found counts =
    let decision = evaluate product criteria in
    let kept = evaluate_from products criteria (found ++ (product ∷ [])) counts in
    let dropped = evaluate_from products criteria found (count_all decision.reason_codes counts) in
    if decision.is_eligible then kept else dropped

unfoldable pub evaluate_page :
    List ProductSnapshot
    → ProductEligibilityCriteria
    → List ProductSnapshot × List (ProductReason × ℕ)
evaluate_page products criteria = evaluate_from products criteria [] []
