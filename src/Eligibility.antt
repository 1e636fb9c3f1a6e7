-- ===== src/Eligibility.antt =====
-- src/oria/domain/eligibility.py: the hard conditions on a merchant, and the values that they read
-- (src/oria/domain/models.py). A set of texts is a list; the seeds' validation is not modelled.
pub mod Admission
mod Tests
use oria.Base.{
  ℕ, String, Bool, true, false, not, List, [], ◌∷◌, ◌++◌, any, is, String_discrete, if◌then◌else◌,
}

pub record MerchantRecord : Type 0 where
  pub tenant_id : String
  pub merchant_id : String
  pub version : ℕ
  pub display_name : String
  pub categories : List String
  pub cities : List String
  pub enrollment_systems : List String
  pub sales_org_code : String
  pub active : Bool

pub record Merchant : Type 0 where
  pub tenant_id : String
  pub merchant_id : String
  pub version : ℕ
  pub display_name : String
  pub categories : List String
  pub cities : List String
  pub enrollment_systems : List String

pub record EligibilityCriteria : Type 0 where
  pub rule_set_id : String
  pub rule_version : String
  pub categories : List String
  pub cities : List String
  pub enrollment_systems : List String
  pub allowlist_merchant_ids : List String
  pub denylist_merchant_ids : List String
  pub sales_org_scope : List String

pub data EligibilityReason : Type 0 where
  eligible inactive category_mismatch city_mismatch not_allowlisted denylisted : EligibilityReason
  enrollment_system_mismatch sales_org_mismatch : EligibilityReason

pub record EligibilityDecision : Type 0 where
  pub is_eligible : Bool
  pub reason_codes : List EligibilityReason

-- `text in texts`
abbrev pub contains : List String → String → Bool
contains texts text = any (λ (x : String). is (String_discrete x text)) texts

-- `set(a).intersection(b)`, as a truth value
abbrev pub intersects : List String → List String → Bool
intersects a b = any (contains b) a

-- `if test: reasons.append(reason)`
abbrev pub reason_if : Bool → EligibilityReason → List EligibilityReason
reason_if test reason = if test then reason ∷ [] else []

abbrev pub reasons : MerchantRecord → EligibilityCriteria → List EligibilityReason
reasons merchant criteria =
    reason_if (not merchant.active) inactive
    ++ (reason_if (not (intersects merchant.categories criteria.categories)) category_mismatch
        ++ (reason_if (not (intersects merchant.cities criteria.cities)) city_mismatch
            ++ (reason_if (not (contains criteria.allowlist_merchant_ids merchant.merchant_id))
                  not_allowlisted
                ++ (reason_if (contains criteria.denylist_merchant_ids merchant.merchant_id)
                      denylisted
                    ++ (reason_if
                          (not (intersects merchant.enrollment_systems criteria.enrollment_systems))
                          enrollment_system_mismatch
                        ++ reason_if
                            (not (contains criteria.sales_org_scope merchant.sales_org_code))
                            sales_org_mismatch)))))

-- The decision on the reasons that were found.
abbrev pub decided : List EligibilityReason → EligibilityDecision
decided [] = record { is_eligible = true; reason_codes = eligible ∷ [] }
decided (reason ∷ others) = record { is_eligible = false; reason_codes = reason ∷ others }

unfoldable pub evaluate : MerchantRecord → EligibilityCriteria → EligibilityDecision
evaluate merchant criteria = decided (reasons merchant criteria)

-- The fields of a record that are returned.
abbrev pub public_merchant : MerchantRecord → Merchant
public_merchant merchant = record {
  tenant_id = merchant.tenant_id;
  merchant_id = merchant.merchant_id;
  version = merchant.version;
  display_name = merchant.display_name;
  categories = merchant.categories;
  cities = merchant.cities;
  enrollment_systems = merchant.enrollment_systems;
}

unfoldable pub eligible_merchants : List MerchantRecord → EligibilityCriteria → List Merchant
eligible_merchants [] criteria = []
eligible_merchants (merchant ∷ merchants) criteria =
    let rest = eligible_merchants merchants criteria in
    if (evaluate merchant criteria).is_eligible then public_merchant merchant ∷ rest else rest
