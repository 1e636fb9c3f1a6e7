-- ===== src/Eligibility/Tests.antt =====
-- Eligibility at concrete values: the theorem's witness, and runs.
use oria.Base.{◌≡◌, refl, ◌↔◌, true, false, [], ◌∷◌, String_discrete}
use oria.Eligibility.{
  MerchantRecord, EligibilityCriteria, evaluate, denylisted, not_allowlisted, inactive,
  public_merchant, eligible_merchants,
}
use oria.Eligibility.Admission.{Among, IsAdmitted, eligible_iff}

abbrev criteria : EligibilityCriteria
criteria = record {
  rule_set_id = "rules";
  rule_version = "1";
  categories = "food" ∷ "drink" ∷ [];
  cities = "city" ∷ [];
  enrollment_systems = "system" ∷ [];
  allowlist_merchant_ids = "good" ∷ "denied" ∷ [];
  denylist_merchant_ids = "denied" ∷ [];
  sales_org_scope = "org" ∷ [];
}

abbrev good : MerchantRecord
good = record {
  tenant_id = "tenant";
  merchant_id = "good";
  version = 1;
  display_name = "Good";
  categories = "toys" ∷ "drink" ∷ [];
  cities = "city" ∷ [];
  enrollment_systems = "system" ∷ [];
  sales_org_code = "org";
  active = true;
}

-- On both lists: the deny list comes first.
abbrev denied : MerchantRecord
denied = record good { merchant_id = "denied" }

denied_runs :
    evaluate denied criteria ≡ record { is_eligible = false; reason_codes = denylisted ∷ [] }
unfolding evaluate String_discrete
denied_runs = refl

two_reasons :
    evaluate (record good { merchant_id = "other"; active = false }) criteria
    ≡ record { is_eligible = false; reason_codes = inactive ∷ not_allowlisted ∷ [] }
unfolding evaluate String_discrete
two_reasons = refl

returned_runs : eligible_merchants (denied ∷ good ∷ []) criteria ≡ public_merchant good ∷ []
unfolding eligible_merchants evaluate String_discrete
returned_runs = refl

eligible_iff_example :
    Among (public_merchant good) (eligible_merchants (denied ∷ good ∷ []) criteria)
    ↔ IsAdmitted (denied ∷ good ∷ []) criteria (public_merchant good)
eligible_iff_example = eligible_iff (denied ∷ good ∷ []) criteria (public_merchant good)
