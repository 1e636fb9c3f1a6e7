-- ===== src/Products/Admission.antt =====
-- Which products of a page are eligible, and what the counts of the reasons say.
use oria.Base.{
  ℕ, ◌+◌, ◌<◌, ◌≡◌, refl, sym, ap, ◌∙◌, inl, inr, Bool, true, false, not, ◌&&◌, ◌||◌, List, [], ◌∷◌,
  ◌++◌, any, select, length, All, ltb, ◌==◌, lookup, Bool-cases, arith, if◌then◌else◌,
}
use oria.Products.{
  ProductSnapshot, ProductEligibilityCriteria, ProductReason, eligible, price_below_minimum,
  price_above_maximum, category_mismatch, keyword_mismatch, product_unavailable, among, reason_if,
  is_text, is_set, reasons, decided, evaluate, rank, counted, count_all, evaluate_from,
  evaluate_page,
}

-- The product fails the condition that a reason names.
abbrev pub fails : ProductEligibilityCriteria → ProductReason → ProductSnapshot → Bool
fails criteria eligible p = false
fails criteria price_below_minimum p = ltb p.normalized_price criteria.price_min
fails criteria price_above_maximum p = ltb criteria.price_max p.normalized_price
fails criteria category_mismatch p = not (among criteria.categories p.category)
fails criteria keyword_mismatch p = not (any (among criteria.keywords) p.keyword_labels)
fails criteria product_unavailable p = not (
    is_text "available" (lookup "status" p.eligibility_facts)
    && is_set (lookup "available" p.eligibility_facts))

-- The product meets all conditions.
abbrev pub admitted : ProductEligibilityCriteria → ProductSnapshot → Bool
admitted criteria p =
    not (fails criteria price_below_minimum p)
    && (not (fails criteria price_above_maximum p)
        && (not (fails criteria category_mismatch p)
            && (not (fails criteria keyword_mismatch p)
                && not (fails criteria product_unavailable p))))

-- The count of a reason.
abbrev pub count_of : ProductReason → List (ProductReason × ℕ) → ℕ
count_of r [] = 0
count_of r ((s, n) ∷ counts) = (if rank r == rank s then n else 0) + count_of r counts

-- Each reason has one count at most, and they are in the order of their texts.
abbrev pub Ascending : List (ProductReason × ℕ) → Type 0
Ascending [] = Unit
Ascending ((r, n) ∷ counts) =
    All (λ (e : ProductReason × ℕ). rank r < rank e.0) counts × Ascending counts

abbrev one_if : Bool → ℕ
one_if b = if b then 1 else 0

abbrev occurrences : ProductReason → List ProductReason → ℕ
occurrences r [] = 0
occurrences r (s ∷ codes) = one_if (rank r == rank s) + occurrences r codes

count_of-counted :
    (r s : ProductReason) (counts : List (ProductReason × ℕ))
    → count_of r (counted s counts) ≡ one_if (rank r == rank s) + count_of r counts
count_of-counted r s [] = refl
count_of-counted r s ((t, n) ∷ counts) = let rest = count_of-counted r s counts in ground arith

count_of-count_all :
    (r : ProductReason) (codes : List ProductReason) (counts : List (ProductReason × ℕ))
    → count_of r (count_all codes counts) ≡ count_of r counts + occurrences r codes
count_of-count_all r [] counts = omega arith
count_of-count_all r (s ∷ codes) counts =
    omega (arith, count_of-count_all r codes (counted s counts), count_of-counted r s counts)

below_counted :
    (n : ℕ) (s : ProductReason) (counts : List (ProductReason × ℕ))
    → n < rank s
    → All (λ (e : ProductReason × ℕ). n < rank e.0) counts
    → All (λ (e : ProductReason × ℕ). n < rank e.0) (counted s counts)
below_counted n s [] h k = (h, tt)
below_counted n s ((t, m) ∷ counts) h (k, ks) = elim (Bool-cases (rank s == rank t)) [
  | inl same ↦ rw same (k, ks)
  | inr other ↦ elim (Bool-cases (ltb (rank s) (rank t))) [
    | inl less ↦ rw (other, less) (h, (k, ks))
    | inr more ↦ rw (other, more) (k, below_counted n s counts h ks)
  ]
]

below_trans :
    (m n : ℕ) (counts : List (ProductReason × ℕ))
    → m < n
    → All (λ (e : ProductReason × ℕ). n < rank e.0) counts
    → All (λ (e : ProductReason × ℕ). m < rank e.0) counts
below_trans m n [] h k = tt
below_trans m n (e ∷ counts) h (k, ks) = (omega (arith, h, k), below_trans m n counts h ks)

counted-Ascending :
    (s : ProductReason) (counts : List (ProductReason × ℕ))
    → Ascending counts
    → Ascending (counted s counts)
counted-Ascending s [] h = (tt, tt)
counted-Ascending s ((t, n) ∷ counts) (h, hs) = elim (Bool-cases (rank s == rank t)) [
  | inl same ↦ rw same (h, hs)
  | inr other ↦ elim (Bool-cases (ltb (rank s) (rank t))) [
    | inl less ↦
        let k : rank s < rank t = ground arith in
        rw (other, less) ((k, below_trans (rank s) (rank t) counts k h), (h, hs))
    | inr more ↦
        let k : rank t < rank s = ground arith in
        rw (other, more) (below_counted (rank t) s counts k h, counted-Ascending s counts hs)
  ]
]

count_all-Ascending :
    (codes : List ProductReason) (counts : List (ProductReason × ℕ))
    → Ascending counts
    → Ascending (count_all codes counts)
count_all-Ascending [] counts h = h
count_all-Ascending (s ∷ codes) counts h =
    count_all-Ascending codes (counted s counts) (counted-Ascending s counts h)

occurrences-append :
    (r : ProductReason) (xs ys : List ProductReason)
    → occurrences r (xs ++ ys) ≡ occurrences r xs + occurrences r ys
occurrences-append r [] ys = omega arith
occurrences-append r (x ∷ xs) ys = omega (arith, occurrences-append r xs ys)

occurrences-reason_if :
    (r s : ProductReason) (b : Bool)
    → occurrences r (reason_if b s) ≡ (if b then one_if (rank r == rank s) else 0)
occurrences-reason_if r s true = omega arith
occurrences-reason_if r s false = refl

admitted_reason :
    (b : Bool) (r : ProductReason) (codes : List ProductReason)
    → (decided (reason_if b r ++ codes)).is_eligible ≡ (not b && (decided codes).is_eligible)
admitted_reason true r codes = refl
admitted_reason false r codes = refl

negated : (a b : Bool) → (not a || not b) ≡ not (a && b)
negated true b = refl
negated false b = refl

last_reason : (b : Bool) (r : ProductReason) → (decided (reason_if b r)).is_eligible ≡ not b
last_reason true r = refl
last_reason false r = refl

evaluate-admitted :
    (criteria : ProductEligibilityCriteria) (p : ProductSnapshot)
    → (decided (reasons p criteria)).is_eligible ≡ admitted criteria p
evaluate-admitted criteria p = simp (admitted_reason, last_reason, negated) refl

-- Of five tests, the one that a reason stands for.
abbrev picked : ProductReason → Bool → Bool → Bool → Bool → Bool → Bool
picked eligible a b c d e = false
picked price_below_minimum a b c d e = a
picked price_above_maximum a b c d e = b
picked category_mismatch a b c d e = c
picked keyword_mismatch a b c d e = d
picked product_unavailable a b c d e = e

one_occurrence :
    (r : ProductReason) (a b c d e : Bool)
    → (if a then one_if (rank r == 4) else 0)
        + ((if b then one_if (rank r == 3) else 0)
            + ((if c then one_if (rank r == 0) else 0)
                + ((if d then one_if (rank r == 2) else 0)
                    + (if e then one_if (rank r == 5) else 0))))
      ≡ one_if (picked r a b c d e)
one_occurrence r a b c d e = ground arith

fails-picked :
    (criteria : ProductEligibilityCriteria) (r : ProductReason) (p : ProductSnapshot)
    → fails criteria r p
      ≡ picked r
          (fails criteria price_below_minimum p)
          (fails criteria price_above_maximum p)
          (fails criteria category_mismatch p)
          (fails criteria keyword_mismatch p)
          (fails criteria product_unavailable p)
fails-picked criteria eligible p = refl
fails-picked criteria price_below_minimum p = refl
fails-picked criteria price_above_maximum p = refl
fails-picked criteria category_mismatch p = refl
fails-picked criteria keyword_mismatch p = refl
fails-picked criteria product_unavailable p = refl

occurrences-fails :
    (criteria : ProductEligibilityCriteria) (r : ProductReason) (p : ProductSnapshot)
    → occurrences r (reasons p criteria) ≡ one_if (fails criteria r p)
occurrences-fails criteria r p =
    simp (occurrences-append, occurrences-reason_if, negated)
      (one_occurrence r (fails criteria price_below_minimum p)
          (fails criteria price_above_maximum p) (fails criteria category_mismatch p)
          (fails criteria keyword_mismatch p) (fails criteria product_unavailable p)
        ∙ sym (ap one_if (fails-picked criteria r p)))

-- The codes of a decision that refuses are the reasons that were found.
refused_codes :
    (codes : List ProductReason)
    → (decided codes).is_eligible ≡ false
    → (decided codes).reason_codes ≡ codes
refused_codes [] h = absurd (ground arith)
refused_codes (r ∷ codes) h = refl

-- What is eligible fails no condition.
no_codes : (codes : List ProductReason) → (decided codes).is_eligible ≡ true → codes ≡ []
no_codes [] h = refl
no_codes (r ∷ codes) h = absurd (ground arith)

append-snoc :
    {A : Type 0} (xs : List A) (y : A) (ys : List A) → (xs ++ (y ∷ [])) ++ ys ≡ xs ++ (y ∷ ys)
append-snoc [] y ys = refl
append-snoc (x ∷ xs) y ys = ap (λ zs. x ∷ zs) (append-snoc xs y ys)

append-nil : {A : Type 0} (xs : List A) → xs ++ [] ≡ xs
append-nil [] = refl
append-nil (x ∷ xs) = ap (λ zs. x ∷ zs) (append-nil xs)

-- What the loop of a page has done.
record Evaluated (criteria : ProductEligibilityCriteria) (products found : List ProductSnapshot)
    (counts : List (ProductReason × ℕ)) (out : List ProductSnapshot × List (ProductReason × ℕ))
    : Type 0 where
  kept : out.0 ≡ found ++ select (admitted criteria) products
  tallied :
      (r : ProductReason)
      → count_of r out.1 ≡ count_of r counts + length (select (fails criteria r) products)
  ascending : Ascending counts → Ascending out.1

evaluate_from-Evaluated :
    (products : List ProductSnapshot) (criteria : ProductEligibilityCriteria)
    (found : List ProductSnapshot) (counts : List (ProductReason × ℕ))
    → Evaluated criteria products found counts (evaluate_from products criteria found counts)
unfolding evaluate_from evaluate
evaluate_from-Evaluated [] criteria found counts = record {
  kept = sym (append-nil found);
  tallied = λ r. omega arith;
  ascending = λ h. h;
}
evaluate_from-Evaluated (p ∷ products) criteria found counts =
    let codes = reasons p criteria in
    let meets = evaluate-admitted criteria p in
    elim (Bool-cases (decided codes).is_eligible) [
      | inl yes_ ↦
          let rest = evaluate_from-Evaluated products criteria (found ++ (p ∷ [])) counts in
          let fit : admitted criteria p ≡ true = sym meets ∙ yes_ in
          rw yes_ (record {
            kept = rw fit (rest.kept ∙ append-snoc found p (select (admitted criteria) products));
            tallied = λ r.
                let none_failed : one_if (fails criteria r p) ≡ 0 =
                  sym (occurrences-fails criteria r p) ∙ ap (occurrences r) (no_codes codes yes_) in
                let t = rest.tallied r in ground arith;
            ascending = rest.ascending;
          })
      | inr no_ ↦
          let given = refused_codes codes no_ in
          let rest = evaluate_from-Evaluated products criteria found (count_all codes counts) in
          let fit : admitted criteria p ≡ false = sym meets ∙ no_ in
          rw (no_, given)
            (record {
              kept = rw fit rest.kept;
              tallied = λ r.
                  let failed = occurrences-fails criteria r p in
                  let added = count_of-count_all r codes counts in
                  let t = rest.tallied r in ground arith;
              ascending = λ h. rest.ascending (count_all-Ascending codes counts h);
            })
    ]

-- The page keeps exactly the products that meet all conditions, in their order; the count of a reason is
-- the number of products that fail its condition; and no reason is counted twice in the report, which
-- is in the order of the reasons.
pub evaluate_page_lem :
    (products : List ProductSnapshot) (criteria : ProductEligibilityCriteria)
    → let page = evaluate_page products criteria in
      (page.0 ≡ select (admitted criteria) products)
      × ((r : ProductReason) → count_of r page.1 ≡ length (select (fails criteria r) products))
      × Ascending page.1
unfolding evaluate_page
evaluate_page_lem products criteria =
    let e = evaluate_from-Evaluated products criteria [] [] in
    (e.kept, λ r. omega (arith, e.tallied r), e.ascending tt)
