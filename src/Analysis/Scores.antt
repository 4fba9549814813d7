-- ===== src/Analysis/Scores.antt =====
-- The derived values of the fan-in: the total of the quality score and the evidence of the record.
use mtbank_ai_call_analytics.Prelude.{
  ℕ, ◌+◌, ◌≤◌, ◌≡◌, refl, String, Bool, true, false, ◌&&◌, ◌||◌, List, [], ◌∷◌, ◌++◌, map, ◌==◌,
  nat_eq, string_eq, contains, subset, is_unique, contains-append, all, ok, arith, Bool-cases,
  eq_iff, eqb_iff, subset_refl, >>=-eq-ok, inl, inr,
}
use mtbank_ai_call_analytics.Analysis.Policies.{
  QualityCriterion, QualityPolicy, PolicyRegistry, validate_rubric, total_weight, quality_criteria,
  whole, same_texts,
}
use mtbank_ai_call_analytics.Analysis.Models.{
  QualityAssessment, QualityCriterionAssessment, quality_evidence,
}
use mtbank_ai_call_analytics.Analysis.Aggregate.{
  assessment_of, passed_weight, to_hundredths, quality_total, add_unseen, unique_quality_evidence,
}

-- A criterion of the rubric: the assessment of one of the four is found.
assessed :
    (q : QualityAssessment) (identifier : String)
    → contains quality_criteria identifier ≡ true
    → (item : QualityCriterionAssessment) × (assessment_of q identifier ≡ ok item)
unfolding assessment_of contains
assessed q identifier h = elim (Bool-cases (identifier == "greeting")) [
  | inl a ↦ rw a (q.greeting, refl)
  | inr a ↦ elim (Bool-cases (identifier == "need_detection")) [
    | inl b ↦ rw (a, b) (q.need_detection, refl)
    | inr b ↦ elim (Bool-cases (identifier == "solution_provided")) [
      | inl c ↦ rw (a, b, c) (q.solution_provided, refl)
      | inr c ↦
          let last : (identifier == "farewell") ≡ true = ground (
            arith,
            eq_iff identifier "greeting",
            eq_iff "greeting" identifier,
            eq_iff identifier "need_detection",
            eq_iff "need_detection" identifier,
            eq_iff identifier "solution_provided",
            eq_iff "solution_provided" identifier,
            eq_iff identifier "farewell",
            eq_iff "farewell" identifier,
          ) in
          rw (a, b, c, last) (q.farewell, refl)
    ]
  ]
]

-- The weight that passed is at most the whole weight.
passed_weight-le :
    (q : QualityAssessment) (cs : List QualityCriterion)
    → all (λ c. contains quality_criteria c.id) cs ≡ true
    → (w : ℕ) × (passed_weight q cs ≡ ok w) × (w ≤ total_weight cs)
unfolding passed_weight
passed_weight-le q [] h = (0, refl, omega arith)
passed_weight-le q (c ∷ cs) h =
    let (item, found) = assessed q c.id (ground arith) in
    let (w, rest, bound) = passed_weight-le q cs (ground arith) in
    elim (Bool-cases item.passed) [
      | inl e ↦ rw (found, rest, e) (c.weight + w, refl, omega arith)
      | inr e ↦ rw (found, rest, e) (w, refl, omega arith)
    ]

-- Where every criterion passed, it is the whole weight.
abbrev pub all_passed : QualityAssessment → Bool
all_passed q =
    q.greeting.passed && q.need_detection.passed && q.solution_provided.passed && q.farewell.passed

passed_item :
    (q : QualityAssessment) (identifier : String) (item : QualityCriterionAssessment)
    → all_passed q ≡ true
    → assessment_of q identifier ≡ ok item
    → item.passed ≡ true
unfolding assessment_of
passed_item q identifier item h e = ground arith

passed_weight-all :
    (q : QualityAssessment) (cs : List QualityCriterion) (w : ℕ)
    → all_passed q ≡ true
    → passed_weight q cs ≡ ok w
    → w ≡ total_weight cs
unfolding passed_weight
passed_weight-all q [] w h e = ground arith
passed_weight-all q (c ∷ cs) w h e =
    let (item, found, later) = >>=-eq-ok (assessment_of q c.id) _ e in
    let (rest, summed, last) = >>=-eq-ok (passed_weight q cs) _ later in
    let p = passed_item q c.id item h found in
    let r = passed_weight-all q cs rest h summed in ground arith

-- The criteria of a rubric are among the four.
listed :
    (cs : List QualityCriterion) (names all_names : List String)
    → same_texts (map (λ c. c.id) cs) names ≡ true
    → subset names all_names ≡ true
    → all (λ c. contains all_names c.id) cs ≡ true
unfolding subset
listed [] [] all_names e s = refl
listed [] (n ∷ ns) all_names e s = refl
listed (c ∷ cs) [] all_names e s = cc
listed (c ∷ cs) (n ∷ ns) all_names e s = ground (arith, eq_iff c.id n, listed cs ns all_names)

rubric_listed :
    (p : QualityPolicy)
    → validate_rubric p ≡ true
    → all (λ c. contains quality_criteria c.id) p.criteria ≡ true
unfolding validate_rubric
rubric_listed p h =
    let named : same_texts (map (λ c. c.id) p.criteria) quality_criteria ≡ true = ground arith in
    listed p.criteria quality_criteria quality_criteria named (subset_refl quality_criteria)

rubric_total : (p : QualityPolicy) → validate_rubric p ≡ true → total_weight p.criteria ≡ whole
unfolding validate_rubric
rubric_total p h = ground (arith, eqb_iff (total_weight p.criteria) whole)

-- Under a rubric that was validated the total of the score is computed and is at most 100.
pub quality_total-le :
    (q : QualityAssessment) (policies : PolicyRegistry)
    → validate_rubric policies.quality ≡ true
    → (total : ℕ) × (quality_total q policies ≡ ok total) × (total ≤ 10000)
unfolding quality_total to_hundredths
quality_total-le q policies h =
    let sum = rubric_total policies.quality h in
    let (w, computed, bound) =
      passed_weight-le q policies.quality.criteria (rubric_listed policies.quality h) in
    rw computed (to_hundredths w, refl, omega arith)

-- Under a rubric that was validated the total of the score is 100 where all four criteria passed.
pub quality_total-all_passed :
    (q : QualityAssessment) (policies : PolicyRegistry)
    → validate_rubric policies.quality ≡ true
    → all_passed q ≡ true
    → quality_total q policies ≡ ok 10000
unfolding quality_total to_hundredths
quality_total-all_passed q policies h a =
    let sum = rubric_total policies.quality h in
    let (w, computed, bound) =
      passed_weight-le q policies.quality.criteria (rubric_listed policies.quality h) in
    let e = passed_weight-all q policies.quality.criteria w a computed in
    let full : w ≡ whole = omega arith in rw (computed, full) refl

unique_snoc :
    (values : List ℕ) (x : ℕ)
    → is_unique values ≡ true
    → contains values x ≡ false
    → is_unique (values ++ x ∷ []) ≡ true
unfolding is_unique contains
unique_snoc [] x h n = refl
unique_snoc (v ∷ values) x h n =
    ground (arith, contains-append values (x ∷ []) v, unique_snoc values x)

-- What was added to a list without duplicates leaves it so.
add_unseen-is_unique :
    (values xs : List ℕ) → is_unique values ≡ true → is_unique (add_unseen values xs) ≡ true
add_unseen-is_unique values [] h = h
add_unseen-is_unique values (x ∷ xs) h = elim (Bool-cases (contains values x)) [
  | inl e ↦ rw e (add_unseen-is_unique values xs h)
  | inr e ↦ rw e (add_unseen-is_unique (values ++ x ∷ []) xs (unique_snoc values x h e))
]

add_unseen-contains :
    (values xs : List ℕ) (a : ℕ)
    → contains (add_unseen values xs) a ≡ (contains values a || contains xs a)
unfolding contains
add_unseen-contains values [] a = ground arith
add_unseen-contains values (x ∷ xs) a = ground (
  arith,
  add_unseen-contains values xs a,
  add_unseen-contains (values ++ x ∷ []) xs a,
  contains-append values (x ∷ []) a,
  eqb_iff a x,
)

-- The evidence of the record has no duplicates, and has the members of the four lists of evidence.
pub unique_quality_evidence_iff :
    (q : QualityAssessment) (a : ℕ)
    → (is_unique (unique_quality_evidence q) ≡ true)
      × (contains (unique_quality_evidence q) a ≡ contains (quality_evidence q) a)
unfolding unique_quality_evidence is_unique contains
unique_quality_evidence_iff q a = (
  add_unseen-is_unique [] (quality_evidence q) refl,
  add_unseen-contains [] (quality_evidence q) a,
)
