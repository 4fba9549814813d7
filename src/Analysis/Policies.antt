-- ===== src/Analysis/Policies.antt =====
-- The policies: the validators and the look-ups of src/mtbank_ai/policies/loader.py. A weight is a
-- whole number of units of 10 ^ -20, on which the sums of `Decimal` are exact; a confidence is a
-- whole number of units of 2 ^ -1074.
use mtbank_ai_call_analytics.Prelude.{
  ℕ, ◌+◌, String, Bool, true, false, ◌&&◌, List, [], ◌∷◌, map, ltb, leb, eqb, ◌==◌, string_eq,
  contains, subset, is_unique, all, Result, ok, raise, if◌then◌else◌,
}

pub data ComplianceSeverity : Type 0 where
  info warning blocking : ComplianceSeverity

-- What the analysis raises: `AggregationError`, `PolicyLoadError`, pydantic's `ValidationError`, and
-- the `KeyError` of a dictionary.
pub data AnalysisError : Type 0 where
  aggregation_error policy_load_error validation_error key_error : AnalysisError

pub record TaxonomyTopic : Type 0 where
  pub id : String
  pub allowed_priorities : List String

pub record TaxonomyPolicy : Type 0 where
  pub version : String
  pub topics : List TaxonomyTopic

pub record QualityCriterion : Type 0 where
  pub id : String
  pub weight : ℕ

pub record QualityPolicy : Type 0 where
  pub version : String
  pub criteria : List QualityCriterion
  pub review_confidence_threshold : ℕ
  pub role_confidence_threshold : ℕ

pub record ComplianceRule : Type 0 where
  pub id : String
  pub severity : ComplianceSeverity

pub record CompliancePolicy : Type 0 where
  pub version : String
  pub rules : List ComplianceRule

pub record PolicyRegistry : Type 0 where
  pub taxonomy : TaxonomyPolicy
  pub quality : QualityPolicy
  pub compliance : CompliancePolicy

abbrev pub topic_ids : List String
topic_ids = "кредиты" ∷ "карты" ∷ "переводы" ∷ "жалобы" ∷ "другое" ∷ []

abbrev pub priority_ids : List String
priority_ids = "low" ∷ "medium" ∷ "high" ∷ []

abbrev pub quality_criteria : List String
quality_criteria = "greeting" ∷ "need_detection" ∷ "solution_provided" ∷ "farewell" ∷ []

-- The weight 1.
abbrev pub whole : ℕ
whole = 100000000000000000000

-- Equality of tuples of texts.
abbrev pub same_texts : List String → List String → Bool
same_texts [] [] = true
same_texts (x ∷ xs) (y ∷ ys) = (x == y) && same_texts xs ys
same_texts _ _ = false

unfoldable pub validate_topic : TaxonomyTopic → Bool
validate_topic t =
    contains topic_ids t.id
    && is_unique t.allowed_priorities
    && subset t.allowed_priorities priority_ids

unfoldable pub validate_topics : TaxonomyPolicy → Bool
validate_topics p =
    let ids = map (λ t. t.id) p.topics in
    is_unique ids && subset ids topic_ids && subset topic_ids ids

unfoldable pub allowed_priorities : List TaxonomyTopic → String → Result AnalysisError (List String)
allowed_priorities [] topic = raise policy_load_error
allowed_priorities (t ∷ rest) topic =
    let later = allowed_priorities rest topic in
    if t.id == topic then ok t.allowed_priorities else later

abbrev pub total_weight : List QualityCriterion → ℕ
total_weight [] = 0
total_weight (c ∷ cs) = c.weight + total_weight cs

-- Weights are positive and at most 1 by their field, and the rubric is in its order with the sum 1.
unfoldable pub validate_rubric : QualityPolicy → Bool
validate_rubric p =
    all (λ c. ltb 0 c.weight && leb c.weight whole) p.criteria
    && same_texts (map (λ c. c.id) p.criteria) quality_criteria
    && eqb (total_weight p.criteria) whole

unfoldable pub criterion : List QualityCriterion → String → Result AnalysisError QualityCriterion
criterion [] identifier = raise policy_load_error
criterion (c ∷ rest) identifier =
    let later = criterion rest identifier in if c.id == identifier then ok c else later

unfoldable pub validate_rules : CompliancePolicy → Bool
validate_rules p = is_unique (map (λ r. r.id) p.rules)

unfoldable pub rule : List ComplianceRule → String → Result AnalysisError ComplianceRule
rule [] identifier = raise policy_load_error
rule (r ∷ rest) identifier =
    let later = rule rest identifier in if r.id == identifier then ok r else later
