-- ===== src/Analysis/Valid.antt =====
-- The validators of references of src/mtbank_ai/workflow/aggregation.py.
use mtbank_ai_call_analytics.Prelude.{
  ℕ, ◌≡◌, refl, String, true, not, List, [], ◌∷◌, nat_eq, string_eq, contains, subset, subset_both,
  ok, require, for_each, >>=-eq-ok, require-eq-ok,
}
use mtbank_ai_call_analytics.Analysis.Policies.{
  aggregation_error, PolicyRegistry, criterion, allowed_priorities, rule,
}
use mtbank_ai_call_analytics.Analysis.Models.{
  ClassificationResult, QualityAssessment, QualityCriterionAssessment, ComplianceIssue, ActionItem,
  SummaryResult, issue_evidence, item_evidence, quality_evidence, response_evidence,
}
use mtbank_ai_call_analytics.Analysis.Aggregate.{
  Arguments, require_known_evidence, check_priority, validate_classification, validate_item,
  validate_quality, check_severity, validate_compliance, validate_summary, validate_results,
  response_of, segment_ids,
}

known_evidence :
    (evidence known : List ℕ)
    → require_known_evidence evidence known ≡ ok tt
    → subset evidence known ≡ true
unfolding require_known_evidence
known_evidence evidence known h = require-eq-ok _ aggregation_error h

classification_known :
    (c : ClassificationResult) (policies : PolicyRegistry) (known : List ℕ)
    → validate_classification c policies known ≡ ok tt
    → subset c.evidence_segment_ids known ≡ true
unfolding validate_classification
classification_known c policies known h =
    known_evidence c.evidence_segment_ids known
      (>>=-eq-ok (check_priority c.priority (allowed_priorities policies.taxonomy.topics c.topic)) _
        h).2

item_known :
    (identifier : String) (item : QualityCriterionAssessment) (policies : PolicyRegistry)
    (known : List ℕ)
    → validate_item identifier item policies known ≡ ok tt
    → subset item.evidence_segment_ids known ≡ true
unfolding validate_item
item_known identifier item policies known h =
    known_evidence item.evidence_segment_ids known
      (>>=-eq-ok (criterion policies.quality.criteria identifier) _ h).2

quality_known :
    (q : QualityAssessment) (policies : PolicyRegistry) (known : List ℕ)
    → validate_quality q policies known ≡ ok tt
    → subset (quality_evidence q) known ≡ true
unfolding validate_quality
quality_known q policies known h =
    let (_, one, rest) = >>=-eq-ok (validate_item "greeting" q.greeting policies known) _ h in
    let (_, two, last) =
      >>=-eq-ok (validate_item "need_detection" q.need_detection policies known) _ rest in
    let (_, three, four) =
      >>=-eq-ok (validate_item "solution_provided" q.solution_provided policies known) _ last in
    subset_both q.greeting.evidence_segment_ids _ known
      (item_known "greeting" q.greeting policies known one)
      (subset_both q.need_detection.evidence_segment_ids _ known
        (item_known "need_detection" q.need_detection policies known two)
        (subset_both q.solution_provided.evidence_segment_ids _ known
          (item_known "solution_provided" q.solution_provided policies known three)
          (item_known "farewell" q.farewell policies known four)))

compliance_known :
    (issues : List ComplianceIssue) (policies : PolicyRegistry) (known : List ℕ)
    (seen : List String)
    → validate_compliance issues policies known seen ≡ ok tt
    → subset (issue_evidence issues) known ≡ true
unfolding validate_compliance subset
compliance_known [] policies known seen h = refl
compliance_known (i ∷ rest) policies known seen h =
    let (_, _, a) = >>=-eq-ok (require (not (contains seen i.rule_id)) aggregation_error) _ h in
    let (_, _, b) =
      >>=-eq-ok (check_severity i.severity (rule policies.compliance.rules i.rule_id)) _ a in
    let (_, now, later) = >>=-eq-ok (require_known_evidence i.evidence_segment_ids known) _ b in
    subset_both i.evidence_segment_ids (issue_evidence rest) known
      (known_evidence i.evidence_segment_ids known now)
      (compliance_known rest policies known (i.rule_id ∷ seen) later)

items_known :
    (items : List ActionItem) (known : List ℕ)
    → for_each (λ a. require_known_evidence a.evidence_segment_ids known) items ≡ ok tt
    → subset (item_evidence items) known ≡ true
unfolding for_each subset
items_known [] known h = refl
items_known (i ∷ rest) known h =
    let (_, now, later) = >>=-eq-ok (require_known_evidence i.evidence_segment_ids known) _ h in
    subset_both i.evidence_segment_ids (item_evidence rest) known
      (known_evidence i.evidence_segment_ids known now) (items_known rest known later)

summary_known :
    (s : SummaryResult) (known : List ℕ)
    → validate_summary s known ≡ ok tt
    → (subset s.fact_segment_ids known ≡ true)
      × (subset (item_evidence s.action_items) known ≡ true)
unfolding validate_summary
summary_known s known h =
    let (_, now, later) = >>=-eq-ok (require_known_evidence s.fact_segment_ids known) _ h in
    (known_evidence s.fact_segment_ids known now, items_known s.action_items known later)

-- After `validate_results` every reference of the response is a segment of the transcript.
pub response_known :
    (a : Arguments) (processing_ms total : ℕ)
    → validate_results a ≡ ok tt
    → subset (response_evidence (response_of a processing_ms total)) (segment_ids a.transcript)
      ≡ true
unfolding validate_results response_evidence
response_known a processing_ms total h =
    let known = segment_ids a.transcript in
    let (_, one, x) = >>=-eq-ok (validate_classification a.classification a.policies known) _ h in
    let (_, two, y) = >>=-eq-ok (validate_quality a.quality a.policies known) _ x in
    let (_, three, four) = >>=-eq-ok (validate_compliance a.compliance a.policies known []) _ y in
    let c = classification_known a.classification a.policies known one in
    let q = quality_known a.quality a.policies known two in
    let i = compliance_known a.compliance a.policies known [] three in
    let (f, s) = summary_known a.summary known four in
    subset_both a.classification.evidence_segment_ids _ known c (
      subset_both (quality_evidence a.quality) _ known q (
        subset_both (issue_evidence a.compliance) _ known i
          (subset_both a.summary.fact_segment_ids _ known f s)))
