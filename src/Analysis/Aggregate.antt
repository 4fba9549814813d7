-- ===== src/Analysis/Aggregate.antt =====
-- `aggregate_analysis` of src/mtbank_ai/workflow/aggregation.py.
use Prim.Native.String.{◌++◌ as str_append}
use mtbank_ai_call_analytics.Prelude.{
  ℕ, ◌+◌, ◌/◌, String, Bool, true, false, not, ◌||◌, List, [], ◌∷◌, ◌++◌, map, ltb, ◌==◌, nat_eq,
  string_eq, contains, subset, any, length, Result, ok, raise, ◌>>=◌, ◌>>◌, require, for_each,
  if◌then◌else◌,
}
use mtbank_ai_call_analytics.Analysis.Policies.{
  ComplianceSeverity, info, warning, blocking, AnalysisError, aggregation_error, validation_error,
  key_error, QualityCriterion, PolicyRegistry, ComplianceRule, allowed_priorities, criterion, rule,
}
use mtbank_ai_call_analytics.Analysis.Models.{
  TranscriptSegment, TranscriptSnapshot, ClassificationResult, QualityCriterionAssessment,
  QualityAssessment, ComplianceIssue, SummaryResult, PublicTranscriptSegment, QualityChecklist,
  AnalysisVersions, AnalyzeResponse, SanitizedComplianceIssue, SanitizedAnalysisRecord, valid_items,
  quality_evidence, validate_parts, validate_public_contract, validate_record,
}

-- A Python integer.
pub data ℤ : Type 0 where
  pos negsuc : ℕ → ℤ

-- The arguments of `aggregate_analysis`.
pub record Arguments : Type 0 where
  pub transcript : TranscriptSnapshot
  pub classification : ClassificationResult
  pub quality : QualityAssessment
  pub compliance : List ComplianceIssue
  pub summary : SummaryResult
  pub policies : PolicyRegistry
  pub run_id : ℕ
  pub versions : AnalysisVersions

pub record AggregatedAnalysis : Type 0 where
  pub response : AnalyzeResponse
  pub sanitized_record : SanitizedAnalysisRecord

unfoldable pub require_known_evidence : List ℕ → List ℕ → Result AnalysisError (Unit {0})
require_known_evidence evidence known = require (subset evidence known) aggregation_error

unfoldable pub check_priority :
    String → Result AnalysisError (List String) → Result AnalysisError (Unit {0})
check_priority priority (raise e) = raise aggregation_error
check_priority priority (ok allowed) = require (contains allowed priority) aggregation_error

unfoldable pub validate_classification :
    ClassificationResult → PolicyRegistry → List ℕ → Result AnalysisError (Unit {0})
validate_classification c policies known =
    check_priority c.priority (allowed_priorities policies.taxonomy.topics c.topic)
    >> require_known_evidence c.evidence_segment_ids known

unfoldable pub validate_item :
    String → QualityCriterionAssessment → PolicyRegistry → List ℕ → Result AnalysisError (Unit {0})
validate_item identifier item policies known = do
  found ← criterion policies.quality.criteria identifier
  require_known_evidence item.evidence_segment_ids known

unfoldable pub validate_quality :
    QualityAssessment → PolicyRegistry → List ℕ → Result AnalysisError (Unit {0})
validate_quality q policies known =
    validate_item "greeting" q.greeting policies known
    >> (validate_item "need_detection" q.need_detection policies known
        >> (validate_item "solution_provided" q.solution_provided policies known
            >> validate_item "farewell" q.farewell policies known))

abbrev pub same_severity : ComplianceSeverity → ComplianceSeverity → Bool
same_severity info info = true
same_severity warning warning = true
same_severity blocking blocking = true
same_severity _ _ = false

unfoldable pub check_severity :
    ComplianceSeverity → Result AnalysisError ComplianceRule → Result AnalysisError (Unit {0})
check_severity severity (raise e) = raise aggregation_error
check_severity severity (ok r) = require (same_severity severity r.severity) aggregation_error

-- The loop over the issues, with the rules seen so far.
unfoldable pub validate_compliance :
    List ComplianceIssue → PolicyRegistry → List ℕ → List String → Result AnalysisError (Unit {0})
validate_compliance [] policies known rule_ids = ok tt
validate_compliance (i ∷ rest) policies known rule_ids =
    let later = validate_compliance rest policies known (i.rule_id ∷ rule_ids) in
    require (not (contains rule_ids i.rule_id)) aggregation_error
    >> (check_severity i.severity (rule policies.compliance.rules i.rule_id)
        >> (require_known_evidence i.evidence_segment_ids known >> later))

unfoldable pub validate_summary : SummaryResult → List ℕ → Result AnalysisError (Unit {0})
validate_summary s known =
    require_known_evidence s.fact_segment_ids known
    >> for_each (λ a. require_known_evidence a.evidence_segment_ids known) s.action_items

-- assessments[criterion.id]
unfoldable pub assessment_of :
    QualityAssessment → String → Result AnalysisError QualityCriterionAssessment
assessment_of q identifier =
    if identifier == "greeting"
    then ok q.greeting
    else if identifier == "need_detection"
    then ok q.need_detection
    else if identifier == "solution_provided"
    then ok q.solution_provided
    else if identifier == "farewell"
    then ok q.farewell
    else raise key_error

-- The sum of the weights of the criteria that passed.
unfoldable pub passed_weight : QualityAssessment → List QualityCriterion → Result AnalysisError ℕ
passed_weight q [] = ok 0
passed_weight q (c ∷ cs) =
    let later = passed_weight q cs in
    assessment_of q c.id >>= λ item.
    later >>= λ rest. ok (if item.passed then c.weight + rest else rest)

-- `ROUND_HALF_UP` to hundredths of a hundredfold: a unit of weight is 10 ^ -16 hundredths.
unfoldable pub to_hundredths : ℕ → ℕ
to_hundredths weight = (weight + 5000000000000000) / 10000000000000000

unfoldable pub quality_total : QualityAssessment → PolicyRegistry → Result AnalysisError ℕ
quality_total q policies =
    passed_weight q policies.quality.criteria >>= λ weight. ok (to_hundredths weight)

abbrev pub add_unseen : List ℕ → List ℕ → List ℕ
add_unseen values [] = values
add_unseen values (x ∷ xs) =
    if contains values x then add_unseen values xs else add_unseen (values ++ x ∷ []) xs

-- `_unique_quality_evidence`
unfoldable pub unique_quality_evidence : QualityAssessment → List ℕ
unique_quality_evidence q = add_unseen [] (quality_evidence q)

unfoldable pub needs_review :
    TranscriptSnapshot → ClassificationResult → QualityAssessment → PolicyRegistry → Bool
needs_review t c q policies =
    let p = policies.quality in
    t.needs_review
    || any (λ s. ltb s.role_confidence p.role_confidence_threshold) t.segments
    || any (λ confidence. ltb confidence p.review_confidence_threshold)
        (c.confidence ∷ q.greeting.confidence ∷ q.need_detection.confidence
          ∷ q.solution_provided.confidence ∷ q.farewell.confidence ∷ [])

-- " ".join(sentences)
abbrev pub join : List String → String
join [] = ""
join (s ∷ []) = s
join (s ∷ t ∷ rest) = str_append s (str_append " " (join (t ∷ rest)))

abbrev pub is_blocking : ComplianceSeverity → Bool
is_blocking blocking = true
is_blocking _ = false

abbrev pub checklist_of : QualityAssessment → QualityChecklist
checklist_of q = record {
  greeting = q.greeting.passed;
  need_detection = q.need_detection.passed;
  solution_provided = q.solution_provided.passed;
  farewell = q.farewell.passed;
}

abbrev pub segment_ids : TranscriptSnapshot → List ℕ
segment_ids t = map (λ s. s.id) t.segments

abbrev pub public_segment : TranscriptSegment → PublicTranscriptSegment
public_segment s = record {
  id = s.id;
  speaker = s.speaker;
  start = s.start;
  finish = s.finish;
  text = s.redacted_text;
}

abbrev pub response_of : Arguments → ℕ → ℕ → AnalyzeResponse
response_of a processing_ms total = record {
  transcript = map public_segment a.transcript.segments;
  classification = record {
    topic = a.classification.topic;
    priority = a.classification.priority;
    confidence = a.classification.confidence;
    evidence_segment_ids = a.classification.evidence_segment_ids;
    rationale = a.classification.rationale;
    taxonomy_version = str_append "taxonomy/" a.policies.taxonomy.version;
  };
  quality_score = record {
    total = total;
    checklist = checklist_of a.quality;
    details = a.quality;
    policy_version = str_append "quality/" a.policies.quality.version;
  };
  compliance = record {
    passed = not (any (λ i. is_blocking i.severity) a.compliance);
    issues = a.compliance;
    policy_version = str_append "compliance/" a.policies.compliance.version;
  };
  summary = join a.summary.sentences;
  action_items = map (λ i. i.text) a.summary.action_items;
  grounding = record {
    summary_evidence_segment_ids = a.summary.fact_segment_ids;
    action_items = a.summary.action_items;
  };
  run_id = a.run_id;
  versions = a.versions;
  processing_ms = processing_ms;
  needs_review = needs_review a.transcript a.classification a.quality a.policies;
}

abbrev pub sanitized_issue : ComplianceIssue → SanitizedComplianceIssue
sanitized_issue i = record {
  rule_id = i.rule_id;
  severity = i.severity;
  evidence_segment_ids = i.evidence_segment_ids;
}

abbrev pub sanitized_of : Arguments → ℕ → ℕ → SanitizedAnalysisRecord
sanitized_of a processing_ms total = record {
  run_id = a.run_id;
  classification_topic_id = a.classification.topic;
  classification_priority_id = a.classification.priority;
  classification_confidence = a.classification.confidence;
  classification_evidence_segment_ids = a.classification.evidence_segment_ids;
  quality_total = total;
  quality_checklist = checklist_of a.quality;
  quality_evidence_segment_ids = unique_quality_evidence a.quality;
  compliance_passed = not (any (λ i. is_blocking i.severity) a.compliance);
  compliance_issues = map sanitized_issue a.compliance;
  action_item_count = length a.summary.action_items;
  needs_review = needs_review a.transcript a.classification a.quality a.policies;
  processing_ms = processing_ms;
  trusted_versions = a.versions;
}

-- The validators of the references and of the approved identifiers.
unfoldable pub validate_results : Arguments → Result AnalysisError (Unit {0})
validate_results a =
    let known = segment_ids a.transcript in
    validate_classification a.classification a.policies known
    >> (validate_quality a.quality a.policies known
        >> (validate_compliance a.compliance a.policies known []
            >> validate_summary a.summary known))

-- The construction of the response and of the record, where pydantic validates each.
unfoldable pub construct : Arguments → ℕ → Result AnalysisError AggregatedAnalysis
construct a processing_ms = do
  require (valid_items a.quality) validation_error
  total ← quality_total a.quality a.policies
  let response = response_of a processing_ms total
  let sanitized = sanitized_of a processing_ms total
  require (validate_parts response) validation_error
  require (validate_public_contract response) validation_error
  require (validate_record sanitized) validation_error
  ok (record { response = response; sanitized_record = sanitized })

unfoldable pub aggregate_analysis : Arguments → ℤ → Result AnalysisError AggregatedAnalysis
aggregate_analysis a (negsuc n) = raise aggregation_error
aggregate_analysis a (pos processing_ms) = validate_results a >> construct a processing_ms
