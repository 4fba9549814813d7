-- ===== src/Analysis/Models.antt =====
-- The results of the agents and the public contract: src/mtbank_ai/domain/agents.py,
-- src/mtbank_ai/domain/transcript.py and src/mtbank_ai/domain/analysis.py. An identifier of a segment is
-- a number; times and confidences are whole numbers of units of 2 ^ -1074, the total of the
-- quality score is in hundredths. Texts are stripped already; the bounds of one are tested where a value is
-- constructed that the code does not copy from a field with the same bounds.
use mtbank_ai_call_analytics.Prelude.{
  ℕ, String, Bool, true, false, not, ◌&&◌, List, [], ◌∷◌, ◌++◌, map, ltb, leb, ◌==◌, nat_eq,
  string_eq, subset, is_unique, all,
}
use mtbank_ai_call_analytics.Texts.{is_id, is_long_text}
use mtbank_ai_call_analytics.Analysis.Policies.{ComplianceSeverity, same_texts}

pub data SpeakerRole : Type 0 where
  operator client : SpeakerRole

pub record TranscriptSegment : Type 0 where
  pub id : ℕ
  pub speaker : SpeakerRole
  pub start : ℕ
  pub finish : ℕ
  pub redacted_text : String
  pub role_confidence : ℕ

pub record TranscriptSnapshot : Type 0 where
  pub segments : List TranscriptSegment
  pub needs_review : Bool

-- A tuple of evidence: not empty, without duplicates.
abbrev pub is_empty : List ℕ → Bool
is_empty [] = true
is_empty (_ ∷ _) = false

unfoldable pub is_evidence : List ℕ → Bool
is_evidence ids = not (is_empty ids) && is_unique ids

pub record ClassificationResult : Type 0 where
  pub topic : String
  pub priority : String
  pub confidence : ℕ
  pub evidence_segment_ids : List ℕ
  pub rationale : String

-- `QualityCriterionAssessment`, and `QualityChecklistItem` with the same fields.
pub record QualityCriterionAssessment : Type 0 where
  pub passed : Bool
  pub confidence : ℕ
  pub evidence_segment_ids : List ℕ
  pub rationale : String

pub record QualityAssessment : Type 0 where
  pub greeting : QualityCriterionAssessment
  pub need_detection : QualityCriterionAssessment
  pub solution_provided : QualityCriterionAssessment
  pub farewell : QualityCriterionAssessment

-- `ComplianceIssue`, and `PublicComplianceIssue` with the same fields.
pub record ComplianceIssue : Type 0 where
  pub rule_id : String
  pub severity : ComplianceSeverity
  pub evidence_segment_ids : List ℕ
  pub explanation : String

-- `ActionItem`, and `GroundedActionItem` with the same fields.
pub record ActionItem : Type 0 where
  pub text : String
  pub evidence_segment_ids : List ℕ

pub record SummaryResult : Type 0 where
  pub sentences : List String
  pub fact_segment_ids : List ℕ
  pub action_items : List ActionItem

pub record PublicTranscriptSegment : Type 0 where
  pub id : ℕ
  pub speaker : SpeakerRole
  pub start : ℕ
  pub finish : ℕ
  pub text : String

pub record PublicClassification : Type 0 where
  pub topic : String
  pub priority : String
  pub confidence : ℕ
  pub evidence_segment_ids : List ℕ
  pub rationale : String
  pub taxonomy_version : String

pub record QualityChecklist : Type 0 where
  pub greeting : Bool
  pub need_detection : Bool
  pub solution_provided : Bool
  pub farewell : Bool

pub record QualityScore : Type 0 where
  pub total : ℕ
  pub checklist : QualityChecklist
  pub details : QualityAssessment
  pub policy_version : String

pub record ComplianceView : Type 0 where
  pub passed : Bool
  pub issues : List ComplianceIssue
  pub policy_version : String

pub record Grounding : Type 0 where
  pub summary_evidence_segment_ids : List ℕ
  pub action_items : List ActionItem

pub record AnalysisVersions : Type 0 where
  pub taxonomy_version : String
  pub quality_rubric_version : String
  pub compliance_policy_version : String

pub record AnalyzeResponse : Type 0 where
  pub transcript : List PublicTranscriptSegment
  pub classification : PublicClassification
  pub quality_score : QualityScore
  pub compliance : ComplianceView
  pub summary : String
  pub action_items : List String
  pub grounding : Grounding
  pub run_id : ℕ
  pub versions : AnalysisVersions
  pub processing_ms : ℕ
  pub needs_review : Bool

abbrev pub same_bool : Bool → Bool → Bool
same_bool true b = b
same_bool false b = not b

-- `PublicTranscriptSegment.validate_interval`
unfoldable pub validate_interval : PublicTranscriptSegment → Bool
validate_interval s = ltb s.start s.finish

abbrev pub valid_item : QualityCriterionAssessment → Bool
valid_item a = is_evidence a.evidence_segment_ids

abbrev pub valid_items : QualityAssessment → Bool
valid_items q =
    valid_item q.greeting
    && valid_item q.need_detection
    && valid_item q.solution_provided
    && valid_item q.farewell

-- `QualityScore`, with the bound of its total.
unfoldable pub validate_checklist_matches_details : QualityScore → Bool
validate_checklist_matches_details q =
    leb q.total 10000
    && same_bool q.checklist.greeting q.details.greeting.passed
    && same_bool q.checklist.need_detection q.details.need_detection.passed
    && same_bool q.checklist.solution_provided q.details.solution_provided.passed
    && same_bool q.checklist.farewell q.details.farewell.passed

abbrev pub issue_evidence : List ComplianceIssue → List ℕ
issue_evidence [] = []
issue_evidence (i ∷ is) = i.evidence_segment_ids ++ issue_evidence is

abbrev pub item_evidence : List ActionItem → List ℕ
item_evidence [] = []
item_evidence (a ∷ rest) = a.evidence_segment_ids ++ item_evidence rest

abbrev pub quality_evidence : QualityAssessment → List ℕ
quality_evidence q =
    q.greeting.evidence_segment_ids
    ++ (q.need_detection.evidence_segment_ids
        ++ (q.solution_provided.evidence_segment_ids ++ q.farewell.evidence_segment_ids))

unfoldable pub response_evidence : AnalyzeResponse → List ℕ
response_evidence r =
    r.classification.evidence_segment_ids
    ++ (quality_evidence r.quality_score.details
        ++ (issue_evidence r.compliance.issues
            ++ (r.grounding.summary_evidence_segment_ids
                ++ item_evidence r.grounding.action_items)))

-- `AnalyzeResponse.validate_public_contract`
unfoldable pub validate_public_contract : AnalyzeResponse → Bool
validate_public_contract r =
    let ids = map (λ s. s.id) r.transcript in
    is_unique ids
    && subset (response_evidence r) ids
    && (r.classification.taxonomy_version == r.versions.taxonomy_version)
    && (r.quality_score.policy_version == r.versions.quality_rubric_version)
    && (r.compliance.policy_version == r.versions.compliance_policy_version)
    && same_texts (map (λ a. a.text) r.grounding.action_items) r.action_items

-- The bounds of the summary and of the versions that are put together, and the validators of the parts of a response that its construction runs before its own.
unfoldable pub validate_parts : AnalyzeResponse → Bool
validate_parts r =
    all validate_interval r.transcript
    && is_evidence r.classification.evidence_segment_ids
    && validate_checklist_matches_details r.quality_score
    && all (λ i. is_evidence i.evidence_segment_ids) r.compliance.issues
    && is_evidence r.grounding.summary_evidence_segment_ids
    && all (λ a. is_evidence a.evidence_segment_ids) r.grounding.action_items
    && is_long_text r.summary
    && is_id r.classification.taxonomy_version
    && is_id r.quality_score.policy_version
    && is_id r.compliance.policy_version

pub record SanitizedComplianceIssue : Type 0 where
  pub rule_id : String
  pub severity : ComplianceSeverity
  pub evidence_segment_ids : List ℕ

pub record SanitizedAnalysisRecord : Type 0 where
  pub run_id : ℕ
  pub classification_topic_id : String
  pub classification_priority_id : String
  pub classification_confidence : ℕ
  pub classification_evidence_segment_ids : List ℕ
  pub quality_total : ℕ
  pub quality_checklist : QualityChecklist
  pub quality_evidence_segment_ids : List ℕ
  pub compliance_passed : Bool
  pub compliance_issues : List SanitizedComplianceIssue
  pub action_item_count : ℕ
  pub needs_review : Bool
  pub processing_ms : ℕ
  pub trusted_versions : AnalysisVersions

-- The validators of the record and of its issues, with the bound of the total.
unfoldable pub validate_record : SanitizedAnalysisRecord → Bool
validate_record r =
    leb r.quality_total 10000
    && is_unique r.classification_evidence_segment_ids
    && is_unique r.quality_evidence_segment_ids
    && all (λ i. is_unique i.evidence_segment_ids) r.compliance_issues
