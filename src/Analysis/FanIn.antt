-- ===== src/Analysis/FanIn.antt =====
-- What `aggregate_analysis` of src/mtbank_ai/workflow/aggregation.py returns and refuses.
use Prim.Native.String.{◌++◌ as str_append, count}
use text.Mathlib.TextLemmas.{length-append}
use mtbank_ai_call_analytics.Prelude.{
  eq_iff, ◌+◌, ◌∙◌, ap, leb, length, ℕ, ◌≤◌, ◌≡◌, refl, String, Bool, true, false, ◌&&◌, List, [],
  ◌∷◌, map, ltb, ◌==◌, nat_eq, string_eq, beq_refl, is_unique, all, Result, ok, raise, ◌>>◌,
  require, arith,
}
use mtbank_ai_call_analytics.Analysis.Policies.{
  AnalysisError, validation_error, validate_rubric, same_texts,
}
use mtbank_ai_call_analytics.Analysis.Models.{
  TranscriptSegment, ComplianceIssue, is_evidence, valid_items, validate_interval,
  validate_checklist_matches_details, validate_parts, validate_public_contract, validate_record,
  same_bool,
}
use mtbank_ai_call_analytics.Texts.{is_id, is_long_text}
use mtbank_ai_call_analytics.Analysis.Aggregate.{
  pos, Arguments, public_segment, segment_ids, response_of, sanitized_of, sanitized_issue,
  quality_total, validate_results, construct, aggregate_analysis, join,
}
use mtbank_ai_call_analytics.Analysis.Scores.{quality_total-le, unique_quality_evidence_iff}
use mtbank_ai_call_analytics.Analysis.Valid.{response_known}

-- The arguments are values of their own types: what their validators have already checked.
pub record IsInput (a : Arguments) : Type 0 where
  pub intervals : all (λ s. ltb s.start s.finish) a.transcript.segments ≡ true
  pub unique_segments : is_unique (segment_ids a.transcript) ≡ true
  pub classified : is_evidence a.classification.evidence_segment_ids ≡ true
  pub assessed : valid_items a.quality ≡ true
  pub complied : all (λ i. is_evidence i.evidence_segment_ids) a.compliance ≡ true
  pub summarized : is_evidence a.summary.fact_segment_ids ≡ true
  pub acted : all (λ i. is_evidence i.evidence_segment_ids) a.summary.action_items ≡ true
  pub worded : all is_long_text a.summary.sentences ≡ true
  pub sentences : 3 ≤ length a.summary.sentences
  pub taxonomy_named : is_id a.versions.taxonomy_version ≡ true
  pub quality_named : is_id a.versions.quality_rubric_version ≡ true
  pub compliance_named : is_id a.versions.compliance_policy_version ≡ true
  pub rubric : validate_rubric a.policies.quality ≡ true

-- The characters of sentences with a space between any two.
abbrev pub joined_size : List String → ℕ
joined_size [] = 0
joined_size (s ∷ []) = count s
joined_size (s ∷ t ∷ rest) = count s + (1 + joined_size (t ∷ rest))

-- The joined summary is within the bound of a long text.
abbrev pub summary_fits : Arguments → Bool
summary_fits a = leb (joined_size a.summary.sentences) 20000

-- The versions that the caller gives are those of the policies in use.
abbrev pub versions_agree : Arguments → Bool
versions_agree a =
    let r = response_of a 0 0 in
    (r.classification.taxonomy_version == a.versions.taxonomy_version)
    && (r.quality_score.policy_version == a.versions.quality_rubric_version)
    && (r.compliance.policy_version == a.versions.compliance_policy_version)

-- The versions that are put together from the policies are identifiers.
abbrev versions_named : Arguments → Bool
versions_named a =
    let r = response_of a 0 0 in
    is_id r.classification.taxonomy_version
    && is_id r.quality_score.policy_version
    && is_id r.compliance.policy_version

-- They are, where they agree with the versions that the caller gives.
agreed_named : (a : Arguments) → IsInput a → versions_agree a ≡ true → versions_named a ≡ true
agreed_named a h agreed =
    let r = response_of a 0 0 in
    let t : r.classification.taxonomy_version ≡ a.versions.taxonomy_version =
      (eq_iff r.classification.taxonomy_version a.versions.taxonomy_version).0 (ground arith) in
    let q : r.quality_score.policy_version ≡ a.versions.quality_rubric_version =
      (eq_iff r.quality_score.policy_version a.versions.quality_rubric_version).0 (ground arith) in
    let c : r.compliance.policy_version ≡ a.versions.compliance_policy_version =
      (eq_iff r.compliance.policy_version a.versions.compliance_policy_version).0 (ground arith) in
    rw (t, q, c, h.taxonomy_named, h.quality_named, h.compliance_named) refl

-- A test that the next one implies.
implied {ℓ} :
    {A : Type ℓ} (p q r : Bool) (e : AnalysisError) (k : Result AnalysisError A)
    → (r ≡ true → q ≡ true)
    → (require (p && q) e >> (require r e >> k)) ≡ (require p e >> (require r e >> k))
implied p q r e k h = ground arith

same_ids :
    (segments : List TranscriptSegment)
    → map (λ s. s.id) (map public_segment segments) ≡ map (λ s. s.id) segments
same_ids [] = refl
same_ids (s ∷ rest) = cc (same_ids rest)

count-join : (sentences : List String) → count (join sentences) ≡ joined_size sentences
count-join [] = refl
count-join (s ∷ []) = refl
count-join (s ∷ t ∷ rest) =
    let later = count-join (t ∷ rest) in
    length-append s (str_append " " (join (t ∷ rest)))
    ∙ ap (λ k. count s + k) (length-append " " (join (t ∷ rest)) ∙ ap (λ k. 1 + k) later)

joined_some : (s : String) (rest : List String) → count s ≤ joined_size (s ∷ rest)
joined_some s [] = omega arith
joined_some s (t ∷ rest) = omega arith

-- The bounds of the summary come down to the upper one.
summary_long :
    (sentences : List String)
    → 3 ≤ length sentences
    → all is_long_text sentences ≡ true
    → is_long_text (join sentences) ≡ leb (joined_size sentences) 20000
unfolding is_long_text
summary_long [] few h = absurd (omega (arith, few))
summary_long (s ∷ rest) few h = ground (arith, count-join (s ∷ rest), joined_some s rest)

public_intervals :
    (segments : List TranscriptSegment)
    → all (λ s. ltb s.start s.finish) segments ≡ true
    → all validate_interval (map public_segment segments) ≡ true
unfolding validate_interval
public_intervals [] h = refl
public_intervals (s ∷ rest) h = ground (arith, public_intervals rest)

same_self : (texts : List String) → same_texts texts texts ≡ true
same_self [] = refl
same_self (t ∷ rest) = ground (arith, beq_refl t, same_self rest)

same_bool_self : (b : Bool) → same_bool b b ≡ true
same_bool_self true = refl
same_bool_self false = refl

unique_issues :
    (issues : List ComplianceIssue)
    → all (λ i. is_evidence i.evidence_segment_ids) issues ≡ true
    → all (λ i. is_unique i.evidence_segment_ids) (map sanitized_issue issues) ≡ true
unfolding is_evidence
unique_issues [] h = refl
unique_issues (i ∷ rest) h = ground (arith, unique_issues rest)

module _ (a : Arguments) (h : IsInput a) (processing_ms total : ℕ) (bound : total ≤ 10000) where
  matches :
      validate_checklist_matches_details (response_of a processing_ms total).quality_score ≡ true
  unfolding validate_checklist_matches_details
  matches = ground (
    arith,
    same_bool_self a.quality.greeting.passed,
    same_bool_self a.quality.need_detection.passed,
    same_bool_self a.quality.solution_provided.passed,
    same_bool_self a.quality.farewell.passed,
  )

  parts : validate_parts (response_of a processing_ms total) ≡ (summary_fits a && versions_named a)
  unfolding validate_parts
  parts =
      let i = public_intervals a.transcript.segments h.intervals in
      let m = matches in
      let s = summary_long a.summary.sentences h.sentences h.worded in
      rw (i, h.classified, m, h.complied, h.summarized, h.acted, s) (ground arith)

  recorded : validate_record (sanitized_of a processing_ms total) ≡ true
  unfolding validate_record is_evidence
  recorded = ground (
    arith,
    (unique_quality_evidence_iff a.quality 0).0,
    unique_issues a.compliance h.complied,
    h.classified,
  )

  contract :
      validate_results a ≡ ok tt
      → validate_public_contract (response_of a processing_ms total) ≡ versions_agree a
  unfolding validate_public_contract
  contract v =
      let known = response_known a processing_ms total v in
      let u = h.unique_segments in
      let t = same_self (map (λ i. i.text) a.summary.action_items) in
      rw (same_ids a.transcript.segments, u, known, t) (ground arith)

  -- The response and the record pass their validators, but for the summary and the versions.
  constructed :
      quality_total a.quality a.policies ≡ ok total
      → validate_results a ≡ ok tt
      → construct a processing_ms ≡ (
          require (summary_fits a) validation_error
          >> (require (versions_agree a) validation_error
              >> ok (record {
                response = response_of a processing_ms total;
                sanitized_record = sanitized_of a processing_ms total;
              })))
  unfolding construct
  constructed computed v =
      let p = parts in
      let r = recorded in
      let c = contract v in
      let u = h.assessed in
      rw (u, computed, p, c, r)
        (implied (summary_fits a) (versions_named a) (versions_agree a) validation_error _
          (agreed_named a h))

after_same {ℓ κ} :
    {E : Type ℓ} {B : Type κ} (m : Result E (Unit {0})) (k k' : Result E B)
    → (m ≡ ok tt → k ≡ k')
    → (m >> k) ≡ (m >> k')
after_same (ok tt) k k' h = h refl
after_same (raise e) k k' h = refl

-- With arguments that are values of their types and a rubric that was validated, the total of the
-- score is computed, and the analysis is refused only by the checks of the references and of
-- the approved identifiers, or where the sentences of the summary have more than 20000 characters with
-- the spaces between them, or where the versions disagree with the policies: in all other cases
-- the response and the record pass the validators of the public contract and are returned.
pub aggregate_analysis-eq :
    (a : Arguments) (processing_ms : ℕ)
    → IsInput a
    → (total : ℕ) × (quality_total a.quality a.policies ≡ ok total)
      × (aggregate_analysis a (pos processing_ms) ≡ (
          validate_results a
          >> (require (summary_fits a) validation_error
              >> (require (versions_agree a) validation_error
                  >> ok (record {
                    response = response_of a processing_ms total;
                    sanitized_record = sanitized_of a processing_ms total;
                  })))))
unfolding aggregate_analysis
aggregate_analysis-eq a processing_ms h =
    let (total, computed, bound) = quality_total-le a.quality a.policies h.rubric in
    (
      total,
      computed,
      after_same (validate_results a) _ _ (constructed a h processing_ms total bound computed),
    )
