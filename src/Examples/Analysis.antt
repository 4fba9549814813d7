-- ===== src/Examples/Analysis.antt =====
-- The fan-in of src/mtbank_ai/workflow/aggregation.py at a call of two segments.
use mtbank_ai_call_analytics.Prelude.{
  arith, ℕ, ◌≡◌, ◌≤◌, refl, true, false, [], ◌∷◌, ok, ◌>>◌, require, contains, is_unique, nat_eq,
  subset, for_each,
}
use mtbank_ai_call_analytics.Analysis.Policies.{
  blocking, PolicyRegistry, validate_rubric, validation_error, criterion, rule, allowed_priorities,
}
use mtbank_ai_call_analytics.Analysis.Models.{
  operator, client, QualityAssessment, QualityCriterionAssessment, is_evidence, quality_evidence,
}
use mtbank_ai_call_analytics.Texts.{is_id, is_long_text}
use mtbank_ai_call_analytics.Analysis.Aggregate.{
  pos, Arguments, quality_total, validate_results, aggregate_analysis, response_of, sanitized_of,
  unique_quality_evidence, validate_classification, check_priority, require_known_evidence,
  validate_quality, validate_item, validate_compliance, check_severity, validate_summary,
}
use mtbank_ai_call_analytics.Analysis.Scores.{
  quality_total-le, quality_total-all_passed, unique_quality_evidence_iff,
}
use mtbank_ai_call_analytics.Analysis.FanIn.{
  IsInput, summary_fits, versions_agree, aggregate_analysis-eq,
}

abbrev registry : PolicyRegistry
registry = record {
  taxonomy = record {
    version = "v1";
    topics = record { id = "карты"; allowed_priorities = "low" ∷ "high" ∷ [] } ∷ [];
  };
  quality = record {
    version = "v1";
    criteria =
        record { id = "greeting"; weight = 10000000000000000000 }
        ∷ record { id = "need_detection"; weight = 30000000000000000000 }
        ∷ record { id = "solution_provided"; weight = 40000000000000000000 }
        ∷ record { id = "farewell"; weight = 20000000000000000000 }
        ∷ [];
    review_confidence_threshold = 70;
    role_confidence_threshold = 60;
  };
  compliance = record {
    version = "v1";
    rules = record { id = "no_pin"; severity = blocking } ∷ [];
  };
}

abbrev item : ℕ → QualityCriterionAssessment
item n = record {
  passed = true;
  confidence = 90;
  evidence_segment_ids = n ∷ [];
  rationale = "сказано";
}

abbrev assessment : QualityAssessment
assessment = record {
  greeting = item 1;
  need_detection = item 2;
  solution_provided = item 2;
  farewell = item 1;
}

abbrev call : Arguments
call = record {
  transcript = record {
    segments =
        record {
          id = 1;
          speaker = operator;
          start = 0;
          finish = 10;
          redacted_text = "Добрый день";
          role_confidence = 99;
        }
        ∷ record {
          id = 2;
          speaker = client;
          start = 10;
          finish = 25;
          redacted_text = "Карта не работает";
          role_confidence = 95;
        }
        ∷ [];
    needs_review = false;
  };
  classification = record {
    topic = "карты";
    priority = "high";
    confidence = 80;
    evidence_segment_ids = 2 ∷ [];
    rationale = "карта";
  };
  quality = assessment;
  compliance =
      record {
        rule_id = "no_pin";
        severity = blocking;
        evidence_segment_ids = 1 ∷ 2 ∷ [];
        explanation = "спросил код";
      }
      ∷ [];
  summary = record {
    sentences = "Раз." ∷ "Два." ∷ "Три." ∷ [];
    fact_segment_ids = 2 ∷ 1 ∷ [];
    action_items = record { text = "перевыпуск"; evidence_segment_ids = 2 ∷ [] } ∷ [];
  };
  policies = registry;
  run_id = 7;
  versions = record {
    taxonomy_version = "taxonomy/v1";
    quality_rubric_version = "quality/v1";
    compliance_policy_version = "compliance/v1";
  };
}

rubric_valid : validate_rubric registry.quality ≡ true
unfolding validate_rubric
rubric_valid = refl

call-IsInput : IsInput call
unfolding is_unique is_evidence contains is_long_text is_id
call-IsInput = record {
  intervals = refl;
  unique_segments = refl;
  classified = refl;
  assessed = refl;
  complied = refl;
  summarized = refl;
  acted = refl;
  worded = refl;
  sentences = omega arith;
  taxonomy_named = refl;
  quality_named = refl;
  compliance_named = refl;
  rubric = rubric_valid;
}

-- The checks of the references accept the example, its summary fits, and its versions are those of the policies.
accepted :
    (validate_results call ≡ ok tt) × (summary_fits call ≡ true) × (versions_agree call ≡ true)
unfolding validate_results validate_classification check_priority allowed_priorities contains
    require_known_evidence subset validate_quality validate_item criterion validate_compliance
    check_severity rule validate_summary for_each
accepted = (refl, refl, refl)

quality_total-le_example :
    (total : ℕ) × (quality_total assessment registry ≡ ok total) × (total ≤ 10000)
quality_total-le_example = quality_total-le assessment registry rubric_valid

quality_total-all_passed_example : quality_total assessment registry ≡ ok 10000
quality_total-all_passed_example = quality_total-all_passed assessment registry rubric_valid refl

unique_quality_evidence_iff_example :
    (is_unique (unique_quality_evidence assessment) ≡ true)
    × (contains (unique_quality_evidence assessment) 2 ≡ contains (quality_evidence assessment) 2)
unique_quality_evidence_iff_example = unique_quality_evidence_iff assessment 2

aggregate_analysis-eq_example :
    (total : ℕ) × (quality_total call.quality call.policies ≡ ok total)
    × (aggregate_analysis call (pos 5) ≡ (
        validate_results call
        >> (require (summary_fits call) validation_error
            >> (require (versions_agree call) validation_error
                >> ok (record {
                  response = response_of call 5 total;
                  sanitized_record = sanitized_of call 5 total;
                })))))
aggregate_analysis-eq_example = aggregate_analysis-eq call 5 call-IsInput
