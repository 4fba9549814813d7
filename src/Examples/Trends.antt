-- ===== src/Examples/Trends.antt =====
-- The trends of src/mtbank_ai/trends.py over five records in memory.
use native.Mathlib.Nat.{div-mul-le_self, lt-div-mul-add, div-lt_iff_lt-mul}
use mtbank_ai_call_analytics.Prelude.{
  ◌+◌, ◌*◌, ◌/◌, ◌++◌, ◌↔◌, List, ℕ, ◌≡◌, ◌≢◌, refl, arith, Bool, true, false, ◌&&◌, some, String,
  string_eq, nat_eq, [], ◌∷◌, leb, ok, raise, Result, contains, any, ◌==◌, is_unique, subset,
}
use mtbank_ai_call_analytics.Agent.Contracts.{AgentFailureCode}
use mtbank_ai_call_analytics.Analysis.Models.{SanitizedAnalysisRecord}
use mtbank_ai_call_analytics.Analysis.Trends.{
  TrendsSettings, TrendRequest, TrendSubmission, AgentAnswer, TrendRepository, TrendPreflight,
  TrendAnalysis, IsDivision, new_repository, add_record, add_all, validation_error,
  validate_settings, in_window, created_of, list_sanitized, same_ids, has_topic,
  require_exact_supporting_ids, validate_aggregate, validate_analysis, aggregate_of,
  construct_aggregate, preflight_of, preflight, analysis_of, finalize, conclude, analyze,
}
use mtbank_ai_call_analytics.Analysis.Trends.Answers.{
  IsAttributed, IsReport, analyze-ne-validation_error, analyze-IsReport,
}
use mtbank_ai_call_analytics.Analysis.Trends.Stored.{
  Addition, last_time, InWindow, given, supporting_runs_iff,
}

-- A rate in units of 10^-18, rounded down.
abbrev Rate : Type 0
Rate = ℕ

abbrev divide : ℕ → ℕ → Rate
divide n d = n * 1000000000000000000 / d

-- The rate is within 10^-9 of the quotient.
abbrev is_close : Rate → ℕ → ℕ → Bool
is_close r n d =
    leb (r * d) (n * 1000000000000000000 + 1000000000 * d)
    && leb (n * 1000000000000000000) (r * d + 1000000000 * d)

abbrev in_unit : Rate → Bool
in_unit r = leb r 1000000000000000000

division : IsDivision Rate divide is_close in_unit
division = record {
  close = λ n d h m.
      let unit = n * 1000000000000000000 in
      let below = div-mul-le_self unit d in let above = lt-div-mul-add {a = unit} h in ground arith;
  unit = λ n d h m.
      let below =
        (div-lt_iff_lt-mul {k = d} {x = n * 1000000000000000000} {y = 1000000000000000001} h).1
          (omega arith) in
      ground arith;
}

abbrev settings : TrendsSettings
settings = record { minimum_sample_size = 5; max_window_days = 90; max_records = 200 }

abbrev request : TrendRequest
request = record { window_start = 1000; window_end = 2000; topic = "cards" }

abbrev entry : ℕ → String → SanitizedAnalysisRecord
entry run_id topic = record {
  run_id = run_id;
  classification_topic_id = topic;
  classification_priority_id = "low";
  classification_confidence = 1;
  classification_evidence_segment_ids = [];
  quality_total = 100;
  quality_checklist = record {
    greeting = true;
    need_detection = true;
    solution_provided = true;
    farewell = true;
  };
  quality_evidence_segment_ids = [];
  compliance_passed = true;
  compliance_issues = [];
  action_item_count = 0;
  needs_review = false;
  processing_ms = 1;
  trusted_versions = record {
    taxonomy_version = "1";
    quality_rubric_version = "1";
    compliance_policy_version = "1";
  };
}

abbrev initial : List SanitizedAnalysisRecord
initial = entry 1 "cards" ∷ entry 2 "loans" ∷ entry 3 "cards" ∷ entry 4 "loans" ∷ []

-- The sixth record was created at the end of the window, the fifth just before it.
abbrev additions : List Addition
additions = (entry 6 "cards", 2000) ∷ (entry 5 "cards", 1999) ∷ []

abbrev repository : TrendRepository
repository = record {
  records = initial ++ entry 6 "cards" ∷ entry 5 "cards" ∷ [];
  created_at = (5, 1999) ∷ (6, 2000) ∷ [];
}

abbrev submission : TrendSubmission
submission = record {
  qualitative_pattern = "p";
  confidence = 1;
  recommendation = "r";
  supporting_run_ids = 1 ∷ 3 ∷ 5 ∷ [];
}

abbrev run : TrendPreflight Rate → Result AgentFailureCode AgentAnswer
run p = ok (record { output = some submission; agent_id = "trends" })

run-IsAttributed : IsAttributed Rate divide is_close in_unit run
run-IsAttributed p answer h = cc

abbrev report : TrendAnalysis Rate
report = record {
  window_start = 1000;
  window_end = 2000;
  topic = "cards";
  numerator = 3;
  denominator = 5;
  rate = 600000000000000000;
  run_ids = 1 ∷ 2 ∷ 3 ∷ 4 ∷ 5 ∷ [];
  evidence = 1 ∷ 3 ∷ 5 ∷ [];
  qualitative_pattern = "p";
  confidence = 1;
  recommendation = "r";
  supporting_run_ids = 1 ∷ 3 ∷ 5 ∷ [];
  agent_id = "trends";
}

reported :
    analyze Rate divide is_close in_unit settings request (list_sanitized repository) run
    ≡ ok report
unfolding analyze preflight preflight_of construct_aggregate validate_aggregate aggregate_of
    list_sanitized in_window created_of has_topic conclude finalize require_exact_supporting_ids
    same_ids validate_analysis analysis_of is_unique contains subset
reported = refl

analyze-ne-validation_error_example :
    analyze Rate divide is_close in_unit settings request (list_sanitized repository) run
    ≢ raise validation_error
unfolding validate_settings
analyze-ne-validation_error_example =
    analyze-ne-validation_error Rate divide is_close in_unit division settings request
      (list_sanitized repository) run refl run-IsAttributed

analyze-IsReport_example :
    IsReport Rate divide is_close in_unit settings request
      (list_sanitized repository 1000 2000)
      report
analyze-IsReport_example =
    analyze-IsReport Rate divide is_close in_unit settings request (list_sanitized repository) run
      report reported

added : add_all (new_repository initial) additions ≡ repository
unfolding add_all add_record new_repository
added = refl

supporting_runs_iff_example : (contains report.supporting_run_ids 5 ≡ true) ↔ (
    (any
        (λ (r : SanitizedAnalysisRecord). (5 == r.run_id) && (r.classification_topic_id == "cards"))
        (given initial additions)
      ≡ true)
    × InWindow request (last_time 5 additions))
supporting_runs_iff_example =
    supporting_runs_iff Rate divide is_close in_unit settings request initial additions run report 5
      (rw (added) reported)
