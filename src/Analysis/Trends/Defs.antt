-- ===== src/Analysis/Trends/Defs.antt =====
-- The trends of src/mtbank_ai/trends.py. A rate is what the floating division gives: the type of
-- rates, the division and the two tests that the validator makes of a rate are parameters. Times are
-- counted in microseconds; what the agent's run returns is an argument.
use mtbank_ai_call_analytics.Prelude.{
  ℕ, ◌-◌, ◌*◌, ◌<◌, ◌≤◌, ◌≡◌, Bool, true, false, ◌&&◌, Option, none, some, String, string_eq,
  nat_eq, List, [], ◌∷◌, ◌++◌, map, length, select, ltb, leb, eqb, ◌==◌, if◌then◌else◌, is_unique,
  subset, Result, ok, raise, ◌>>=◌, ◌>>◌, require,
}
use mtbank_ai_call_analytics.Agent.Contracts.{AgentFailureCode, terminal_submit_invalid}
use mtbank_ai_call_analytics.Analysis.Models.{SanitizedAnalysisRecord}

pub record TrendsSettings : Type 0 where
  pub minimum_sample_size : ℕ
  pub max_window_days : ℕ
  pub max_records : ℕ

-- The positive fields, and `TrendsSettings.validate_bounds`.
unfoldable pub validate_settings : TrendsSettings → Bool
validate_settings s =
    ltb 0 s.max_window_days
    && leb 5 s.minimum_sample_size
    && leb s.max_records 250
    && leb s.minimum_sample_size s.max_records

pub record TrendRequest : Type 0 where
  pub window_start : ℕ
  pub window_end : ℕ
  pub topic : String

-- `TrendRequest.validate_window`
unfoldable pub validate_window : TrendRequest → Bool
validate_window r = ltb r.window_start r.window_end

pub data TrendError : Type 0 where
  window_too_long too_many_records duplicate_run_ids sample_too_small no_evidence : TrendError
  runtime_error : AgentFailureCode → TrendError
  validation_error : TrendError

pub record TrendSubmission : Type 0 where
  pub qualitative_pattern : String
  pub confidence : ℕ
  pub recommendation : String
  pub supporting_run_ids : List ℕ

abbrev pub trends_agent_id : String
trends_agent_id = "trends"

abbrev pub day : ℕ
day = 24 * 60 * 60 * 1000000

-- What the runtime returns: its output, where that is a submission, and the agent of the evidence.
pub record AgentAnswer : Type 0 where
  pub output : Option TrendSubmission
  pub agent_id : String

-- `InMemoryTrendRepository`, with the latest creation time of a run first.
pub record TrendRepository : Type 0 where
  pub records : List SanitizedAnalysisRecord
  pub created_at : List (ℕ × ℕ)

unfoldable pub new_repository : List SanitizedAnalysisRecord → TrendRepository
new_repository records = record { records = records; created_at = [] }

unfoldable pub add_record : TrendRepository → SanitizedAnalysisRecord → ℕ → TrendRepository
add_record repository r created_at = record {
  records = repository.records ++ r ∷ [];
  created_at = (r.run_id, created_at) ∷ repository.created_at;
}

-- Calls of `add` one after the other, each with a record and its creation time.
unfoldable pub add_all : TrendRepository → List (SanitizedAnalysisRecord × ℕ) → TrendRepository
unfolding add_record
add_all repository [] = repository
add_all repository ((r, created_at) ∷ rest) = add_all (add_record repository r created_at) rest

-- self._created_at.get(run_id, default)
unfoldable pub created_of : List (ℕ × ℕ) → ℕ → ℕ → ℕ
created_of [] run_id default = default
created_of ((id, at) ∷ rest) run_id default =
    let later = created_of rest run_id default in if id == run_id then at else later

unfoldable pub in_window : TrendRepository → ℕ → ℕ → SanitizedAnalysisRecord → Bool
in_window repository start end r =
    let at = created_of repository.created_at r.run_id start in leb start at && ltb at end

unfoldable pub list_sanitized : TrendRepository → ℕ → ℕ → List SanitizedAnalysisRecord
list_sanitized repository start end = select (in_window repository start end) repository.records

unfoldable pub same_ids : List ℕ → List ℕ → Bool
same_ids [] [] = true
same_ids (x ∷ xs) (y ∷ ys) = (x == y) && same_ids xs ys
same_ids [] (y ∷ ys) = false
same_ids (x ∷ xs) [] = false

unfoldable pub has_topic : String → SanitizedAnalysisRecord → Bool
has_topic topic r = r.classification_topic_id == topic

-- `_require_exact_supporting_ids`
unfoldable pub require_exact_supporting_ids : List ℕ → List ℕ → Result TrendError (Unit {0})
require_exact_supporting_ids submitted expected =
    require (same_ids submitted expected) (runtime_error terminal_submit_invalid)

module _ (Rate : Type 0) where
  pub record TrendAggregateOutput : Type 0 where
    pub topic : String
    pub numerator : ℕ
    pub denominator : ℕ
    pub rate : Rate

  pub record TrendPreflight : Type 0 where
    pub request : TrendRequest
    pub run_ids : List ℕ
    pub evidence_ids : List ℕ
    pub aggregate : TrendAggregateOutput

  pub record TrendAnalysis : Type 0 where
    pub window_start : ℕ
    pub window_end : ℕ
    pub topic : String
    pub numerator : ℕ
    pub denominator : ℕ
    pub rate : Rate
    pub run_ids : List ℕ
    pub evidence : List ℕ
    pub qualitative_pattern : String
    pub confidence : ℕ
    pub recommendation : String
    pub supporting_run_ids : List ℕ
    pub agent_id : String

  module _ (divide : ℕ → ℕ → Rate) (is_close : Rate → ℕ → ℕ → Bool) (in_unit : Rate → Bool) where
    -- For `n ≤ d` the floating quotient of `n` by `d` lies within 10^-9 of `n / d`, and between 0 and 1.
    pub record IsDivision : Type 0 where
      pub close : (n d : ℕ) → 0 < d → n ≤ d → is_close (divide n d) n d ≡ true
      pub unit : (n d : ℕ) → 0 < d → n ≤ d → in_unit (divide n d) ≡ true

    -- The bounds of the fields of `TrendAggregateOutput`.
    unfoldable pub validate_aggregate : TrendAggregateOutput → Bool
    validate_aggregate a = leb 5 a.denominator && in_unit a.rate

    -- The bounds of the fields, `TrendEvidence.validate_run_ids` and `validate_evidence_backed_result`.
    unfoldable pub validate_analysis : TrendAnalysis → Bool
    validate_analysis a =
        leb 5 a.denominator
        && in_unit a.rate
        && leb 5 (length a.run_ids)
        && (leb 1 (length a.evidence) && is_unique a.evidence)
        && leb 1 (length a.supporting_run_ids)
        && is_unique a.run_ids
        && eqb a.denominator (length a.run_ids)
        && subset a.evidence a.run_ids
        && eqb a.numerator (length a.evidence)
        && is_close a.rate a.numerator a.denominator
        && is_unique a.supporting_run_ids
        && same_ids a.supporting_run_ids a.evidence
        && (a.agent_id == trends_agent_id)

    unfoldable pub aggregate_of : TrendRequest → List ℕ → List ℕ → TrendAggregateOutput
    aggregate_of request run_ids evidence_ids = record {
      topic = request.topic;
      numerator = length evidence_ids;
      denominator = length run_ids;
      rate = divide (length evidence_ids) (length run_ids);
    }

    unfoldable pub construct_aggregate :
        TrendAggregateOutput → Result TrendError TrendAggregateOutput
    construct_aggregate a = require (validate_aggregate a) validation_error >> ok a

    -- The records that the port returns.
    unfoldable pub preflight_of :
        TrendsSettings
        → TrendRequest
        → List SanitizedAnalysisRecord
        → Result TrendError TrendPreflight
    preflight_of settings request records =
        let run_ids = map (λ (r : SanitizedAnalysisRecord). r.run_id) records in
        let matching = select (has_topic request.topic) records in
        let evidence_ids = map (λ (r : SanitizedAnalysisRecord). r.run_id) matching in
        require (leb (length records) settings.max_records) too_many_records
        >> (require (is_unique run_ids) duplicate_run_ids
            >> (require (leb settings.minimum_sample_size (length records)) sample_too_small
                >> (require (ltb 0 (length evidence_ids)) no_evidence
                    >> (construct_aggregate (aggregate_of request run_ids evidence_ids)
                        >>= λ aggregate. ok (record {
                          request = request;
                          run_ids = run_ids;
                          evidence_ids = evidence_ids;
                          aggregate = aggregate;
                        })))))

    -- `_preflight`, with the port's method as an argument.
    unfoldable pub preflight :
        TrendsSettings
        → TrendRequest
        → (ℕ → ℕ → List SanitizedAnalysisRecord)
        → Result TrendError TrendPreflight
    preflight settings request list =
        require (leb (request.window_end - request.window_start) (settings.max_window_days * day))
          window_too_long
        >> preflight_of settings request (list request.window_start request.window_end)

    unfoldable pub analysis_of : TrendPreflight → TrendSubmission → String → TrendAnalysis
    analysis_of p submission agent_id = record {
      window_start = p.request.window_start;
      window_end = p.request.window_end;
      topic = p.aggregate.topic;
      numerator = p.aggregate.numerator;
      denominator = p.aggregate.denominator;
      rate = p.aggregate.rate;
      run_ids = p.run_ids;
      evidence = p.evidence_ids;
      qualitative_pattern = submission.qualitative_pattern;
      confidence = submission.confidence;
      recommendation = submission.recommendation;
      supporting_run_ids = submission.supporting_run_ids;
      agent_id = agent_id;
    }

    -- `_finalize`
    unfoldable pub finalize :
        TrendPreflight → TrendSubmission → String → Result TrendError TrendAnalysis
    finalize p submission agent_id =
        require_exact_supporting_ids submission.supporting_run_ids p.evidence_ids
        >> (require (validate_analysis (analysis_of p submission agent_id)) validation_error
            >> ok (analysis_of p submission agent_id))

    -- What `analyze` does with the end of the agent's run.
    unfoldable pub conclude :
        TrendPreflight → Result AgentFailureCode AgentAnswer → Result TrendError TrendAnalysis
    conclude p (raise code) = raise (runtime_error code)
    conclude p (ok answer) = elim answer.output [
      | none ↦ raise (runtime_error terminal_submit_invalid)
      | some submission ↦ finalize p submission answer.agent_id
    ]

    -- `analyze`; `run` is the run of the agent with the tools of the preflight.
    unfoldable pub analyze :
        TrendsSettings
        → TrendRequest
        → (ℕ → ℕ → List SanitizedAnalysisRecord)
        → (TrendPreflight → Result AgentFailureCode AgentAnswer)
        → Result TrendError TrendAnalysis
    analyze settings request list run = preflight settings request list >>= λ p. conclude p (run p)
