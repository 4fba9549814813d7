-- ===== src/Analysis/Trends/Answers.antt =====
-- The answers of `analyze` of src/mtbank_ai/trends.py, over any repository.
use mtbank_ai_call_analytics.Prelude.{
  inl, inr, ℕ, ◌-◌, ◌*◌, ◌<◌, ◌≤◌, ◌≡◌, ◌≢◌, refl, ap, ◌∙◌, arith, Bool, true, List, map, length,
  length-map, select, nat_eq, string_eq, String, Result, ok, raise, >>=-eq-ok, >>=-eq-raise,
  Option-cases,
}
use mtbank_ai_call_analytics.Agent.Contracts.{AgentFailureCode}
use mtbank_ai_call_analytics.Analysis.Models.{SanitizedAnalysisRecord}
use mtbank_ai_call_analytics.Analysis.Trends.Defs.{
  TrendsSettings, validate_settings, TrendRequest, validation_error, TrendSubmission, AgentAnswer,
  TrendPreflight, TrendAnalysis, IsDivision, has_topic, validate_analysis, aggregate_of,
  preflight_of, preflight, analysis_of, finalize, conclude, analyze, require_exact_supporting_ids,
  trends_agent_id, day,
}
use mtbank_ai_call_analytics.Analysis.Trends.Reports.{
  IsGrounded, preflight_of-IsGrounded, preflight_of-valid, analysis_accepted, same_ids_iff,
  run_id_of, lengths,
}

module _ (Rate : Type 0) (divide : ℕ → ℕ → Rate) (is_close : Rate → ℕ → ℕ → Bool)
    (in_unit : Rate → Bool) where
  -- The agent of the evidence is the agent that was run.
  abbrev pub IsAttributed : (TrendPreflight Rate → Result AgentFailureCode AgentAnswer) → Type 0
  IsAttributed run =
      (p : TrendPreflight Rate) (answer : AgentAnswer)
      → run p ≡ ok answer
      → answer.agent_id ≡ trends_agent_id

  finalize-valid :
      IsDivision Rate divide is_close in_unit
      → (settings : TrendsSettings) (request : TrendRequest)
        (records : List SanitizedAnalysisRecord) (p : TrendPreflight Rate)
        (submission : TrendSubmission) (agent_id : String)
      → validate_settings settings ≡ true
      → IsGrounded Rate divide is_close in_unit settings request records p
      → agent_id ≡ trends_agent_id
      → finalize Rate divide is_close in_unit p submission agent_id ≢ raise validation_error
  unfolding finalize require_exact_supporting_ids
  finalize-valid division settings request records p submission agent_id v g own h =
      let exact = same_ids_iff submission.supporting_run_ids p.evidence_ids in
      ground (
        arith,
        exact,
        analysis_accepted Rate divide is_close in_unit division settings request records p
            submission v g,
      )

  preflight-valid :
      IsDivision Rate divide is_close in_unit
      → (settings : TrendsSettings) (request : TrendRequest)
        (list : ℕ → ℕ → List SanitizedAnalysisRecord)
      → validate_settings settings ≡ true
      → preflight Rate divide is_close in_unit settings request list ≢ raise validation_error
  unfolding preflight
  preflight-valid division settings request list v h =
      let records = list request.window_start request.window_end in
      ground
        (arith, preflight_of-valid Rate divide is_close in_unit division settings request records v)

  preflight-IsGrounded :
      (settings : TrendsSettings) (request : TrendRequest)
      (list : ℕ → ℕ → List SanitizedAnalysisRecord) (p : TrendPreflight Rate)
      → preflight Rate divide is_close in_unit settings request list ≡ ok p
      → IsGrounded Rate divide is_close in_unit settings request
          (list request.window_start request.window_end)
          p
        × (request.window_end - request.window_start ≤ settings.max_window_days * day)
  unfolding preflight
  preflight-IsGrounded settings request list p h =
      let records = list request.window_start request.window_end in
      let accepted : preflight_of Rate divide is_close in_unit settings request records ≡ ok p =
        ground arith in
      (
        preflight_of-IsGrounded Rate divide is_close in_unit settings request records p accepted,
        ground arith,
      )

  conclude-valid :
      IsDivision Rate divide is_close in_unit
      → (settings : TrendsSettings) (request : TrendRequest)
        (records : List SanitizedAnalysisRecord) (p : TrendPreflight Rate)
        (answer : Result AgentFailureCode AgentAnswer)
      → validate_settings settings ≡ true
      → IsGrounded Rate divide is_close in_unit settings request records p
      → ((a : AgentAnswer) → answer ≡ ok a → a.agent_id ≡ trends_agent_id)
      → conclude Rate divide is_close in_unit p answer ≢ raise validation_error
  unfolding conclude
  conclude-valid division settings request records p (raise code) v g own h = cc
  conclude-valid division settings request records p (ok a) v g own h =
      elim (Option-cases a.output) [
        | inl n ↦ (let q = rw (n) at h in cc)
        | inr s ↦
            finalize-valid division settings request records p s.0 a.agent_id v g (own a refl)
              (rw (s.1) at h)
      ]

  -- With settings in their bounds, a division of floats that is exact enough on quotients of at most 1,
  -- and an agent's run whose evidence names the trends agent, no model refuses what `analyze`
  -- constructs: neither the aggregate, nor the analysis, whatever the repository holds and whatever the
  -- agent submits.
  pub analyze-ne-validation_error :
      IsDivision Rate divide is_close in_unit
      → (settings : TrendsSettings) (request : TrendRequest)
        (list : ℕ → ℕ → List SanitizedAnalysisRecord)
        (run : TrendPreflight Rate → Result AgentFailureCode AgentAnswer)
      → validate_settings settings ≡ true
      → IsAttributed run
      → analyze Rate divide is_close in_unit settings request list run ≢ raise validation_error
  unfolding analyze preflight
  analyze-ne-validation_error division settings request list run v own h =
      elim (>>=-eq-raise (preflight Rate divide is_close in_unit settings request list) _ h) [
        | inl refused ↦ preflight-valid division settings request list v refused
        | inr entered ↦
            let (p, admitted, answered) = entered in
            let grounded = (preflight-IsGrounded settings request list p admitted).0 in
            conclude-valid division settings request (list request.window_start request.window_end)
              p (run p) v grounded (own p) answered
      ]

  -- A submission that was concluded with.
  abbrev IsConcluded : TrendPreflight Rate → TrendAnalysis Rate → TrendSubmission → String → Type 0
  IsConcluded p a submission agent_id =
      (submission.supporting_run_ids ≡ p.evidence_ids)
      × (validate_analysis Rate divide is_close in_unit a ≡ true)
      × (a ≡ analysis_of Rate divide is_close in_unit p submission agent_id)

  finalize-ok :
      (p : TrendPreflight Rate) (submission : TrendSubmission) (agent_id : String)
      (a : TrendAnalysis Rate)
      → finalize Rate divide is_close in_unit p submission agent_id ≡ ok a
      → IsConcluded p a submission agent_id
  unfolding finalize require_exact_supporting_ids
  finalize-ok p submission agent_id a h =
      ground (arith, same_ids_iff submission.supporting_run_ids p.evidence_ids)

  conclude-ok :
      (p : TrendPreflight Rate) (answer : Result AgentFailureCode AgentAnswer)
      (a : TrendAnalysis Rate)
      → conclude Rate divide is_close in_unit p answer ≡ ok a
      → (submission : TrendSubmission) × (agent_id : String) × IsConcluded p a submission agent_id
  unfolding conclude
  conclude-ok p (raise code) a h = cc
  conclude-ok p (ok answer) a h = elim (Option-cases answer.output) [
    | inl n ↦ (let q = rw (n) at h in cc)
    | inr s ↦ (s.0, answer.agent_id, finalize-ok p s.0 answer.agent_id a (rw (s.1) at h))
  ]

  -- What a report states: the settings' bounds, the counts and the runs that it is about.
  pub record IsReport (settings : TrendsSettings) (request : TrendRequest)
      (records : List SanitizedAnalysisRecord) (a : TrendAnalysis Rate) : Type 0 where
    pub windowed : a.window_end - a.window_start ≤ settings.max_window_days * day
    pub asked :
        (a.window_start ≡ request.window_start)
        × (a.window_end ≡ request.window_end)
        × (a.topic ≡ request.topic)
    pub denominator : a.denominator ≡ length records
    pub numerator : a.numerator ≡ length (select (has_topic request.topic) records)
    pub sampled : settings.minimum_sample_size ≤ a.denominator
    pub bounded : a.denominator ≤ settings.max_records
    pub evident : (0 < a.numerator) × (a.numerator ≤ a.denominator)
    pub rated : a.rate ≡ divide a.numerator a.denominator
    pub supported : a.supporting_run_ids ≡ map run_id_of (select (has_topic request.topic) records)
    pub accepted : validate_analysis Rate divide is_close in_unit a ≡ true

  -- Where `analyze` returns, the report is within the bounds of the settings; its denominator is the
  -- number of records of the window and its numerator the number of those with the requested topic,
  -- at least one of them; its rate is their quotient; its supporting runs are exactly these runs; and
  -- the validator of the analysis accepts it.
  pub analyze-IsReport :
      (settings : TrendsSettings) (request : TrendRequest)
      (list : ℕ → ℕ → List SanitizedAnalysisRecord)
      (run : TrendPreflight Rate → Result AgentFailureCode AgentAnswer) (a : TrendAnalysis Rate)
      → analyze Rate divide is_close in_unit settings request list run ≡ ok a
      → IsReport settings request (list request.window_start request.window_end) a
  unfolding analyze analysis_of aggregate_of
  analyze-IsReport settings request list run a h =
      let (p, admitted, answered) = >>=-eq-ok _ _ h in
      let (grounded, windowed) = preflight-IsGrounded settings request list p admitted in
      let (submission, agent_id, concluded) = conclude-ok p (run p) a answered in
      let (exact, accepted, built) = concluded in
      let records = list request.window_start request.window_end in
      let matching = select (has_topic request.topic) records in
      let (total, few) = lengths Rate divide is_close in_unit settings request records p grounded in
      let ids = ap length grounded.evidence_ids ∙ length-map run_id_of matching in
      let aggregate = grounded.aggregate in
      let requested = grounded.requested in
      let supported = exact ∙ grounded.evidence_ids in
      let sampled = grounded.sampled in
      let bounded = grounded.bounded in let evident = grounded.evident in ground arith
