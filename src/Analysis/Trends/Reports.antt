-- ===== src/Analysis/Trends/Reports.antt =====
-- What `analyze` of src/mtbank_ai/trends.py may report, and that its models accept it.
use mtbank_ai_call_analytics.Prelude.{
  ℕ, ◌<◌, ◌≤◌, ◌≡◌, ◌≢◌, refl, ap, subst, ◌∙◌, arith, Bool, true, List, [], ◌∷◌, map, length,
  length-map, length-select, select, is_unique, subset, contains, subset_weaken, nat_eq, string_eq,
  ok, raise,
}
use mtbank_ai_call_analytics.Analysis.Models.{SanitizedAnalysisRecord}
use mtbank_ai_call_analytics.Analysis.Trends.Defs.{
  TrendsSettings, validate_settings, TrendRequest, validation_error, TrendSubmission,
  TrendPreflight, IsDivision, same_ids, has_topic, validate_aggregate, validate_analysis,
  aggregate_of, construct_aggregate, preflight_of, analysis_of, trends_agent_id,
}

pub same_ids_iff : (xs ys : List ℕ) → same_ids xs ys ≡ true → xs ≡ ys
unfolding same_ids
same_ids_iff [] [] h = refl
same_ids_iff [] (y ∷ ys) h = cc
same_ids_iff (x ∷ xs) [] h = cc
same_ids_iff (x ∷ xs) (y ∷ ys) h = ground (arith, same_ids_iff xs ys)

same_ids_refl : (xs : List ℕ) → same_ids xs xs ≡ true
unfolding same_ids
same_ids_refl [] = refl
same_ids_refl (x ∷ xs) = ground (arith, same_ids_refl xs)

abbrev pub run_id_of : SanitizedAnalysisRecord → ℕ
run_id_of r = r.run_id

module _ (p : SanitizedAnalysisRecord → Bool) where
  contains-select :
      (rs : List SanitizedAnalysisRecord) (id : ℕ)
      → contains (map run_id_of (select p rs)) id ≡ true
      → contains (map run_id_of rs) id ≡ true
  unfolding contains
  contains-select [] id h = h
  contains-select (r ∷ rs) id h = ground (arith, contains-select rs id)

  subset-select :
      (rs : List SanitizedAnalysisRecord)
      → subset (map run_id_of (select p rs)) (map run_id_of rs) ≡ true
  unfolding subset contains
  subset-select [] = refl
  subset-select (r ∷ rs) = ground (
    arith,
    subset-select rs,
    subset_weaken (map run_id_of (select p rs)) (map run_id_of rs) r.run_id,
  )

  is_unique-select :
      (rs : List SanitizedAnalysisRecord)
      → is_unique (map run_id_of rs) ≡ true
      → is_unique (map run_id_of (select p rs)) ≡ true
  unfolding is_unique
  is_unique-select [] h = refl
  is_unique-select (r ∷ rs) h = ground (arith, is_unique-select rs, contains-select rs r.run_id)

module _ (Rate : Type 0) (divide : ℕ → ℕ → Rate) (is_close : Rate → ℕ → ℕ → Bool)
    (in_unit : Rate → Bool) where
  -- What a preflight establishes.
  pub record IsGrounded (settings : TrendsSettings) (request : TrendRequest)
      (records : List SanitizedAnalysisRecord) (p : TrendPreflight Rate) : Type 0 where
    pub requested : p.request ≡ request
    pub run_ids : p.run_ids ≡ map run_id_of records
    pub evidence_ids : p.evidence_ids ≡ map run_id_of (select (has_topic request.topic) records)
    pub aggregate :
        p.aggregate ≡ aggregate_of Rate divide is_close in_unit request p.run_ids p.evidence_ids
    pub unique : is_unique p.run_ids ≡ true
    pub sampled : settings.minimum_sample_size ≤ length records
    pub bounded : length records ≤ settings.max_records
    pub evident : 0 < length p.evidence_ids

  pub preflight_of-IsGrounded :
      (settings : TrendsSettings) (request : TrendRequest) (records : List SanitizedAnalysisRecord)
      (p : TrendPreflight Rate)
      → preflight_of Rate divide is_close in_unit settings request records ≡ ok p
      → IsGrounded settings request records p
  unfolding preflight_of construct_aggregate
  preflight_of-IsGrounded settings request records p h = ground arith

  pub lengths :
      (settings : TrendsSettings) (request : TrendRequest) (records : List SanitizedAnalysisRecord)
      (p : TrendPreflight Rate)
      → IsGrounded settings request records p
      → (length p.run_ids ≡ length records) × (length p.evidence_ids ≤ length p.run_ids)
  lengths settings request records p g =
      let matching = select (has_topic request.topic) records in
      let all_ids = ap length g.run_ids ∙ length-map run_id_of records in
      let ids = ap length g.evidence_ids ∙ length-map run_id_of matching in
      (all_ids, omega (arith, all_ids, ids, length-select (has_topic request.topic) records))

  module _ (division : IsDivision Rate divide is_close in_unit) where
    aggregate_accepted :
        (settings : TrendsSettings) (request : TrendRequest)
        (records : List SanitizedAnalysisRecord)
        → validate_settings settings ≡ true
        → settings.minimum_sample_size ≤ length records
        → validate_aggregate Rate divide is_close in_unit (
            aggregate_of Rate divide is_close in_unit request
              (map run_id_of records)
              (map run_id_of (select (has_topic request.topic) records)))
          ≡ true
    unfolding validate_settings validate_aggregate aggregate_of
    aggregate_accepted settings request records v m =
        let matching = select (has_topic request.topic) records in
        let all_ids = length-map run_id_of records in
        let ids = length-map run_id_of matching in
        let fewer = length-select (has_topic request.topic) records in
        ground (
          arith,
          all_ids,
          ids,
          fewer,
          division.unit (length (map run_id_of matching)) (length (map run_id_of records)),
        )

    pub preflight_of-valid :
        (settings : TrendsSettings) (request : TrendRequest)
        (records : List SanitizedAnalysisRecord)
        → validate_settings settings ≡ true
        → preflight_of Rate divide is_close in_unit settings request records
          ≢ raise validation_error
    unfolding preflight_of construct_aggregate
    preflight_of-valid settings request records v h =
        ground (arith, aggregate_accepted settings request records v)

    -- The model of the analysis accepts what a preflight and the exact evidence give.
    pub analysis_accepted :
        (settings : TrendsSettings) (request : TrendRequest)
        (records : List SanitizedAnalysisRecord) (p : TrendPreflight Rate)
        (submission : TrendSubmission)
        → validate_settings settings ≡ true
        → IsGrounded settings request records p
        → submission.supporting_run_ids ≡ p.evidence_ids
        → validate_analysis Rate divide is_close in_unit
            (analysis_of Rate divide is_close in_unit p submission trends_agent_id)
          ≡ true
    unfolding validate_settings validate_analysis analysis_of aggregate_of
    analysis_accepted settings request records p submission v g exact =
        let topic = has_topic request.topic in
        let n = length p.evidence_ids in
        let d = length p.run_ids in
        let (total, few) = lengths settings request records p g in
        let ids : is_unique (map run_id_of records) ≡ true =
          subst (λ (ids : List ℕ). is_unique ids ≡ true) g.run_ids g.unique in
        let part : subset p.evidence_ids p.run_ids ≡ true =
          rw (g.evidence_ids, g.run_ids) (subset-select topic records) in
        let once : is_unique p.evidence_ids ≡ true =
          rw (g.evidence_ids) (is_unique-select topic records ids) in
        let same : same_ids submission.supporting_run_ids p.evidence_ids ≡ true =
          rw (exact) (same_ids_refl p.evidence_ids) in
        let supported : is_unique submission.supporting_run_ids ≡ true = rw (exact) once in
        let counted : length submission.supporting_run_ids ≡ n = ap length exact in
        let close = division.close n d (omega (arith, few, g.evident)) few in
        let unit = division.unit n d (omega (arith, few, g.evident)) few in
        let aggregate = g.aggregate in
        let unique = g.unique in let evident = g.evident in let sampled = g.sampled in ground arith
