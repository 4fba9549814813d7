-- ===== src/Analysis/Trends/Stored.antt =====
-- The trends of src/mtbank_ai/trends.py over the repository in memory, as it is filled by calls of `add`.
use mtbank_ai_call_analytics.Prelude.{
  ℕ, ◌≤◌, ◌<◌, ◌≡◌, ◌↔◌, refl, sym, ap, ◌∙◌, arith, Bool, true, ◌&&◌, Option, none, some, List, [],
  ◌∷◌, ◌++◌, map, append-nil, append_assoc, select, ltb, leb, ◌==◌, contains, nat_eq, string_eq,
  any, Result, ok, if◌then◌else◌,
}
use mtbank_ai_call_analytics.Agent.Contracts.{AgentFailureCode}
use mtbank_ai_call_analytics.Analysis.Models.{SanitizedAnalysisRecord}
use mtbank_ai_call_analytics.Analysis.Trends.Defs.{
  TrendsSettings, TrendRequest, AgentAnswer, TrendPreflight, TrendAnalysis, has_topic, analyze,
  TrendRepository, new_repository, add_record, add_all, created_of, in_window, list_sanitized,
}
use mtbank_ai_call_analytics.Analysis.Trends.Reports.{run_id_of}
use mtbank_ai_call_analytics.Analysis.Trends.Answers.{analyze-IsReport}

-- A call of `add`.
abbrev pub Addition : Type 0
Addition = SanitizedAnalysisRecord × ℕ

-- The creation time that the last call with this run gave.
abbrev pub last_time : ℕ → List Addition → Option ℕ
last_time id [] = none
last_time id ((r, at) ∷ rest) = elim (last_time id rest) [
  | some later ↦ some later
  | none ↦ if r.run_id == id then some at else none
]

-- A run without a creation time counts as created at the start of any window that is asked for.
abbrev pub InWindow : TrendRequest → Option ℕ → Type 0
InWindow request none = request.window_start < request.window_end
InWindow request (some at) = (request.window_start ≤ at) × (at < request.window_end)

-- All records given to the repository, at its construction or later.
abbrev pub given : List SanitizedAnalysisRecord → List Addition → List SanitizedAnalysisRecord
given initial additions = initial ++ map (λ (x : Addition). x.0) additions

records-add_all :
    (xs : List Addition) (repository : TrendRepository)
    → (add_all repository xs).records ≡ given repository.records xs
unfolding add_all add_record
records-add_all [] repository = sym (append-nil repository.records)
records-add_all ((r, at) ∷ xs) repository =
    records-add_all xs (add_record repository r at)
    ∙ append_assoc repository.records (r ∷ []) (map (λ (x : Addition). x.0) xs)

abbrev time_or : Option ℕ → ℕ → ℕ
time_or none default = default
time_or (some at) default = at

created_of-add_all :
    (xs : List Addition) (repository : TrendRepository) (id default : ℕ)
    → created_of (add_all repository xs).created_at id default
      ≡ time_or (last_time id xs) (created_of repository.created_at id default)
unfolding add_all add_record created_of
created_of-add_all [] repository id default = refl
created_of-add_all ((r, at) ∷ xs) repository id default =
    created_of-add_all xs (add_record repository r at) id default ∙ ground arith

contains-select_twice :
    (p q : SanitizedAnalysisRecord → Bool) (rs : List SanitizedAnalysisRecord) (id : ℕ)
    → contains (map run_id_of (select q (select p rs))) id
      ≡ any (λ (r : SanitizedAnalysisRecord). (id == r.run_id) && p r && q r) rs
unfolding contains
contains-select_twice p q [] id = refl
contains-select_twice p q (r ∷ rs) id = ground (arith, contains-select_twice p q rs id)

-- A test of the run alone leaves the search.
any-test_of_run :
    (w : ℕ → Bool) (q : SanitizedAnalysisRecord → Bool) (rs : List SanitizedAnalysisRecord) (id : ℕ)
    → any (λ (r : SanitizedAnalysisRecord). (id == r.run_id) && w r.run_id && q r) rs
      ≡ (w id && any (λ (r : SanitizedAnalysisRecord). (id == r.run_id) && q r) rs)
any-test_of_run w q [] id = ground arith
any-test_of_run w q (r ∷ rs) id =
    ground (arith, any-test_of_run w q rs id, nat_eq.beq_iff id r.run_id)

both_tests {ℓ} :
    {P : Type ℓ} (found inside stored : Bool)
    → found ≡ (inside && stored)
    → (inside ≡ true) ↔ P
    → (found ≡ true) ↔ ((stored ≡ true) × P)
both_tests found inside stored h window =
    (λ f. (ground arith, window.0 (ground arith)), λ v. let w = window.1 v.1 in ground arith)

window_iff :
    (request : TrendRequest) (o : Option ℕ)
    → ((leb request.window_start (time_or o request.window_start)
          && ltb (time_or o request.window_start) request.window_end)
        ≡ true)
      ↔ InWindow request o
window_iff request none = (λ h. ground arith, λ h. ground arith)
window_iff request (some at) = (λ h. ground arith, λ h. ground arith)

-- A repository that was built from some records and filled by any calls of `add`: where `analyze`
-- returns over it, the report names a run exactly if one of all these records is of this run and has
-- the requested topic, and the last creation time given for the run lies in the window of the request,
-- its start included and its end not, or no time was given for the run.
pub supporting_runs_iff :
    (Rate : Type 0) (divide : ℕ → ℕ → Rate) (is_close : Rate → ℕ → ℕ → Bool) (in_unit : Rate → Bool)
    (settings : TrendsSettings) (request : TrendRequest) (initial : List SanitizedAnalysisRecord)
    (additions : List Addition) (run : TrendPreflight Rate → Result AgentFailureCode AgentAnswer)
    (a : TrendAnalysis Rate) (id : ℕ)
    → analyze Rate divide is_close in_unit settings request
        (list_sanitized (add_all (new_repository initial) additions))
        run
      ≡ ok a
    → (contains a.supporting_run_ids id ≡ true) ↔ (
        (any
            (λ (r : SanitizedAnalysisRecord).
              (id == r.run_id) && (r.classification_topic_id == request.topic))
            (given initial additions)
          ≡ true)
        × InWindow request (last_time id additions))
unfolding list_sanitized in_window has_topic new_repository created_of
supporting_runs_iff Rate divide is_close in_unit settings request initial additions run a id h =
    let start = request.window_start in
    let end = request.window_end in
    let repository = add_all (new_repository initial) additions in
    let times = repository.created_at in
    let report =
      analyze-IsReport Rate divide is_close in_unit settings request (list_sanitized repository) run
        a h in
    let inside : ℕ → Bool = λ run_id.
      leb start (created_of times run_id start) && ltb (created_of times run_id start) end in
    let named =
      ap (λ (ids : List ℕ). contains ids id) report.supported
      ∙ contains-select_twice (in_window repository start end) (has_topic request.topic)
          repository.records id
      ∙ any-test_of_run inside (has_topic request.topic) repository.records id in
    let stored = records-add_all additions (new_repository initial) in
    let timed = created_of-add_all additions (new_repository initial) id start in
    both_tests _ _ _
      (named ∙ (λ i.
        (leb start (timed i) && ltb (timed i) end)
        && any (λ (r : SanitizedAnalysisRecord). (id == r.run_id) && has_topic request.topic r)
            (stored i)))
      (window_iff request (last_time id additions))
