-- ===== src/Agent/Events/Payload.antt =====
-- The payload of an event: `_validate_payload`, and the sorted attributes.
use Prim.Native.Char.{code}
use mtbank_ai_call_analytics.Prelude.{
  ℕ, ◌+◌, String, ◌≡◌, refl, Bool, true, false, not, ◌&&◌, ◌||◌, List, [], ◌∷◌, map, ltb, leb, eqb,
  if◌then◌else◌, any, contains, is_unique, string_eq, ◌==◌, arith, eq_iff, All, Bool-cases, inl,
  inr,
}
use mtbank_ai_call_analytics.Agent.Events.Types.{EventAttribute, require_unique_keys}

abbrev codes : String → List ℕ
codes String.[] = []
codes (String.◌∷◌ c s) = code c ∷ codes s

-- `casefold` of an ASCII letter.
fold : ℕ → ℕ
fold c = if leb b'A' c && leb c b'Z' then c + 32 else c

starts_with : List ℕ → List ℕ → Bool
starts_with [] text = true
starts_with (c ∷ cs) [] = false
starts_with (c ∷ cs) (d ∷ ds) = eqb c d && starts_with cs ds

-- marker in text
occurs : List ℕ → List ℕ → Bool
unfolding starts_with
occurs marker [] = starts_with marker []
occurs marker (c ∷ cs) = starts_with marker (c ∷ cs) || occurs marker cs

same : List ℕ → List ℕ → Bool
same [] [] = true
same (c ∷ cs) (d ∷ ds) = eqb c d && same cs ds
same _ _ = false

-- text.endswith(suffix)
ends_with : List ℕ → List ℕ → Bool
unfolding same
ends_with suffix [] = same suffix []
ends_with suffix (c ∷ cs) = same suffix (c ∷ cs) || ends_with suffix cs

abbrev pub raw_payload_markers : List String
raw_payload_markers =
    "api_key" ∷ "argument" ∷ "authorization" ∷ "body" ∷ "content" ∷ "prompt" ∷ "response" ∷ "secret"
    ∷ "transcript" ∷ "value" ∷ []

abbrev pub safe_sensitive_suffixes : List String
safe_sensitive_suffixes = "_bytes" ∷ "_code" ∷ "_hash" ∷ "_id" ∷ []

unfoldable pub is_redacted : String → Bool
unfolding fold occurs ends_with
is_redacted key =
    let normalized = map fold (codes key) in
    not (any (λ m. occurs (codes m) normalized) raw_payload_markers)
    || any (λ s. ends_with (codes s) normalized) safe_sensitive_suffixes

-- `_validate_payload`: true where it does not raise.
unfoldable pub validate_payload : List EventAttribute → Bool
validate_payload [] = true
validate_payload (a ∷ rest) = is_redacted a.key && validate_payload rest

before : List ℕ → List ℕ → Bool
before [] ds = true
before (c ∷ cs) [] = false
before (c ∷ cs) (d ∷ ds) = ltb c d || (eqb c d && before cs ds)

insert_attribute : EventAttribute → List EventAttribute → List EventAttribute
unfolding before
insert_attribute a [] = a ∷ []
insert_attribute a (b ∷ rest) =
    if before (codes a.key) (codes b.key) then a ∷ b ∷ rest else b ∷ insert_attribute a rest

-- `sorted(payload.items())`; the keys of a mapping differ, so that they alone decide.
unfoldable pub sort_payload : List EventAttribute → List EventAttribute
unfolding insert_attribute
sort_payload [] = []
sort_payload (a ∷ rest) = insert_attribute a (sort_payload rest)

key_of : EventAttribute → String
key_of a = a.key

contains-insert :
    (k : String) (a : EventAttribute) (l : List EventAttribute)
    → contains (map (λ x. x.key) (insert_attribute a l)) k
      ≡ ((k == a.key) || contains (map (λ x. x.key) l) k)
unfolding insert_attribute contains
contains-insert k a [] = refl
contains-insert k a (b ∷ rest) = ground (arith, contains-insert k a rest)

unique-insert :
    (a : EventAttribute) (l : List EventAttribute)
    → contains (map (λ x. x.key) l) a.key ≡ false
    → require_unique_keys l ≡ true
    → require_unique_keys (insert_attribute a l) ≡ true
unfolding insert_attribute contains require_unique_keys is_unique
unique-insert a [] h u = refl
unique-insert a (b ∷ rest) h u = ground (
  arith,
  unique-insert a rest,
  contains-insert b.key a rest,
  eq_iff b.key a.key,
  eq_iff a.key b.key,
)

contains-sort :
    (k : String) (l : List EventAttribute)
    → contains (map (λ x. x.key) (sort_payload l)) k ≡ contains (map (λ x. x.key) l) k
unfolding sort_payload contains
contains-sort k [] = refl
contains-sort k (a ∷ rest) =
    ground (arith, contains-insert k a (sort_payload rest), contains-sort k rest)

-- Sorting keeps the keys of a payload different.
pub unique-sort :
    (l : List EventAttribute)
    → require_unique_keys l ≡ true
    → require_unique_keys (sort_payload l) ≡ true
unfolding sort_payload require_unique_keys is_unique
unique-sort [] u = refl
unique-sort (a ∷ rest) u =
    ground (arith, unique-insert a (sort_payload rest), contains-sort a.key rest, unique-sort rest)

module _ {ℓ} (P : EventAttribute → Type ℓ) where
  All-insert :
      (a : EventAttribute) (l : List EventAttribute) → P a → All P l → All P (insert_attribute a l)
  unfolding insert_attribute
  All-insert a [] p h = (p, tt)
  All-insert a (b ∷ rest) p h = elim (Bool-cases (before (codes a.key) (codes b.key))) [
    | inl first ↦ rw (first) (p, h)
    | inr later ↦ rw (later) (h.0, All-insert a rest p h.1)
  ]

  -- Sorting keeps what holds of each attribute.
  pub All-sort : (l : List EventAttribute) → All P l → All P (sort_payload l)
  unfolding sort_payload
  All-sort [] h = tt
  All-sort (a ∷ rest) h = All-insert a (sort_payload rest) h.0 (All-sort rest h.1)
