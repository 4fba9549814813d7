-- ===== src/Speech/Rolling/Pages.antt =====
-- The bytes that the Ogg validator of services/speech/streaming.py lets through.
use mtbank_ai_call_analytics.Prelude.{
  ℕ, suc, ◌+◌, ◌%◌, ◌<◌, ◌≡◌, refl, sym, ap, ◌∙◌, arith, Bool, true, false, ◌||◌, some, List, [],
  ◌++◌, subst, ◌⊎◌, inl, inr,
}
use mtbank_ai_call_analytics.Speech.Rolling.Ogg.{
  sequence_bound, OggValidator, is_first, is_last, serial_of, sequence_of, is_value, page_allowed,
  accept_page,
}
use mtbank_ai_call_analytics.Speech.Rolling.Cuts.{is_page}

-- Bytes that are the first pages of one logical stream of Ogg: `count` whole pages with one serial
-- number, numbered from 0 in order (modulo the bound of the field); the first, and no other, is marked
-- as the beginning, and a page that is marked as the end is the last.
pub data IsLogical (serial : ℕ) : ℕ → Bool → List ℕ → Type 0 where
  opening :
      (p : List ℕ)
      → is_page p ≡ true
      → is_first p ≡ true
      → sequence_of p ≡ 0
      → serial_of p ≡ serial
      → IsLogical serial 1 (is_last p) p
  following :
      (count : ℕ) (bytes p : List ℕ)
      → IsLogical serial count false bytes
      → is_page p ≡ true
      → is_first p ≡ false
      → sequence_of p ≡ count % sequence_bound
      → serial_of p ≡ serial
      → IsLogical serial (suc count) (is_last p) (bytes ++ p)

-- What a validator has let through.
abbrev pub HasPassed : OggValidator → List ℕ → Type 0
HasPassed v bytes =
    ((v.page_count ≡ 0) × (v.saw_eos ≡ false) × (bytes ≡ []))
    ⊎ ((serial : ℕ) × (v.serial_number ≡ some serial)
        × (v.expected_page_sequence ≡ some (v.page_count % sequence_bound))
        × (0 < v.page_count)
        × IsLogical serial v.page_count v.saw_eos bytes)

first_allowed :
    (v : OggValidator) (p : List ℕ)
    → v.page_count ≡ 0
    → page_allowed v p ≡ true
    → (is_first p ≡ true) × (sequence_of p ≡ 0)
unfolding page_allowed
first_allowed v p n h = ground arith

later_allowed :
    (v : OggValidator) (p : List ℕ) (serial next : ℕ)
    → 0 < v.page_count
    → v.serial_number ≡ some serial
    → v.expected_page_sequence ≡ some next
    → page_allowed v p ≡ true
    → (is_first p ≡ false) × (serial_of p ≡ serial) × (sequence_of p ≡ next)
unfolding page_allowed is_value
later_allowed v p serial next n s e h = ground arith

pub IsLogical-at :
    (serial : ℕ) {n n' : ℕ} {b b' : Bool} {xs xs' : List ℕ}
    → n ≡ n'
    → b ≡ b'
    → xs ≡ xs'
    → IsLogical serial n b xs
    → IsLogical serial n' b' xs'
IsLogical-at serial {n} {n'} {b} {b'} {xs} {xs'} count last bytes h =
    subst (λ (xs : List ℕ). IsLogical serial n' b' xs) bytes
      (subst (λ (b : Bool). IsLogical serial n' b xs) last
        (subst (λ (n : ℕ). IsLogical serial n b xs) count h))

last_of : (v : OggValidator) (p : List ℕ) → v.saw_eos ≡ false → is_last p ≡ (is_last p || v.saw_eos)
last_of v p h = ground arith

next_number : (n : ℕ) → (n % sequence_bound + 1) % sequence_bound ≡ (n + 1) % sequence_bound
next_number n = omega arith

pub accept_page-HasPassed :
    (v : OggValidator) (p bytes : List ℕ)
    → is_page p ≡ true
    → page_allowed v p ≡ true
    → v.saw_eos ≡ false
    → HasPassed v bytes
    → HasPassed (accept_page v p) (bytes ++ p)
unfolding accept_page
accept_page-HasPassed v p bytes whole allowed running (inl h) =
    let (first, number) = first_allowed v p h.0 allowed in
    inr (
      serial_of p,
      ground (arith, h.0),
      ground (arith, h.0, number),
      omega arith,
      IsLogical-at (serial_of p) (omega (arith, h.0)) (last_of v p running)
          (ap (λ (bytes : List ℕ). bytes ++ p) (sym h.2)) (opening p whole first number refl),
    )
accept_page-HasPassed v p bytes whole allowed running (inr h) =
    let (serial, same, next, some_pages, logical) = h in
    let (later, owner, number) =
      later_allowed v p serial (v.page_count % sequence_bound) some_pages same next allowed in
    let before = IsLogical-at serial refl running refl logical in
    inr (
      serial,
      ground (arith, same, some_pages),
      ap some (ap (λ (n : ℕ). (n + 1) % sequence_bound) number ∙ next_number v.page_count),
      omega arith,
      IsLogical-at serial (omega arith) (last_of v p running) refl
          (following v.page_count bytes p before whole later number owner),
    )
