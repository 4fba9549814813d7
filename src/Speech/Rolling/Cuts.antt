-- ===== src/Speech/Rolling/Cuts.antt =====
-- Slices of bytes in the Ogg validator of services/speech/streaming.py, and the page at the head of
-- the pending bytes.
use mtbank_ai_call_analytics.Prelude.{
  ℕ, zero, suc, ◌+◌, ◌<◌, ◌≤◌, ◌≡◌, refl, sym, ap, ◌∙◌, arith, Bool, true, ◌&&◌, List, [], ◌∷◌,
  ◌++◌, length, leb, eqb, subst,
}
use mtbank_ai_call_analytics.Speech.Start.{starts_with}
use mtbank_ai_call_analytics.Speech.Rolling.Defs.{drop}
use mtbank_ai_call_analytics.Speech.Rolling.Ogg.{
  header_bytes, max_page_bytes, capture_pattern, take, byte_at, segments_end, page_size,
  well_formed, complete, find_page,
}

pub take-drop : (n : ℕ) (xs : List ℕ) → take n xs ++ drop n xs ≡ xs
unfolding take drop
take-drop zero xs = refl
take-drop (suc n) [] = refl
take-drop (suc n) (x ∷ xs) = ap (λ (ys : List ℕ). x ∷ ys) (take-drop n xs)

pub length-take : (n : ℕ) (xs : List ℕ) → n ≤ length xs → length (take n xs) ≡ n
unfolding take
length-take zero xs h = refl
length-take (suc n) [] h = absurd (omega (arith, h))
length-take (suc n) (x ∷ xs) h = omega (arith, length-take n xs (omega (arith, h)))

take-append : (n : ℕ) (p r : List ℕ) → n ≤ length p → take n (p ++ r) ≡ take n p
unfolding take
take-append zero p r h = refl
take-append (suc n) [] r h = absurd (omega (arith, h))
take-append (suc n) (x ∷ p) r h =
    ap (λ (ys : List ℕ). x ∷ ys) (take-append n p r (omega (arith, h)))

drop-append : (n : ℕ) (p r : List ℕ) → n ≤ length p → drop n (p ++ r) ≡ drop n p ++ r
unfolding drop
drop-append zero p r h = refl
drop-append (suc n) [] r h = absurd (omega (arith, h))
drop-append (suc n) (x ∷ p) r h = drop-append n p r (omega (arith, h))

length-drop : (n : ℕ) (p : List ℕ) → n ≤ length p → length (drop n p) + n ≡ length p
unfolding drop
length-drop zero p h = omega arith
length-drop (suc n) [] h = absurd (omega (arith, h))
length-drop (suc n) (x ∷ p) h = omega (arith, length-drop n p (omega (arith, h)))

byte_at-append : (p r : List ℕ) (i : ℕ) → i < length p → byte_at (p ++ r) i ≡ byte_at p i
unfolding byte_at
byte_at-append [] r i h = absurd (omega (arith, h))
byte_at-append (x ∷ p) r zero h = refl
byte_at-append (x ∷ p) r (suc i) h = byte_at-append p r i (omega (arith, h))

starts_with-append :
    (c p r : List ℕ) → length c ≤ length p → starts_with c (p ++ r) ≡ starts_with c p
unfolding starts_with
starts_with-append [] p r h = refl
starts_with-append (x ∷ c) [] r h = absurd (omega (arith, h))
starts_with-append (x ∷ c) (y ∷ p) r h =
    ap (λ (b : Bool). eqb x y && b) (starts_with-append c p r (omega (arith, h)))

-- A whole page of Ogg.
abbrev pub is_page : List ℕ → Bool
is_page p =
    starts_with capture_pattern p
    && well_formed p
    && eqb (length p) (page_size p)
    && leb (length p) max_page_bytes

-- The page of which the fields were read before it was cut out.
page_size-append :
    (p r : List ℕ) → segments_end (p ++ r) ≤ length p → page_size (p ++ r) ≡ page_size p
unfolding page_size segments_end
page_size-append p r h =
    let count = byte_at-append p r 26 (omega (arith, h)) in
    let n = byte_at p 26 in
    let few : header_bytes + n ≤ length p =
      subst (λ (k : ℕ). header_bytes + k ≤ length p) count h in
    let rest = length-drop header_bytes p (omega (arith, few)) in
    let cut = drop-append header_bytes p r (omega (arith, few)) in
    let same = take-append n (drop header_bytes p) r (omega (arith, few, rest)) in
    rw (count, cut, same) refl

find_page-fits :
    (xs : List ℕ)
    → find_page xs ≡ complete
    → (header_bytes ≤ length xs)
      × (starts_with capture_pattern xs ≡ true)
      × (well_formed xs ≡ true)
      × (page_size xs ≤ max_page_bytes)
      × (page_size xs ≤ length xs)
unfolding find_page
find_page-fits xs h = ground arith

segments_end-le : (xs : List ℕ) → segments_end xs ≤ page_size xs
unfolding page_size
segments_end-le xs = omega arith

well_formed-append : (p r : List ℕ) → header_bytes ≤ length p → well_formed (p ++ r) ≡ well_formed p
unfolding well_formed
well_formed-append p r h =
    rw (byte_at-append p r 4 (omega (arith, h)), byte_at-append p r 5 (omega (arith, h))) refl

page_at_head :
    (p r : List ℕ)
    → length p ≡ page_size (p ++ r)
    → header_bytes ≤ length p
    → starts_with capture_pattern (p ++ r) ≡ true
    → well_formed (p ++ r) ≡ true
    → page_size (p ++ r) ≤ max_page_bytes
    → is_page p ≡ true
page_at_head p r size long capture form small =
    let whole = segments_end-le (p ++ r) in
    let same = page_size-append p r (omega (arith, size, whole)) in
    let formed = well_formed-append p r long in
    let captured = starts_with-append capture_pattern p r (omega (arith, long)) in
    ground (arith, size, capture, form, small, same, formed, captured)

segments_end-ge : (xs : List ℕ) → header_bytes ≤ segments_end xs
unfolding segments_end
segments_end-ge xs = omega arith

pub page_size-ge : (xs : List ℕ) → header_bytes ≤ page_size xs
page_size-ge xs = omega (arith, segments_end-ge xs, segments_end-le xs)

pub find_page-is_page :
    (xs : List ℕ)
    → find_page xs ≡ complete
    → (is_page (take (page_size xs) xs) ≡ true) × (length (take (page_size xs) xs) ≡ page_size xs)
find_page-is_page xs h =
    let (long, capture, form, small, fits) = find_page-fits xs h in
    let p = take (page_size xs) xs in
    let r = drop (page_size xs) xs in
    let split = take-drop (page_size xs) xs in
    let size = length-take (page_size xs) xs fits in
    let least = page_size-ge xs in
    (
      page_at_head p r (size ∙ ap page_size (sym split)) (omega (arith, size, least))
          (ap (starts_with capture_pattern) split ∙ capture) (ap well_formed split ∙ form)
          (subst (λ (ys : List ℕ). page_size ys ≤ max_page_bytes) (sym split) small),
      size,
    )
