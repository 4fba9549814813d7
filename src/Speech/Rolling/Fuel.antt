-- ===== src/Speech/Rolling/Fuel.antt =====
-- The rounds of the Ogg validator of services/speech/streaming.py come to an end.
use mtbank_ai_call_analytics.Prelude.{
  ℕ, zero, suc, ◌<◌, ◌≡◌, ap, arith, List, [], ◌++◌, length, length-append, raise, ◌⊎◌, inl, inr,
  ◌≢◌,
}
use mtbank_ai_call_analytics.Speech.Rolling.Ogg.{
  OggValidator, out_of_fuel, complete, refused, find_page, accept_page, after_page, cut_pages, feed,
}
use mtbank_ai_call_analytics.Speech.Rolling.Cuts.{find_page-is_page, page_size-ge}
use mtbank_ai_call_analytics.Speech.Rolling.Feeding.{head_page, pending-accept_page}

length-head :
    (v : OggValidator)
    → find_page v.pending ≡ complete
    → length (accept_page v (head_page v)).pending < length v.pending
length-head v h =
    let size = (find_page-is_page v.pending h).1 in
    let split = ap length (pending-accept_page v h) in
    let sum = length-append (head_page v) (accept_page v (head_page v)).pending in
    omega (arith, size, split, sum, page_size-ge v.pending)

find_page-ne-out_of_fuel : (xs : List ℕ) → find_page xs ≢ refused out_of_fuel
unfolding find_page
find_page-ne-out_of_fuel xs h = ground arith

raise-cases :
    (fuel : ℕ) (validated : List ℕ) (v : OggValidator)
    → (cut_pages (suc fuel) validated v).0 ≡ raise out_of_fuel
    → (find_page v.pending ≡ refused out_of_fuel)
      ⊎ ((find_page v.pending ≡ complete)
          × ((cut_pages fuel (validated ++ head_page v) (accept_page v (head_page v))).0
              ≡ raise out_of_fuel))
unfolding cut_pages after_page
raise-cases fuel validated v h = ground arith

cut_pages-ne-out_of_fuel :
    (fuel : ℕ) (validated : List ℕ) (v : OggValidator)
    → length v.pending < fuel
    → (cut_pages fuel validated v).0 ≢ raise out_of_fuel
cut_pages-ne-out_of_fuel zero validated v enough h = absurd (omega (arith, enough))
cut_pages-ne-out_of_fuel (suc fuel) validated v enough h = elim (raise-cases fuel validated v h) [
  | inl none_left ↦ find_page-ne-out_of_fuel v.pending none_left
  | inr on ↦
      cut_pages-ne-out_of_fuel fuel (validated ++ head_page v) (accept_page v (head_page v))
        (omega (arith, enough, length-head v on.0)) on.1
]

-- The fuel of `feed`, one more than the bytes that it looks at, is enough for every frame: each round
-- that goes on takes a page of at least 27 bytes away.
pub feed-ne-out_of_fuel : (frame : List ℕ) (v : OggValidator) → (feed frame v).0 ≢ raise out_of_fuel
unfolding feed
feed-ne-out_of_fuel frame v h =
    let w : OggValidator = record v { pending = v.pending ++ frame } in
    let enough = cut_pages-ne-out_of_fuel (suc (length (v.pending ++ frame))) [] w (omega arith) in
    ground (arith, enough)
