-- ===== src/Speech/Rolling/Ogg.antt =====
-- `_OggLogicalStreamValidator` of services/speech/streaming.py: the pages of one Ogg stream, cut out
-- of frames of any size. The bit masks of a byte are written as divisions.
use mtbank_ai_call_analytics.Prelude.{
  ℕ, zero, suc, ◌+◌, ◌*◌, ◌/◌, ◌%◌, ◌^◌, max, Bool, false, not, ◌&&◌, ◌||◌, Option, none, some,
  List, [], ◌∷◌, ◌++◌, length, ltb, eqb, if◌then◌else◌, Result, ok, raise,
}
use mtbank_ai_call_analytics.Speech.Start.{starts_with}
use mtbank_ai_call_analytics.Speech.Rolling.Defs.{drop}

abbrev pub header_bytes : ℕ
header_bytes = 27

abbrev pub max_page_bytes : ℕ
max_page_bytes = 27 + 255 + 255 * 255

abbrev pub sequence_bound : ℕ
sequence_bound = 2 ^ 32

abbrev pub capture_pattern : List ℕ
capture_pattern = 79 ∷ 103 ∷ 103 ∷ 83 ∷ []

abbrev pub opus_head : List ℕ
opus_head = 79 ∷ 112 ∷ 117 ∷ 115 ∷ 72 ∷ 101 ∷ 97 ∷ 100 ∷ []

pub record OggValidator : Type 0 where
  pub pending : List ℕ
  pub max_pending_bytes : ℕ
  pub serial_number : Option ℕ
  pub expected_page_sequence : Option ℕ
  pub page_count : ℕ
  pub saw_eos : Bool

pub data OggError : Type 0 where
  exceeded malformed discontinuous out_of_fuel : OggError

unfoldable pub new_validator : ℕ → OggValidator
new_validator max_frame_bytes = record {
  pending = [];
  max_pending_bytes = max_frame_bytes + max max_frame_bytes max_page_bytes;
  serial_number = none;
  expected_page_sequence = none;
  page_count = 0;
  saw_eos = false;
}

-- xs[:n]
unfoldable pub take : ℕ → List ℕ → List ℕ
take zero xs = []
take (suc n) [] = []
take (suc n) (x ∷ xs) = x ∷ take n xs

-- xs[i], where it is in range.
unfoldable pub byte_at : List ℕ → ℕ → ℕ
byte_at [] i = 0
byte_at (x ∷ xs) zero = x
byte_at (x ∷ xs) (suc i) = byte_at xs i

-- int.from_bytes(xs, "little")
unfoldable pub from_little : List ℕ → ℕ
from_little [] = 0
from_little (x ∷ xs) = x + 256 * from_little xs

unfoldable pub total : List ℕ → ℕ
total [] = 0
total (x ∷ xs) = x + total xs

unfoldable pub is_continued : List ℕ → Bool
is_continued page = eqb (byte_at page 5 % 2) 1

unfoldable pub is_first : List ℕ → Bool
is_first page = eqb (byte_at page 5 / 2 % 2) 1

unfoldable pub is_last : List ℕ → Bool
is_last page = eqb (byte_at page 5 / 4 % 2) 1

unfoldable pub serial_of : List ℕ → ℕ
unfolding from_little
serial_of page = from_little (take 4 (drop 14 page))

unfoldable pub sequence_of : List ℕ → ℕ
unfolding from_little
sequence_of page = from_little (take 4 (drop 18 page))

unfoldable pub segments_end : List ℕ → ℕ
segments_end pending = header_bytes + byte_at pending 26

-- `page_bytes`
unfoldable pub page_size : List ℕ → ℕ
page_size pending =
    segments_end pending + total (take (byte_at pending 26) (drop header_bytes pending))

unfoldable pub well_formed : List ℕ → Bool
well_formed pending = eqb (byte_at pending 4) 0 && eqb (byte_at pending 5 / 8) 0

-- What the loop finds at the head of the pending bytes.
pub data Cut : Type 0 where
  incomplete complete : Cut
  refused : OggError → Cut

unfoldable pub find_page : List ℕ → Cut
find_page pending =
    if ltb (length pending) header_bytes
    then incomplete
    else if not (starts_with capture_pattern pending)
    then refused malformed
    else if not (well_formed pending)
    then refused malformed
    else if ltb (length pending) (segments_end pending)
    then incomplete
    else if ltb max_page_bytes (page_size pending)
    then refused exceeded
    else if ltb (length pending) (page_size pending)
    then incomplete
    else complete

unfoldable pub is_value : Option ℕ → ℕ → Bool
is_value none n = false
is_value (some m) n = eqb n m

unfoldable pub page_allowed : OggValidator → List ℕ → Bool
page_allowed v page =
    if eqb v.page_count 0
    then is_first page
      && not (is_continued page)
      && eqb (sequence_of page) 0
      && starts_with opus_head (drop (segments_end page) page)
    else not (is_first page)
      && is_value v.serial_number (serial_of page)
      && is_value v.expected_page_sequence (sequence_of page)

-- `_validate_page`, and the removal of the page from the pending bytes.
unfoldable pub accept_page : OggValidator → List ℕ → OggValidator
accept_page v page = record v {
  pending = drop (length page) v.pending;
  serial_number = if eqb v.page_count 0 then some (serial_of page) else v.serial_number;
  expected_page_sequence = some ((sequence_of page + 1) % sequence_bound);
  page_count = v.page_count + 1;
  saw_eos = is_last page || v.saw_eos;
}

abbrev pub Fed : Type 0
Fed = Result OggError (List ℕ) × OggValidator

unfoldable pub after_page : OggValidator → (OggValidator → Fed) → List ℕ → Fed
after_page v next validated =
    if v.saw_eos
    then if eqb (length v.pending) 0 then (ok validated, v) else (raise discontinuous, v)
    else next v

-- `while True`, on fuel: each round that goes on takes a page away.
unfoldable pub cut_pages : ℕ → List ℕ → OggValidator → Fed
unfolding after_page accept_page
cut_pages zero validated v = (raise out_of_fuel, v)
cut_pages (suc fuel) validated v = elim (find_page v.pending) [
  | incomplete ↦ (ok validated, v)
  | refused e ↦ (raise e, v)
  | complete ↦
      let page = take (page_size v.pending) v.pending in
      if page_allowed v page
      then after_page (accept_page v page) (cut_pages fuel (validated ++ page)) (validated ++ page)
      else (raise discontinuous, v)
]

-- `feed`
unfoldable pub feed : List ℕ → OggValidator → Fed
feed payload v =
    if v.saw_eos || ltb v.max_pending_bytes (length v.pending + length payload)
    then (raise exceeded, v)
    else cut_pages (suc (length (v.pending ++ payload))) []
        (record v { pending = v.pending ++ payload })

-- `finish`: true where it does not raise.
unfoldable pub finish_stream : OggValidator → Bool
finish_stream v = eqb (length v.pending) 0 && not (eqb v.page_count 0) && v.saw_eos

unfoldable pub join_fed : Fed → Fed → Fed
join_fed (raise e, v) rest = (raise e, v)
join_fed (ok xs, v) (raise e, w) = (raise e, w)
join_fed (ok xs, v) (ok ys, w) = (ok (xs ++ ys), w)

-- Frames, up to the first that is refused.
unfoldable pub feed_all : List (List ℕ) → OggValidator → Fed
unfolding join_fed
feed_all [] v = (ok [], v)
feed_all (frame ∷ frames) v = let first = feed frame v in join_fed first (feed_all frames first.1)
