-- ===== src/Examples/Ogg.antt =====
-- The Ogg validator of services/speech/streaming.py over two pages in three frames.
use mtbank_ai_call_analytics.Prelude.{
  ℕ, ◌+◌, ◌≡◌, ◌≢◌, refl, true, some, List, [], ◌∷◌, ◌++◌, ok, raise,
}
use mtbank_ai_call_analytics.Speech.Start.{starts_with}
use mtbank_ai_call_analytics.Speech.Rolling.{drop}
use mtbank_ai_call_analytics.Speech.Rolling.Ogg.{
  OggValidator, out_of_fuel, new_validator, take, byte_at, from_little, total, is_continued,
  is_first, is_last, serial_of, sequence_of, segments_end, page_size, well_formed, find_page,
  is_value, page_allowed, accept_page, after_page, cut_pages, feed, finish_stream, join_fed,
  feed_all, opus_head, max_page_bytes,
}
use mtbank_ai_call_analytics.Speech.Rolling.Pages.{IsLogical, HasPassed}
use mtbank_ai_call_analytics.Speech.Rolling.Feeding.{
  joined, feed_all-HasPassed, finish_stream-IsLogical,
}
use mtbank_ai_call_analytics.Speech.Rolling.Fuel.{feed-ne-out_of_fuel}

-- Version, header type, position, serial number 7, page number, checksum.
abbrev header : ℕ → ℕ → List ℕ
header kind number =
    79 ∷ 103 ∷ 103 ∷ 83 ∷ 0 ∷ kind ∷ 0 ∷ 0 ∷ 0 ∷ 0 ∷ 0 ∷ 0 ∷ 0 ∷ 0 ∷ 7 ∷ 0 ∷ 0 ∷ 0 ∷ number ∷ 0 ∷ 0
    ∷ 0 ∷ 0 ∷ 0 ∷ 0 ∷ 0 ∷ []

abbrev opening_page : List ℕ
opening_page = header 2 0 ++ 1 ∷ 8 ∷ opus_head

abbrev closing_page : List ℕ
closing_page = header 4 1 ++ 1 ∷ 2 ∷ 5 ∷ 6 ∷ []

-- The first frame ends inside of the first page.
abbrev frames : List (List ℕ)
frames = header 2 0 ∷ (1 ∷ 8 ∷ (opus_head ++ header 4 1)) ∷ (1 ∷ 2 ∷ 5 ∷ 6 ∷ []) ∷ []

abbrev fed : OggValidator
fed = record {
  pending = [];
  max_pending_bytes = 100 + max_page_bytes;
  serial_number = some 7;
  expected_page_sequence = some 2;
  page_count = 2;
  saw_eos = true;
}

abbrev passed : List ℕ
passed = opening_page ++ closing_page

frames_pass : feed_all frames (new_validator 100) ≡ (ok passed, fed)
unfolding feed_all join_fed feed cut_pages after_page accept_page page_allowed is_value find_page
    well_formed page_size segments_end sequence_of serial_of is_last is_first is_continued total
    from_little byte_at take new_validator drop starts_with
frames_pass = refl

feed_all-HasPassed_example : HasPassed fed passed × (joined frames ≡ passed ++ [])
feed_all-HasPassed_example = feed_all-HasPassed 100 frames passed fed frames_pass

finish_stream-IsLogical_example :
    (passed ≡ joined frames) × ((serial : ℕ) × IsLogical serial 2 true (joined frames))
unfolding finish_stream
finish_stream-IsLogical_example = finish_stream-IsLogical 100 frames passed fed frames_pass refl

feed-ne-out_of_fuel_example : (feed opening_page (new_validator 100)).0 ≢ raise out_of_fuel
feed-ne-out_of_fuel_example = feed-ne-out_of_fuel opening_page (new_validator 100)
