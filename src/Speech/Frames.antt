-- ===== src/Speech/Frames.antt =====
-- The binary frames of a stream: `sequence.to_bytes(4, "big") + frame`, and the parser of the receiver.
use mtbank_ai_call_analytics.Prelude.{
  ℕ, ◌+◌, ◌*◌, ◌/◌, ◌%◌, ◌<◌, ◌≡◌, subst, Option, none, some, List, [], ◌∷◌, ◌++◌, ltb, eqb,
  if◌then◌else◌, arith,
}

-- `sequence.to_bytes(4, "big")`, or `none` where it overflows.
unfoldable pub to_bytes : ℕ → Option (List ℕ)
to_bytes n =
    if ltb n 4294967296
    then some (n / 16777216 ∷ n / 65536 % 256 ∷ n / 256 % 256 ∷ n % 256 ∷ [])
    else none

-- `int.from_bytes(value[:4], "big")`
unfoldable pub from_bytes : ℕ → ℕ → ℕ → ℕ → ℕ
from_bytes a b c d = a * 16777216 + b * 65536 + c * 256 + d

unfoldable pub parse_streaming_binary_frame : List ℕ → ℕ → Option (ℕ × List ℕ)
parse_streaming_binary_frame (a ∷ b ∷ c ∷ d ∷ e ∷ rest) expected_sequence =
    if eqb (from_bytes a b c d) expected_sequence then some (from_bytes a b c d, e ∷ rest) else none
parse_streaming_binary_frame _ expected_sequence = none

number_of_bytes :
    (n : ℕ)
    → n < 4294967296
    → from_bytes (n / 16777216) (n / 65536 % 256) (n / 256 % 256) (n % 256) ≡ n
unfolding from_bytes
number_of_bytes n h = omega arith

-- A frame that is not empty, sent with a number that fits in four bytes, is parsed back by a receiver
-- that expects that number.
pub parse_streaming_binary_frame-to_bytes :
    (n x : ℕ) (bytes frame : List ℕ)
    → to_bytes n ≡ some bytes
    → parse_streaming_binary_frame (bytes ++ x ∷ frame) n ≡ some (n, x ∷ frame)
unfolding parse_streaming_binary_frame to_bytes
parse_streaming_binary_frame-to_bytes n x bytes frame h =
    let small : n < 4294967296 = ground arith in
    let prefix = n / 16777216 ∷ n / 65536 % 256 ∷ n / 256 % 256 ∷ n % 256 ∷ [] in
    let same : prefix ≡ bytes = ground arith in
    let number = number_of_bytes n small in
    subst (λ b. parse_streaming_binary_frame (b ++ x ∷ frame) n ≡ some (n, x ∷ frame)) same
      (ground (arith, number))
