-- ===== src/Speech/Rolling/Feeding.antt =====
-- Frames that pass through the Ogg validator of services/speech/streaming.py.
use mtbank_ai_call_analytics.Prelude.{
  ℕ, zero, suc, ◌≡◌, refl, sym, ap, ◌∙◌, arith, true, false, List, [], ◌∷◌, ◌++◌, append-nil,
  append_assoc, length, subst, ok, raise, ◌⊎◌, inl, inr, ◌≢◌,
}
use mtbank_ai_call_analytics.Speech.Rolling.Ogg.{
  OggValidator, new_validator, take, page_size, complete, find_page, page_allowed, accept_page, Fed,
  after_page, cut_pages, feed, finish_stream, join_fed, feed_all,
}
use mtbank_ai_call_analytics.Speech.Rolling.Cuts.{find_page-is_page, take-drop}
use mtbank_ai_call_analytics.Speech.Rolling.Pages.{
  IsLogical, HasPassed, accept_page-HasPassed, IsLogical-at,
}

abbrev pub head_page : OggValidator → List ℕ
head_page v = take (page_size v.pending) v.pending

-- One round: it stops before a page that is not whole, or takes a page, and then ends or goes on.
round-cases :
    (fuel : ℕ) (validated out : List ℕ) (v t : OggValidator)
    → cut_pages (suc fuel) validated v ≡ (ok out, t)
    → ((validated ≡ out) × (v ≡ t))
      ⊎ ((find_page v.pending ≡ complete)
          × (page_allowed v (head_page v) ≡ true)
          × (((validated ++ head_page v ≡ out) × (accept_page v (head_page v) ≡ t))
              ⊎ (((accept_page v (head_page v)).saw_eos ≡ false)
                  × (cut_pages fuel (validated ++ head_page v) (accept_page v (head_page v))
                      ≡ (ok out, t)))))
unfolding cut_pages after_page
round-cases fuel validated out v t h = ground arith

pub pending-accept_page :
    (v : OggValidator)
    → find_page v.pending ≡ complete
    → head_page v ++ (accept_page v (head_page v)).pending ≡ v.pending
unfolding accept_page
pending-accept_page v h =
    let size = (find_page-is_page v.pending h).1 in
    rw (size) (take-drop (page_size v.pending) v.pending)

cut_pages-HasPassed :
    (fuel : ℕ) (before validated out : List ℕ) (v t : OggValidator)
    → cut_pages fuel validated v ≡ (ok out, t)
    → v.saw_eos ≡ false
    → HasPassed v (before ++ validated)
    → HasPassed t (before ++ out) × (validated ++ v.pending ≡ out ++ t.pending)
unfolding cut_pages
cut_pages-HasPassed zero before validated out v t h running passed = cc
cut_pages-HasPassed (suc fuel) before validated out v t h running passed =
    let page = head_page v in
    let w = accept_page v page in
    elim (round-cases fuel validated out v t h) [
      | inl same ↦ rw (← same.0, ← same.1) (passed, refl)
      | inr taken ↦
          let (whole, allowed, rest) = taken in
          let size = pending-accept_page v whole in
          let moved : validated ++ v.pending ≡ (validated ++ page) ++ w.pending =
            ap (λ (xs : List ℕ). validated ++ xs) (sym size)
            ∙ sym (append_assoc validated page w.pending) in
          let next : HasPassed w (before ++ (validated ++ page)) =
            subst (HasPassed w) (append_assoc before validated page) (
              accept_page-HasPassed v page (before ++ validated)
                (find_page-is_page v.pending whole).0 allowed running passed) in
          elim rest [
            | inl ended ↦ rw (← ended.0, ← ended.1) (next, moved)
            | inr on ↦
                let (later, kept) =
                  cut_pages-HasPassed fuel before (validated ++ page) out w t on.1 on.0 next in
                (later, moved ∙ kept)
          ]
    ]

feed-cases :
    (frame out : List ℕ) (v t : OggValidator)
    → feed frame v ≡ (ok out, t)
    → (v.saw_eos ≡ false)
      × (cut_pages
            (suc (length (v.pending ++ frame)))
            []
            (record v { pending = v.pending ++ frame })
          ≡ (ok out, t))
unfolding feed
feed-cases frame out v t h = ground arith

feed-HasPassed :
    (frame before out : List ℕ) (v t : OggValidator)
    → feed frame v ≡ (ok out, t)
    → HasPassed v before
    → HasPassed t (before ++ out) × (v.pending ++ frame ≡ out ++ t.pending)
feed-HasPassed frame before out v t h passed =
    let (running, cut) = feed-cases frame out v t h in
    let w : OggValidator = record v { pending = v.pending ++ frame } in
    cut_pages-HasPassed (suc (length (v.pending ++ frame))) before [] out w t cut running
      (subst (HasPassed w) (sym (append-nil before)) passed)

abbrev pub joined : List (List ℕ) → List ℕ
joined [] = []
joined (frame ∷ frames) = frame ++ joined frames

join_fed-cases :
    (first rest : Fed) (out : List ℕ) (t : OggValidator)
    → join_fed first rest ≡ (ok out, t)
    → (now : List ℕ) × (later : List ℕ) × (first ≡ (ok now, first.1))
      × (rest ≡ (ok later, t))
      × (now ++ later ≡ out)
unfolding join_fed
join_fed-cases (raise e, v) rest out t h = cc
join_fed-cases (ok now, v) (raise e, w) out t h = cc
join_fed-cases (ok now, v) (ok later, w) out t h = (now, later, refl, cc, cc)

feed_all-passed :
    (frames : List (List ℕ)) (before out : List ℕ) (v t : OggValidator)
    → feed_all frames v ≡ (ok out, t)
    → HasPassed v before
    → HasPassed t (before ++ out) × (v.pending ++ joined frames ≡ out ++ t.pending)
unfolding feed_all
feed_all-passed [] before out v t h passed =
    let none_out : [] ≡ out = cc in
    let same : v ≡ t = ap (λ (a : Fed). a.1) h in
    rw (← none_out, ← same) (rw (append-nil before) passed, append-nil v.pending)
feed_all-passed (frame ∷ frames) before out v t h passed =
    let w = (feed frame v).1 in
    let (now, later, first, rest, parts) =
      join_fed-cases (feed frame v) (feed_all frames w) out t h in
    let (passed_now, kept_now) = feed-HasPassed frame before now v w first passed in
    let (passed_all, kept_all) = feed_all-passed frames (before ++ now) later w t rest passed_now in
    (
      subst (HasPassed t) (append_assoc before now later ∙ ap (λ (xs : List ℕ). before ++ xs) parts)
          passed_all,
      sym (append_assoc v.pending frame (joined frames))
          ∙ ap (λ (xs : List ℕ). xs ++ joined frames) kept_now
          ∙ append_assoc now w.pending (joined frames)
          ∙ ap (λ (xs : List ℕ). now ++ xs) kept_all
          ∙ sym (append_assoc now later t.pending)
          ∙ ap (λ (xs : List ℕ). xs ++ t.pending) parts,
    )

new-HasPassed : (max_frame_bytes : ℕ) → HasPassed (new_validator max_frame_bytes) []
unfolding new_validator
new-HasPassed max_frame_bytes = inl (refl, refl, refl)

-- Frames of any sizes that a new validator takes are what it let through followed by what it holds
-- back, and what it let through is nothing, or the first pages of one logical stream in which at
-- most the last is marked as the end.
pub feed_all-HasPassed :
    (max_frame_bytes : ℕ) (frames : List (List ℕ)) (out : List ℕ) (t : OggValidator)
    → feed_all frames (new_validator max_frame_bytes) ≡ (ok out, t)
    → HasPassed t out × (joined frames ≡ out ++ t.pending)
unfolding new_validator
feed_all-HasPassed max_frame_bytes frames out t h =
    feed_all-passed frames [] out (new_validator max_frame_bytes) t h
      (new-HasPassed max_frame_bytes)

finished-parts :
    (t : OggValidator)
    → finish_stream t ≡ true
    → (length t.pending ≡ 0) × (t.page_count ≢ 0) × (t.saw_eos ≡ true)
unfolding finish_stream
finished-parts t h = ground arith

length_zero : (xs : List ℕ) → length xs ≡ 0 → xs ≡ []
length_zero [] h = refl
length_zero (x ∷ xs) h = absurd (omega (arith, h))

-- If `finish` then accepts, the frames together are one whole logical stream, all of which was let
-- through: pages with one serial number, numbered from 0, of which the last is marked as the end.
pub finish_stream-IsLogical :
    (max_frame_bytes : ℕ) (frames : List (List ℕ)) (out : List ℕ) (t : OggValidator)
    → feed_all frames (new_validator max_frame_bytes) ≡ (ok out, t)
    → finish_stream t ≡ true
    → (out ≡ joined frames) × ((serial : ℕ) × IsLogical serial t.page_count true (joined frames))
finish_stream-IsLogical max_frame_bytes frames out t h done =
    let (passed, kept) = feed_all-HasPassed max_frame_bytes frames out t h in
    let (empty, pages, ended) = finished-parts t done in
    let same : out ≡ joined frames =
      sym (kept ∙ ap (λ (xs : List ℕ). out ++ xs) (length_zero t.pending empty) ∙ append-nil out) in
    elim passed [
      | inl nothing ↦ absurd (pages nothing.0)
      | inr some_pages ↦
          let (serial, owner, next, count, logical) = some_pages in
          (same, (serial, IsLogical-at serial refl ended same logical))
    ]
