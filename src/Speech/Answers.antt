-- ===== src/Speech/Answers.antt =====
-- What an operation of a session of src/mtbank_ai/speech/streaming.py receives.
use Prim.Native.Char.{code}
use Prim.Native.String.{len}
use mtbank_ai_call_analytics.Prelude.{
  ℕ, ◌+◌, ◌≤◌, ◌<◌, ◌≡◌, ◌↔◌, refl, sym, ap, ◌∙◌, arith, true, false, List, [], ◌∷◌, ◌++◌, map,
  append-nil, append_assoc, length, length-append, All, ok, String, Bool-cases, inl, inr, ◌⊎◌,
}
use mtbank_ai_call_analytics.Speech.Session.{
  Terminal, ack, finished, StreamingUpdate, Incoming, update, terminal, violation, Limits, is_space,
  is_blank, accepts_update, same_terminal, receive_until,
}

-- A character of the text is no white space.
abbrev pub IsWorded : String → Type 0
IsWorded String.[] = ⊥
IsWorded (String.◌∷◌ c text) = (is_space (code c) ≡ false) ⊎ IsWorded text

-- An update that may be passed on.
abbrev pub IsUpdate : Limits → StreamingUpdate → Type 0
IsUpdate limits u = (0 < u.sequence) × IsWorded u.text × (len u.text ≤ limits.max_message_bytes)

is_blank_iff : (text : String) → (is_blank text ≡ false) ↔ IsWorded text
unfolding is_blank
is_blank_iff String.[] = (λ h. ground arith, λ h. absurd h)
is_blank_iff (String.◌∷◌ c text) =
    let rest = is_blank_iff text in
    (
      λ h. elim (Bool-cases (is_space (code c))) [
        | inl space ↦ inr (rest.0 (ground arith))
        | inr word ↦ inl word
      ],
      λ v. elim v [ inl word ↦ ground arith | inr later ↦ let w = rest.1 later in ground arith ],
    )

accepts_update_iff :
    (limits : Limits) (u : StreamingUpdate) → (accepts_update limits u ≡ true) ↔ IsUpdate limits u
unfolding accepts_update
accepts_update_iff limits u =
    let (worded, blank) = is_blank_iff u.text in
    (
      λ h. (ground arith, worded (ground arith), ground arith),
      λ v. let (numbered, text, small) = v in let b = blank text in ground arith,
    )

same_terminal_iff : (k kind : Terminal) → (same_terminal k kind ≡ true) ↔ (k ≡ kind)
same_terminal_iff ack ack = (λ h. refl, λ h. refl)
same_terminal_iff ack finished = (λ h. cc, λ h. cc)
same_terminal_iff finished ack = (λ h. cc, λ h. cc)
same_terminal_iff finished finished = (λ h. refl, λ h. refl)

-- The messages are these updates, each fit to be passed on and not more than allowed, then the
-- terminal message of this kind and number, then what is left for later.
abbrev pub IsExchange :
    Limits → Terminal → ℕ → (inbox left : List Incoming) → List StreamingUpdate → Type 0
IsExchange limits kind sequence inbox left updates =
    (inbox ≡ map update updates ++ terminal kind sequence ∷ left)
    × All (IsUpdate limits) updates
    × (length updates ≤ limits.max_updates_per_operation)

module _ (limits : Limits) (kind : Terminal) (sequence : ℕ) where
  -- The same after some updates.
  record IsContinued (inbox left : List Incoming) (before after : List StreamingUpdate)
      : Type 0 where
    received : List StreamingUpdate
    answered : after ≡ before ++ received
    consumed : inbox ≡ map update received ++ terminal kind sequence ∷ left
    fit : All (IsUpdate limits) received
    few : length before + length received ≤ limits.max_updates_per_operation

  receive_until-IsContinued :
      (inbox left : List Incoming) (before after : List StreamingUpdate)
      → length before ≤ limits.max_updates_per_operation
      → receive_until limits kind sequence inbox before ≡ (ok after, left)
      → IsContinued inbox left before after
  unfolding receive_until
  receive_until-IsContinued [] left before after m h = cc
  receive_until-IsContinued (violation ∷ rest) left before after m h = cc
  receive_until-IsContinued (terminal k n ∷ rest) left before after m h =
      let same = (same_terminal_iff k kind).0 in
      let ended : (same_terminal k kind ≡ true)
          × (n ≡ sequence)
          × (before ≡ after)
          × (rest ≡ left) =
        ground arith in
      let kinds = same ended.0 in
      record {
        received = [];
        answered = sym ended.2 ∙ sym (append-nil before);
        consumed = cc (kinds, ended.1, ended.3);
        fit = tt;
        few = omega (arith, m);
      }
  receive_until-IsContinued (update u ∷ rest) left before after m h =
      let taken : (length before < limits.max_updates_per_operation)
          × (accepts_update limits u ≡ true)
          × (receive_until limits kind sequence rest (before ++ u ∷ []) ≡ (ok after, left)) =
        ground arith in
      let counted = length-append before (u ∷ []) in
      let later =
        receive_until-IsContinued rest left (before ++ u ∷ []) after
          (omega (arith, counted, taken.0)) taken.2 in
      record {
        received = u ∷ later.received;
        answered = later.answered ∙ append_assoc before (u ∷ []) later.received;
        consumed = ap (λ (messages : List Incoming). update u ∷ messages) later.consumed;
        fit = ((accepts_update_iff limits u).0 taken.1, later.fit);
        few = omega (arith, counted, later.few);
      }

  continued_received :
      (received : List StreamingUpdate) (left : List Incoming) (before : List StreamingUpdate)
      → All (IsUpdate limits) received
      → length before + length received ≤ limits.max_updates_per_operation
      → receive_until limits kind sequence
          (map update received ++ terminal kind sequence ∷ left)
          before
        ≡ (ok (before ++ received), left)
  unfolding receive_until
  continued_received [] left before fit few =
      let same = (same_terminal_iff kind kind).1 refl in rw (append-nil before) (ground arith)
  continued_received (u ∷ us) left before fit few =
      let accepted = (accepts_update_iff limits u).1 fit.0 in
      let counted = length-append before (u ∷ []) in
      let later =
        continued_received us left (before ++ u ∷ []) fit.1 (omega (arith, counted, few)) in
      let joined = append_assoc before (u ∷ []) us in ground (arith, later, joined)

  -- An operation of the session returns some updates and leaves some messages exactly if the messages
  -- that it found are these updates, each with a positive number, a text with a character that is no
  -- white space and within the bound on its bytes, not more of them than allowed, then the terminal
  -- message of the awaited kind and number, then the messages that it leaves.
  pub receive_until_iff :
      (inbox left : List Incoming) (updates : List StreamingUpdate)
      → (receive_until limits kind sequence inbox [] ≡ (ok updates, left))
        ↔ IsExchange limits kind sequence inbox left updates
  receive_until_iff inbox left updates = (
    λ h.
        let v = receive_until-IsContinued inbox left [] updates (omega arith) h in
        let same = v.answered in rw (same) (v.consumed, v.fit, omega (arith, v.few)),
    λ v.
        let (consumed, fit, few) = v in
        rw (consumed) (continued_received updates left [] fit (omega (arith, few))),
  )
