-- ===== src/Chat/History/Length.antt =====
-- How much of a chat is kept, and that its first instructions are not.
use mathlib.Core.List.{append-nil, append_assoc}
use nora_fleet.Common.{
  ℕ, zero, suc, ◌-◌, ◌≤◌, ◌<◌, ◌≡◌, refl, sym, ap, ◌∙◌, ◌⊎◌, inl, inr, true, false, not, ◌&&◌, ◌||◌,
  Option, none, some, List, [], ◌∷◌, ◌++◌, leb, length, length-append, Dict, Value, >>=-eq-some,
  some_inj, Bool-cases, arith,
}
use nora_fleet.Messages.{value_at, is_type, human, system, ai}
use nora_fleet.Chat.History.{
  ChatHistory, escape_text, redact_instructions, append_some, process_message, process_each, drop,
  first_and_last, curtail, process_history,
}

-- One history goes on from another, under the same maximum.
abbrev pub GoesOn : ChatHistory → ChatHistory → Type 0
GoesOn h h' =
    (h'.max_message_history ≡ h.max_message_history)
    × ((more : List (Dict Value)) × (h'.message_history ≡ h.message_history ++ more))

append_some-GoesOn : (h : ChatHistory) (o : Option (Dict Value)) → GoesOn h (append_some h o)
unfolding append_some
append_some-GoesOn h none = (refl, ([], sym (append-nil h.message_history)))
append_some-GoesOn h (some m) = (refl, (m ∷ [], refl))

process_message-GoesOn :
    (message : Dict Value) (t : Value) (h h' : ChatHistory)
    → process_message message t h ≡ some h'
    → GoesOn h h'
unfolding process_message
process_message-GoesOn message t h h' e =
    elim (Bool-cases (not (is_type human t || is_type system t || is_type ai t))) [
      | inl out ↦ rw (← some_inj (rw out at e)) (append_some-GoesOn h none)
      | inr read ↦ elim (Bool-cases (not h.saw_first_system && is_type system t)) [
        | inl first ↦ rw (← some_inj (rw (read, first) at e)) (
            append_some-GoesOn (record h { saw_first_system = true })
              (some (redact_instructions message)))
        | inr later ↦
            let (kept, e1, e2) =
              >>=-eq-some (escape_text message (value_at "text" message)) _
                (rw (read, later) at e) in
            rw (← some_inj e2) (append_some-GoesOn h kept)
      ]
    ]

pub process_each-GoesOn :
    (ms : List (Dict Value)) (h h' : ChatHistory) → process_each ms h ≡ some h' → GoesOn h h'
unfolding process_each
process_each-GoesOn [] h h' e = rw (← some_inj e) (refl, ([], sym (append-nil h.message_history)))
process_each-GoesOn (m ∷ ms) h h' e =
    let (h1, e1, e2) = >>=-eq-some (process_message m (value_at "type" m) h) _ e in
    let (same, (more, p)) = process_message-GoesOn m (value_at "type" m) h h1 e1 in
    let (same', (more', p')) = process_each-GoesOn ms h1 h' e2 in
    (
      same' ∙ same,
      (more ++ more', p' ∙ (ap (λ l. l ++ more') p ∙ append_assoc h.message_history more more')),
    )

first_redacted :
    (m : Dict Value) (t : Value) (h h1 : ChatHistory)
    → h.saw_first_system ≡ false
    → is_type system t ≡ true
    → process_message m t h ≡ some h1
    → h1.message_history ≡ h.message_history ++ redact_instructions m ∷ []
unfolding process_message append_some
first_redacted m t h h1 unseen s e = elim (Bool-cases (is_type human t)) [
  | inl p ↦ sym (ap (λ x. x.message_history) (some_inj (rw (unseen, s, p) at e)))
  | inr p ↦ sym (ap (λ x. x.message_history) (some_inj (rw (unseen, s, p) at e)))
]

-- Where no instructions were seen before, those of the first message are not handed on: what is added
-- to the history begins with that message with its text redacted.
pub process_each-redacts :
    (m : Dict Value) (ms : List (Dict Value)) (h h' : ChatHistory)
    → h.saw_first_system ≡ false
    → is_type system (value_at "type" m) ≡ true
    → process_each (m ∷ ms) h ≡ some h'
    → (more : List (Dict Value)) × (h'.message_history
        ≡ h.message_history ++ redact_instructions m ∷ more)
unfolding process_each
process_each-redacts m ms h h' unseen s e =
    let (h1, e1, e2) = >>=-eq-some (process_message m (value_at "type" m) h) _ e in
    let (same, (more, p)) = process_each-GoesOn ms h1 h' e2 in
    (
      more,
      p
          ∙ (ap (λ l. l ++ more) (first_redacted m (value_at "type" m) h h1 unseen s e1)
              ∙ append_assoc h.message_history (redact_instructions m ∷ []) more),
    )

drop-split :
    {A : Type 0} (n : ℕ) (xs : List A)
    → (dropped : List A) × (xs ≡ dropped ++ drop n xs) × ((n ≤ length xs) → length dropped ≡ n)
unfolding drop
drop-split zero xs = ([], refl, λ le. refl)
drop-split (suc n) [] = ([], refl, λ le. omega arith)
drop-split (suc n) (x ∷ xs) =
    let (dropped, e, h) = drop-split n xs in
    (x ∷ dropped, ap (λ l. x ∷ l) e, λ le. omega (arith, h))

no_length : {A : Type 0} (xs : List A) → length xs ≡ 0 → xs ≡ []
no_length [] e = refl
no_length (x ∷ xs) e = absurd (omega arith)

first_and_last-split :
    (n : ℕ) (xs ys : List (Dict Value))
    → first_and_last n xs ≡ some ys
    → (first : Dict Value) × (dropped : List (Dict Value)) × (kept : List (Dict Value)) × (xs
        ≡ first ∷ (dropped ++ kept))
      × (ys ≡ first ∷ kept)
      × (length kept ≤ n)
      × ((dropped ≡ []) ⊎ (length kept ≡ n))
unfolding first_and_last
first_and_last-split n [] ys e = absurd cc
first_and_last-split n (first ∷ rest) ys e =
    let (dropped, split, len) = drop-split (length rest - n) rest in
    let kept = drop (length rest - n) rest in
    let total = ap length split ∙ length-append dropped kept in
    let left = len (omega arith) in
    (
      first,
      dropped,
      kept,
      ap (λ l. first ∷ l) split,
      sym (some_inj e),
      omega (arith, total, left),
      elim (Bool-cases (leb (length rest) n)) [
        | inl short ↦ inl (no_length dropped (ground (arith, total, left)))
        | inr long ↦ inr (ground (arith, total, left))
      ],
    )

curtailed :
    (n : ℕ) (o : Option ℕ) (xs ys : List (Dict Value))
    → o ≡ some n
    → 1 < n
    → curtail o xs ≡ some ys
    → first_and_last n xs ≡ some ys
unfolding curtail
curtailed n none xs ys e big h = absurd cc
curtailed n (some m) xs ys e big h = elim (Bool-cases (leb m 1)) [
  | inl small ↦ absurd (ground (arith, some_inj e))
  | inr large ↦ rw (some_inj e) at (rw large at h)
]

-- With a maximum of two or more, what is left of the history is its first message and the last ones
-- of the others: as many as the maximum, or all if there are no more.
pub process_history_lem :
    (ms : List (Dict Value)) (h h' : ChatHistory) (n : ℕ)
    → h.max_message_history ≡ some n
    → 1 < n
    → process_history ms h ≡ some h'
    → (all : ChatHistory) × (first : Dict Value) × (dropped : List (Dict Value)) × (kept : List
        (Dict Value))
      × (process_each ms h ≡ some all)
      × (all.message_history ≡ first ∷ (dropped ++ kept))
      × (h'.message_history ≡ first ∷ kept)
      × (length kept ≤ n)
      × ((dropped ≡ []) ⊎ (length kept ≡ n))
unfolding process_history
process_history_lem ms h h' n max big e =
    let (all, e1, e2) = >>=-eq-some (process_each ms h) _ e in
    let (left, e3, e4) = >>=-eq-some (curtail all.max_message_history all.message_history) _ e2 in
    let same = (process_each-GoesOn ms h all e1).0 ∙ max in
    let cut = curtailed n all.max_message_history all.message_history left same big e3 in
    let (first, dropped, kept, p, q, le, last) =
      first_and_last-split n all.message_history left cut in
    (
      all,
      first,
      dropped,
      kept,
      e1,
      p,
      sym (ap (λ x. x.message_history) (some_inj e4)) ∙ q,
      le,
      last,
    )
