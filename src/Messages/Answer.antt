-- ===== src/Messages/Answer.antt =====
-- nora_fleet/message/processors/answer_message_processor.py: which message of a stream the answer is.
use nora_fleet.Common.{
  String, ◌≡◌, refl, sym, ap, ◌∙◌, true, false, ◌⊎◌, inl, inr, Option, none, some, List, [], ◌∷◌,
  ◌++◌, Dict, All, Value, Fields, str, ◌>>=◌, Bool-cases, >>=-eq-some, some_inj,
}
use nora_fleet.Messages.{value_at, is_null}
use nora_fleet.Messages.Filters.{allow_answer}
use nora_fleet.Messages.Processors.{
  StructureParser, first_available, AnswerMessageProcessor, keep, record_parsed, record_parts,
  record_answer, process_answer, process_messages,
}

-- A final answer with a text.
abbrev pub Carries : Dict Value → Type 0
Carries m = (allow_answer m (value_at "type" m) ≡ some true) × (is_null (value_at "text" m) ≡ false)

abbrev pub remainder_or : Value → Option (Fields × String) → Value
remainder_or text none = text
remainder_or text (some (fields, remainder)) = str remainder

-- The answer that a message gives: its text, or, where the message has no structure of its own and a
-- parser finds one in the text, what the parser left of it.
abbrev pub Answers : StructureParser → List Value → Dict Value → Value → Type 0
Answers json formats m v =
    ((is_null (value_at "structure" m) ≡ false) × (v ≡ value_at "text" m))
    ⊎ ((is_null (value_at "structure" m) ≡ true)
        × ((found : Option (Fields × String)) × (first_available json formats (value_at "text" m)
              ≡ some found)
            × (v ≡ remainder_or (value_at "text" m) found)))

record_parsed-answer :
    (r : AnswerMessageProcessor) (text : Value) (found : Option (Fields × String))
    → r.answer ≡ text
    → ((record_parsed r found).answer ≡ remainder_or text found)
      × ((record_parsed r found).structure_formats ≡ r.structure_formats)
unfolding record_parsed
record_parsed-answer r text none e = (e, refl)
record_parsed-answer r text (some (fields, remainder)) e = (refl, refl)

-- What `record_answer` does, by what the message has.
recorded-untold :
    (json : StructureParser) (r r' : AnswerMessageProcessor) (o t s : Value)
    → is_null t ≡ true
    → record_answer json r o t s ≡ some r'
    → (r'.structure_formats ≡ r.structure_formats) × (r'.answer ≡ r.answer)
unfolding record_answer record_parts keep
recorded-untold json r r' o t s no_text e = elim (Bool-cases (is_null s)) [
  | inl q ↦
      let same = some_inj (rw (no_text, q) at e) in
      (sym (ap (λ x. x.structure_formats) same), sym (ap (λ x. x.answer) same))
  | inr q ↦
      let same = some_inj (rw (no_text, q) at e) in
      (sym (ap (λ x. x.structure_formats) same), sym (ap (λ x. x.answer) same))
]

recorded-structured :
    (json : StructureParser) (r r' : AnswerMessageProcessor) (o t s : Value)
    → is_null t ≡ false
    → is_null s ≡ false
    → record_answer json r o t s ≡ some r'
    → (r'.structure_formats ≡ r.structure_formats) × (r'.answer ≡ t)
unfolding record_answer record_parts keep
recorded-structured json r r' o t s p q e =
    let same = some_inj (rw (p, q) at e) in
    (sym (ap (λ x. x.structure_formats) same), sym (ap (λ x. x.answer) same))

record_parts-told :
    (r : AnswerMessageProcessor) (o t s : Value)
    → is_null t ≡ false
    → ((record_parts r o t s).answer ≡ t)
      × ((record_parts r o t s).structure_formats ≡ r.structure_formats)
unfolding record_parts keep
record_parts-told r o t s p = (rw p, refl)

record_answer-parses :
    (json : StructureParser) (r : AnswerMessageProcessor) (o t s : Value)
    → is_null t ≡ false
    → is_null s ≡ true
    → record_answer json r o t s ≡ (
        first_available json r.structure_formats t >>= λ found.
        some (record_parsed (record_parts r o t s) found))
unfolding record_answer record_parts keep
record_answer-parses json r o t s p q = rw (p, q)

recorded-parsed :
    (json : StructureParser) (r r' : AnswerMessageProcessor) (o t s : Value)
    → is_null t ≡ false
    → is_null s ≡ true
    → record_answer json r o t s ≡ some r'
    → (r'.structure_formats ≡ r.structure_formats)
      × ((found : Option (Fields × String)) × (first_available json r.structure_formats t
            ≡ some found)
          × (r'.answer ≡ remainder_or t found))
recorded-parsed json r r' o t s p q e =
    let (kept, formats) = record_parts-told r o t s p in
    let (found, e', rest) =
      >>=-eq-some (first_available json r.structure_formats t) _
        (sym (record_answer-parses json r o t s p q) ∙ e) in
    let same = some_inj rest in
    let parts = record_parsed-answer (record_parts r o t s) t found kept in
    (
      sym (ap (λ x. x.structure_formats) same) ∙ (parts.1 ∙ formats),
      (found, e', sym (ap (λ x. x.answer) same) ∙ parts.0),
    )

-- One message: what it answers is recorded, and another leaves the answer as it is.
process_answer-cases :
    (json : StructureParser) (r r' : AnswerMessageProcessor) (m : Dict Value)
    → process_answer json r m (value_at "type" m) ≡ some r'
    → (r'.structure_formats ≡ r.structure_formats)
      × ((Carries m × Answers json r.structure_formats m r'.answer)
          ⊎ (¬ Carries m × (r'.answer ≡ r.answer)))
unfolding process_answer
process_answer-cases json r r' m e =
    let (allowed, a, e') = >>=-eq-some (allow_answer m (value_at "type" m)) _ e in
    elim (Bool-cases allowed) [
      | inr no_pass ↦
          let same = some_inj (rw no_pass at e') in
          (
            sym (ap (λ x. x.structure_formats) same),
            inr ((λ c. cc (c.0, a, no_pass)), sym (ap (λ x. x.answer) same)),
          )
      | inl pass ↦
          let e'' = rw pass at e' in
          elim (Bool-cases (is_null (value_at "text" m))) [
            | inl untold ↦
                let (f, same) =
                  recorded-untold json r r' (value_at "origin" m) (value_at "text" m)
                    (value_at "structure" m) untold e'' in
                (f, inr ((λ c. cc (c.1, untold)), same))
            | inr told ↦ elim (Bool-cases (is_null (value_at "structure" m))) [
              | inr q ↦
                  let (f, same) =
                    recorded-structured json r r' (value_at "origin" m) (value_at "text" m)
                      (value_at "structure" m) told q e'' in
                  (f, inl ((a ∙ ap some pass, told), inl (q, same)))
              | inl q ↦
                  let (f, parsed) =
                    recorded-parsed json r r' (value_at "origin" m) (value_at "text" m)
                      (value_at "structure" m) told q e'' in
                  (f, inl ((a ∙ ap some pass, told), inr (q, parsed)))
            ]
          ]
    ]

-- The answer gathered from messages, where none of them raises an exception: the answer from before,
-- where no message is a final answer with a text, and otherwise what the last such message answers.
pub process_messages_lem :
    (json : StructureParser) (ms : List (Dict Value)) (r r' : AnswerMessageProcessor)
    → process_messages json r ms ≡ some r'
    → (All (λ m. ¬ Carries m) ms × (r'.answer ≡ r.answer))
      ⊎ ((before : List (Dict Value)) × (last : Dict Value) × (after : List (Dict Value)) × (ms
            ≡ before ++ last ∷ after)
          × Carries last
          × All (λ m. ¬ Carries m) after
          × Answers json r.structure_formats last r'.answer)
unfolding process_messages
process_messages_lem json [] r r' e = inl (tt, sym (ap (λ x. x.answer) (some_inj e)))
process_messages_lem json (m ∷ ms) r r' e =
    let (r1, one, rest) = >>=-eq-some _ _ e in
    let (formats, this) = process_answer-cases json r r1 m one in
    elim (process_messages_lem json ms r1 r' rest) [
      | inr (before, last, after, split, c, none_after, answers) ↦
          inr (m ∷ before, last, after, ap (λ l. m ∷ l) split, c, none_after, rw formats at answers)
      | inl (none_later, same) ↦ elim this [
        | inl (c, answers) ↦ inr ([], m, ms, refl, c, none_later, rw (← same) at answers)
        | inr (none_here, kept) ↦ inl ((none_here, none_later), same ∙ kept)
      ]
    ]
