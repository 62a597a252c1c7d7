-- ===== src/Messages/Structure.antt =====
-- nora_fleet/message/processors/structure_message_processor.py before answer_message_processor.py.
use nora_fleet.Common.{
  String, ◌≡◌, refl, ap, ◌∙◌, Bool, true, false, inl, inr, Option, none, some, List, [],
  if◌then◌else◌, ◌==◌, Dict, put, get-put, Value, Fields, null, bool, num, str, arr, obj, arith,
  Bool-cases, >>=-eq-some, some_inj,
}
use nora_fleet.Messages.{value_at, is_type, is_null, agent_framework}
use nora_fleet.Messages.Filters.{allow_answer, is_deep}
use nora_fleet.Messages.Processors.{
  StructureParser, first_available, AnswerMessageProcessor, keep, record_parsed, record_parts,
  record_answer, process_answer, process_structure, put_structure, is_empty_text,
}

-- The same state of a processor that parses nothing, as `BasicMessageProcessor` has it.
abbrev pub without_formats : AnswerMessageProcessor → AnswerMessageProcessor
without_formats r = record {
  answer = r.answer;
  structure = r.structure;
  answer_origin = r.answer_origin;
  structure_formats = [];
}

value_at-put :
    (k j : String) (v : Value) (d : Dict Value)
    → value_at j (put k v d) ≡ (if k == j then v else value_at j d)
unfolding value_at
value_at-put k j v d = ground (arith, get-put k j v d)

put_structure-parts :
    (m : Dict Value) (fields : Fields) (remainder : String)
    → let m' = put_structure m (some (fields, remainder)) in
      (value_at "origin" m' ≡ value_at "origin" m)
      × (value_at "text" m' ≡ str remainder)
      × (value_at "structure" m' ≡ obj fields)
unfolding put_structure
put_structure-parts m fields remainder = (
  value_at-put _ _ _ _ ∙ value_at-put _ _ _ _,
  value_at-put _ _ _ _ ∙ value_at-put _ _ _ _,
  value_at-put _ _ _ _,
)

-- What a processor does with a message of the framework that has a text.
unfoldable pub answer_of :
    StructureParser
    → AnswerMessageProcessor
    → Option Bool
    → Value
    → Value
    → Value
    → Option AnswerMessageProcessor
answer_of json r none o t s = none
answer_of json r (some true) o t s = some r
answer_of json r (some false) o t s = record_answer json r o t s

process_answer-told :
    (json : StructureParser) (r : AnswerMessageProcessor) (m : Dict Value) (mt : Value)
    → is_type agent_framework mt ≡ true
    → is_null (value_at "text" m) ≡ false
    → process_answer json r m mt
      ≡ answer_of json r
          (is_deep (value_at "origin" m))
          (value_at "origin" m)
          (value_at "text" m)
          (value_at "structure" m)
unfolding process_answer allow_answer answer_of
process_answer-told json r m mt p q = ground (arith)

empty-null : (v : Value) → is_empty_text v ≡ some false → is_null v ≡ false
unfolding is_empty_text is_null
empty-null null e = cc
empty-null (bool b) e = refl
empty-null (num n) e = refl
empty-null (str s) e = refl
empty-null (arr vs) e = refl
empty-null (obj fs) e = refl

is_null-eq : (v : Value) → is_null v ≡ true → v ≡ null
unfolding is_null
is_null-eq null e = refl
is_null-eq (bool b) e = cc
is_null-eq (num n) e = cc
is_null-eq (str s) e = cc
is_null-eq (arr vs) e = cc
is_null-eq (obj fs) e = cc

abbrev pub strip : Option AnswerMessageProcessor → Option AnswerMessageProcessor
strip none = none
strip (some r) = some (without_formats r)

record_answer-same :
    (json : StructureParser) (r : AnswerMessageProcessor) (o t s : Value)
    → is_null s ≡ false
    → record_answer json (without_formats r) o t s ≡ strip (record_answer json r o t s)
unfolding record_answer record_parts
record_answer-same json r o t s p = rw p

record_answer-moved :
    (json : StructureParser) (r : AnswerMessageProcessor) (o t : Value) (fields : Fields)
    (remainder : String)
    → is_null t ≡ false
    → first_available json r.structure_formats t ≡ some (some (fields, remainder))
    → record_answer json (without_formats r) o (str remainder) (obj fields)
      ≡ strip (record_answer json r o t null)
unfolding record_answer record_parts record_parsed keep is_null
record_answer-moved json r o t fields remainder p found = rw (p, found)

record_answer-unparsed :
    (json : StructureParser) (r : AnswerMessageProcessor) (o t s : Value)
    → is_null s ≡ true
    → is_null t ≡ false
    → first_available json r.structure_formats t ≡ some none
    → record_answer json (without_formats r) o t s ≡ strip (record_answer json r o t s)
unfolding record_answer record_parts record_parsed keep first_available
record_answer-unparsed json r o t s q p found = rw (q, p, found)

answer_of-strip :
    (json : StructureParser) (r : AnswerMessageProcessor) (d : Option Bool) (o t t' s s' : Value)
    → record_answer json (without_formats r) o t' s' ≡ strip (record_answer json r o t s)
    → answer_of json (without_formats r) d o t' s' ≡ strip (answer_of json r d o t s)
unfolding answer_of
answer_of-strip json r none o t t' s s' e = refl
answer_of-strip json r (some true) o t t' s s' e = refl
answer_of-strip json r (some false) o t t' s s' e = e

-- The parts of two messages with the same origin, of which the second is answered as the first is.
same_answers :
    (json : StructureParser) (r : AnswerMessageProcessor) (m m' : Dict Value) (mt : Value)
    → is_type agent_framework mt ≡ true
    → is_null (value_at "text" m) ≡ false
    → is_null (value_at "text" m') ≡ false
    → value_at "origin" m' ≡ value_at "origin" m
    → record_answer json
        (without_formats r)
        (value_at "origin" m)
        (value_at "text" m')
        (value_at "structure" m')
      ≡ strip
          (record_answer json r (value_at "origin" m) (value_at "text" m) (value_at "structure" m))
    → process_answer json (without_formats r) m' mt ≡ strip (process_answer json r m mt)
same_answers json r m m' mt p q q' o e =
    rw
      (
        process_answer-told json (without_formats r) m' mt p q',
        process_answer-told json r m mt p q,
        o,
      )
      (answer_of-strip json r (is_deep (value_at "origin" m)) _ _ _ _ _ e)

structure_kept :
    (json : StructureParser) (formats : List Value) (m m' : Dict Value) (mt : Value)
    → is_null (value_at "structure" m) ≡ false
    → process_structure json formats m mt ≡ some m'
    → m ≡ m'
unfolding process_structure
structure_kept json formats m m' mt s e = elim (Bool-cases (is_type agent_framework mt)) [
  | inl p ↦ some_inj (rw (p, s) at e)
  | inr p ↦ some_inj (rw p at e)
]

structure_parsed :
    (json : StructureParser) (formats : List Value) (m m' : Dict Value) (mt : Value)
    → is_type agent_framework mt ≡ true
    → is_empty_text (value_at "text" m) ≡ some false
    → is_null (value_at "structure" m) ≡ true
    → process_structure json formats m mt ≡ some m'
    → (found : Option (Fields × String)) × (first_available json formats (value_at "text" m)
        ≡ some found)
      × (put_structure m found ≡ m')
unfolding process_structure
structure_parsed json formats m m' mt p t s e =
    let (found, e', rest) =
      >>=-eq-some (first_available json formats (value_at "text" m))
        (λ found. some (put_structure m found)) (rw (p, t, s) at e) in
    (found, e', some_inj rest)

parsed_first :
    (json : StructureParser) (r : AnswerMessageProcessor) (m : Dict Value) (mt : Value)
    (found : Option (Fields × String))
    → is_type agent_framework mt ≡ true
    → is_null (value_at "text" m) ≡ false
    → is_null (value_at "structure" m) ≡ true
    → first_available json r.structure_formats (value_at "text" m) ≡ some found
    → process_answer json (without_formats r) (put_structure m found) mt
      ≡ strip (process_answer json r m mt)
unfolding put_structure is_null
parsed_first json r m mt none p told s parsed = same_answers json r m m mt p told told refl (
    record_answer-unparsed json r (value_at "origin" m) (value_at "text" m) (value_at "structure" m)
      s told parsed)
parsed_first json r m mt (some (fields, remainder)) p told s parsed =
    let (o, t', s') = put_structure-parts m fields remainder in
    same_answers json r m (put_structure m (some (fields, remainder))) mt p told (ap is_null t') o (
      rw (t', s', is_null-eq (value_at "structure" m) s)
        (record_answer-moved json r (value_at "origin" m) (value_at "text" m) fields remainder told
          parsed))

-- Where the parsing raises no exception, a message of the framework that has a text gives the same answer, structure and origin whether the
-- structure in its text is parsed first, and put into the message that a processor without formats
-- then reads, or is parsed by the processor of the answer; and both raise an exception or neither.
pub process_structure_lem :
    (json : StructureParser) (r : AnswerMessageProcessor) (m m' : Dict Value) (mt : Value)
    → is_type agent_framework mt ≡ true
    → is_empty_text (value_at "text" m) ≡ some false
    → process_structure json r.structure_formats m mt ≡ some m'
    → process_answer json (without_formats r) m' mt ≡ strip (process_answer json r m mt)
process_structure_lem json r m m' mt p t e =
    let told = empty-null (value_at "text" m) t in
    elim (Bool-cases (is_null (value_at "structure" m))) [
      | inr s ↦ rw (← structure_kept json r.structure_formats m m' mt s e) (
          same_answers json r m m mt p told told refl (
            record_answer-same json r (value_at "origin" m) (value_at "text" m)
              (value_at "structure" m) s))
      | inl s ↦
          let (found, parsed, same) = structure_parsed json r.structure_formats m m' mt p t s e in
          rw (← same) (parsed_first json r m mt found p told s parsed)
    ]
