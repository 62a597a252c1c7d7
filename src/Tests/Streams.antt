-- ===== src/Tests/Streams.antt =====
-- A stream of messages, and the answer in it, at small inputs.
use nora_fleet.Common.{
  ℕ, ◌≡◌, refl, ◌⊎◌, some, List, [], ◌∷◌, ◌++◌, Dict, get, All, Value, null, num, str, obj, end,
}
use nora_fleet.Chat.{is_final_item}
use nora_fleet.Chat.Stream.{
  Call, put_final, anext, Run, run, start, sent, finals, IsPlain, Outcome, IsStopped, anexts,
  stream_lem, stream-ends,
}
use nora_fleet.Chat.Stream as Stream
use nora_fleet.Messages.{value_at, is_type, is_null, agent_framework}
use nora_fleet.Messages.Filters.{allow_answer, is_deep}
use nora_fleet.Messages.Processors.{
  StructureParser, AnswerMessageProcessor, first_available, create_structure_parser, lower_is,
  lower_code, try_parser, or_next, process_messages, process_answer, record_answer, record_parts,
  record_parsed, keep, process_structure, put_structure, is_empty_text,
}
use nora_fleet.Messages.Answer.{Carries, Answers, process_messages_lem}
use nora_fleet.Messages.Structure.{without_formats, strip, process_structure_lem}

abbrev calls : List Call
calls =
    Stream.put (str "one")
    ∷ anext
    ∷ Stream.put (str "two")
    ∷ put_final
    ∷ Stream.put (str "late")
    ∷ anext
    ∷ []

calls-IsPlain : IsPlain calls
unfolding is_final_item
calls-IsPlain = (refl, (refl, (refl, tt)))

stream_lem_example : Outcome (finals calls) (sent calls) (run calls start)
stream_lem_example = stream_lem calls calls-IsPlain

stream-ends_example : (n : ℕ) × IsStopped (sent calls) (run (anexts n) (run calls start))
stream-ends_example = stream-ends calls calls-IsPlain refl

-- A parser that takes every text to be an empty structure, with nothing left over.
abbrev json : StructureParser
json content = some (some (end, ""))

abbrev processor : AnswerMessageProcessor
processor = record {
  answer = null;
  structure = null;
  answer_origin = null;
  structure_formats = str "JSON" ∷ [];
}

abbrev thought : Dict Value
thought = ("type", num agent_framework) ∷ ("text", str "{}") ∷ []

abbrev parsed : AnswerMessageProcessor
parsed = record {
  answer = str "";
  structure = obj end;
  answer_origin = null;
  structure_formats = str "JSON" ∷ [];
}

process_messages_lem_example :
    (All (λ m. ¬ Carries m) (thought ∷ []) × (parsed.answer ≡ processor.answer))
    ⊎ ((before : List (Dict Value)) × (last : Dict Value) × (after : List (Dict Value)) × (thought
            ∷ []
          ≡ before ++ last ∷ after)
        × Carries last
        × All (λ m. ¬ Carries m) after
        × Answers json processor.structure_formats last parsed.answer)
unfolding process_messages process_answer allow_answer is_deep value_at is_type is_null get
    record_answer record_parts record_parsed keep first_available create_structure_parser lower_is
    lower_code try_parser or_next
process_messages_lem_example = process_messages_lem json (thought ∷ []) processor parsed refl

process_structure_lem_example :
    process_answer json
      (without_formats processor)
      (put_structure thought (some (end, "")))
      (num agent_framework)
    ≡ strip (process_answer json processor thought (num agent_framework))
unfolding process_structure value_at is_type is_null is_empty_text get first_available
    create_structure_parser lower_is lower_code try_parser or_next
process_structure_lem_example =
    process_structure_lem json processor thought (put_structure thought (some (end, "")))
      (num agent_framework) refl refl refl
