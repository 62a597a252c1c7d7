-- ===== src/Tests/Texts.antt =====
-- A text with a structure in it.
use nora_fleet.Common.{String, ◌≡◌, refl, Option, some, Value, obj, end}
use nora_fleet.Messages.Json.{
  is_space, lstrip, rstrip, strip_text, after_prefix, split_first, split_last, Match, search_block,
  delimiters, block_of, extract_delimited_block, dictionary_of, load_block, parse_json,
}
use nora_fleet.Messages.Json.Blocks.{Among, whole, parse_json_lem}

-- A parser of JSON that reads every block as an empty dictionary.
abbrev loads : String → Option Value
loads block = some (obj end)

answer_text : extract_delimited_block "It is {1} {2} so " delimiters ≡ some ("{1} {2}", "It is  so")
unfolding extract_delimited_block delimiters search_block split_first split_last after_prefix
    strip_text lstrip rstrip is_space
answer_text = refl

parse_json_lem_example :
    (start : String) × (end_mark : String) × (m : Match) × Among (start, end_mark) delimiters
    × (whole start end_mark m ≡ "It is {1} {2} so ")
    × (loads (block_of start end_mark m).0 ≡ some (obj end))
    × ("It is  so" ≡ (block_of start end_mark m).1)
unfolding parse_json load_block dictionary_of extract_delimited_block delimiters search_block
    split_first split_last after_prefix strip_text lstrip rstrip is_space
parse_json_lem_example = parse_json_lem loads "It is {1} {2} so " (end, "It is  so") refl
