-- ===== src/Manifests.antt =====
-- nora_fleet/internals/graph/persistence: the filters of a manifest, which says what agent networks are
-- served and how (manifest_key_config_filter.py, manifest_dict_config_filter.py with the filters of an
-- entry, and served_manifest_config_filter.py). A manifest is a dictionary; `none` is an exception.
pub mod Restore
pub mod Validated
pub mod Overrides
use nora_fleet.Common.{
  String, Bool, true, false, not, Option, none, some, List, [], ◌∷◌, if◌then◌else◌, ◌==◌, is_some,
  Dict, get, put, contains, Value, Items, Fields, null, bool, num, str, arr, obj, nil, cons, end,
  field, entries, from_entries, ◌>>=◌,
}
use nora_fleet.Redactor.{truthy}
use nora_fleet.Messages.{value_at, is_null}
use nora_fleet.Messages.Json.{strip_text}
use nora_fleet.Watcher.{default_cron_schedule}

-- manifest_key_config_filter.py: of two keys that are the same but for blanks at the ends, the later
-- one has precedence
unfoldable pub filter_keys_into : Dict Value → Dict Value → Dict Value
unfolding strip_text
filter_keys_into [] filtered = filtered
filter_keys_into ((key, v) ∷ manifest) filtered =
    filter_keys_into manifest (put (strip_text key) v filtered)

unfoldable pub filter_keys : Dict Value → Dict Value
unfolding filter_keys_into
filter_keys manifest = filter_keys_into manifest []

-- mcp_manifest_dict_config_filter.py
unfoldable pub or_false : String → Dict Value → Dict Value
or_false key d = if contains key d then d else put key (bool false) d

unfoldable pub filter_mcp : Dict Value → Dict Value
unfolding or_false value_at truthy
filter_mcp d =
    let config = or_false "mcp" d in
    if truthy (value_at "mcp" config) then put "public" (bool true) config else config

-- periodic_manifest_dict_config_filter.py: the template with its one interaction
unfoldable pub default_interaction : Value → Value
default_interaction cron_schedule = obj (
    field "enable" (bool true) (
      field "cron_schedule" cron_schedule (
        field "second_at_beginning" (bool false) (
          field "text" (str "Do your thing") (
            field "sly_data" (obj end)
              (field "metadata" (obj (field "user_id" (str "system") end)) end))))))

unfoldable pub one_interaction : Value → Dict Value
one_interaction v = ("interactions", arr (cons v nil)) ∷ []

-- `template.update(value)`
unfoldable pub update_all : Dict Value → Dict Value → Dict Value
update_all d [] = d
update_all d ((key, v) ∷ rest) = update_all (put key v d) rest

-- the first pass: `none` is a False, which stays as it is
unfoldable pub expand_periodic : Value → Option (Dict Value)
unfolding default_interaction one_interaction
expand_periodic (bool false) = none
expand_periodic (str schedule) = some (one_interaction (default_interaction (str schedule)))
expand_periodic (obj fs) = some (
    if contains "interactions" (entries fs)
    then update_all (one_interaction (default_interaction default_cron_schedule)) (entries fs)
    else one_interaction (obj fs))
expand_periodic _ = some (one_interaction (default_interaction default_cron_schedule))

-- `CronIter.is_valid` of the package croniter is passed in.
module _ (is_valid : Value → Bool) where
  unfoldable pub check_schedule : Dict Value → Dict Value
  unfolding value_at is_null
  check_schedule d =
      let cron_schedule = value_at "cron_schedule" d in
      if is_null cron_schedule
      then put "cron_schedule" default_cron_schedule d
      else if is_valid cron_schedule
      then d
      else put "enable" (bool false) d

  unfoldable pub check_items : Items → Option Items
  unfolding check_schedule
  check_items nil = some nil
  check_items (cons (obj fs) items) = do
    rest ← check_items items
    some (cons (obj (from_entries (check_schedule (entries fs)))) rest)
  check_items (cons _ items) = none

  -- the late validation of the interactions
  unfoldable pub check_interactions : Option Value → Option Value
  unfolding check_items
  check_interactions none = some (arr nil)
  check_interactions (some (arr items)) = do checked ← check_items items; some (arr checked)
  check_interactions (some (str s)) = if s == "" then some (str s) else none
  check_interactions (some (obj end)) = some (obj end)
  check_interactions (some _) = none

  unfoldable pub filter_periodic : Dict Value → Option (Dict Value)
  unfolding expand_periodic check_interactions or_false value_at
  filter_periodic d =
      let config = or_false "periodic" d in
      elim (expand_periodic (value_at "periodic" config)) [
        | none ↦ some config
        | some template ↦ do
          checked ← check_interactions (get "interactions" template)
          some (put "periodic" (obj (from_entries (put "interactions" checked template))) config)
      ]

  -- manifest_dict_config_filter.py: the expanded form of an entry, or none for one that is skipped
  unfoldable pub expand_entry : Value → Option (Dict Value)
  expand_entry (bool true) = some (
      ("serve", bool true)
      ∷ ("public", bool true)
      ∷ ("mcp", bool true)
      ∷ ("periodic", bool false)
      ∷ [])
  expand_entry (bool false) = some (
      ("serve", bool false)
      ∷ ("public", bool false)
      ∷ ("mcp", bool true)
      ∷ ("periodic", bool false)
      ∷ [])
  expand_entry (obj fs) = some (entries fs)
  expand_entry _ = none

  -- the filter chain of an entry, manifest_dict_filter_chain.py
  unfoldable pub filter_entry : Dict Value → Option (Dict Value)
  unfolding filter_periodic filter_mcp
  filter_entry d = filter_periodic (filter_mcp d)

  unfoldable pub filter_entries : Dict Value → Dict (Dict Value) → Option (Dict (Dict Value))
  unfolding expand_entry
  filter_entries [] filtered = some filtered
  filter_entries ((key, v) ∷ manifest) filtered = elim (expand_entry v) [
    | none ↦ filter_entries manifest filtered
    | some d ↦ filter_entry d >>= λ entry. filter_entries manifest (put key entry filtered)
  ]

  -- manifest_filter_chain.py. The third filter, for the entries that are to be served, keeps the
  -- others too where it is told to have an entry for them, as it is here.
  unfoldable pub filter_manifest : Dict Value → Option (Dict (Dict Value))
  unfolding filter_keys
  filter_manifest manifest = filter_entries (filter_keys manifest) []

-- served_manifest_config_filter.py on the networks that were restored, without an entry for those that
-- are skipped
unfoldable pub served {ℓ} : {N : Type ℓ} → Dict (Option N) → Dict (Option N)
served [] = []
served ((name, none) ∷ d) = served d
served ((name, some n) ∷ d) = (name, some n) ∷ served d
