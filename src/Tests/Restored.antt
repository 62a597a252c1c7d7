-- ===== src/Tests/Restored.antt =====
-- A protected network, and a later manifest that is to turn it off.
use nora_fleet.Common.{
  String, ◌≡◌, refl, true, false, some, List, [], ◌∷◌, ◌++◌, All, All-append, Dict, get, put, Value,
  bool, str, arr, nil, cons, obj, end, field,
}
use nora_fleet.Redactor.{truthy}
use nora_fleet.Messages.{value_at}
use nora_fleet.Messages.Json.{strip_text, lstrip, rstrip}
use nora_fleet.Manifests.{
  filter_keys, filter_keys_into, or_false, filter_mcp, expand_periodic, filter_periodic,
  expand_entry, filter_entry, filter_entries, filter_manifest, served,
}
use nora_fleet.Manifests.Restore.{
  Registry, Networks, no_networks, is_served, accept, process_one_agent_network,
  read_one_agent_network, keep_periodic, store, maybe_store_agent_network, store_entries,
  restore_one_manifest, overlay_manifests, served_networks, restore,
}
use nora_fleet.Manifests.Validated.{IsServed, restore_lem}
use nora_fleet.Manifests.Overrides.{restore-IsOff}

-- Every file has a network, which is its key, and all networks are valid. The overlay puts the new
-- entries before the old ones.
abbrev registry : Registry
registry = record {
  Network = String;
  restore_one = λ manifest_file key. some key;
  validate = λ external name n. [];
  network_name = λ key. key;
  overlay = λ d e. e ++ d;
  is_valid = λ v. true;
}

abbrev hidden : Dict Value
hidden = ("a", obj (field "serve" (bool true) (field "public" (bool false) end))) ∷ []

abbrev off : Dict Value
off = ("a", bool false) ∷ []

abbrev still_there : Networks registry
still_there = record {
  public = [];
  protected = ("a", some (record { network = "a"; is_mcp_network = false })) ∷ [];
  periodic_configs = [];
}

restore-runs : restore registry (("m1", hidden) ∷ ("m2", off) ∷ []) ≡ some still_there
unfolding restore overlay_manifests restore_one_manifest filter_manifest filter_keys
    filter_keys_into strip_text lstrip rstrip filter_entries expand_entry filter_entry filter_mcp
    filter_periodic expand_periodic or_false value_at truthy get put store_entries
    read_one_agent_network process_one_agent_network accept is_served maybe_store_agent_network
    store keep_periodic no_networks served_networks served
restore-runs = refl

restore_lem_example : All (IsServed registry) [] × All (IsServed registry) still_there.protected
restore_lem_example =
    restore_lem registry (("m1", hidden) ∷ ("m2", off) ∷ []) still_there
      (λ P d e h h'. All-append P e d h' h) restore-runs

restore-IsOff_example :
    (t : Networks registry) × (restore registry (("m1", hidden) ∷ []) ≡ some t)
    × (still_there.protected ≡ t.protected)
restore-IsOff_example =
    restore-IsOff registry (("m1", hidden) ∷ []) "m2" off still_there (λ d. refl) (refl, tt)
      restore-runs

-- An agent with a slash in its name, and one that calls it.
abbrev slashed : List (Dict Value)
slashed =
    (("name", str "a/b") ∷ [])
    ∷ (("name", str "c") ∷ ("tools", arr (cons (str "a/b") nil)) ∷ [])
    ∷ []
