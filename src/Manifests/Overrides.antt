-- ===== src/Manifests/Overrides.antt =====
-- What a later manifest can turn off.
use nora_fleet.Common.{
  String, ◌≡◌, refl, true, false, Option, some, List, [], ◌∷◌, ◌++◌, All, Dict, get, put, ◌==◌,
  Value, bool, Bool-cases, Option-cases, inl, inr, >>=-eq-some, some_inj, ◌>>=◌,
}
use nora_fleet.Redactor.{truthy}
use nora_fleet.Messages.{value_at}
use nora_fleet.Messages.Json.{strip_text}
use nora_fleet.Manifests.{
  filter_keys, filter_keys_into, or_false, filter_mcp, expand_periodic, filter_periodic,
  expand_entry, filter_entry, filter_entries, filter_manifest,
}
use nora_fleet.Manifests.Restore.{
  AgentNetwork, Registry, Networks, no_networks, is_served, find_external_network_names,
  read_one_agent_network, store, maybe_store_agent_network, store_entries, restore_one_manifest,
  overlay_manifests, served_networks, restore,
}

-- All values of a dictionary are the same.
abbrev AllAre {ℓ} : {A : Type ℓ} → A → Dict A → Type ℓ
AllAre a = All (λ e. e.1 ≡ a)

put-AllAre {ℓ} :
    {A : Type ℓ} (a : A) (key : String) (d : Dict A) → AllAre a d → AllAre a (put key a d)
unfolding put
put-AllAre a key [] h = (refl, tt)
put-AllAre a key ((j, b) ∷ d) h = elim (Bool-cases (j == key)) [
  | inl same ↦ rw same (refl, h.1)
  | inr other ↦ rw other (h.0, put-AllAre a key d h.1)
]

-- The entries of a manifest that are all False.
abbrev pub IsOff : Dict Value → Type 0
IsOff = AllAre (bool false)

filter_keys_into-IsOff :
    (manifest filtered : Dict Value)
    → IsOff manifest
    → IsOff filtered
    → IsOff (filter_keys_into manifest filtered)
unfolding filter_keys_into
filter_keys_into-IsOff [] filtered h h' = h'
filter_keys_into-IsOff ((key, v) ∷ manifest) filtered h h' =
    filter_keys_into-IsOff manifest _ h.1
      (rw h.0 (put-AllAre (bool false) (strip_text key) filtered h'))

-- What such an entry is expanded to: it is not served, and it is public, as an MCP tool is.
abbrev off : Dict Value
off =
    ("serve", bool false)
    ∷ ("public", bool true)
    ∷ ("mcp", bool true)
    ∷ ("periodic", bool false)
    ∷ []

module _ (registry : Registry) where
  open registry use {Network, network_name, overlay, is_valid}

  filter_entries-off :
      (manifest : Dict Value) (filtered entries : Dict (Dict Value))
      → IsOff manifest
      → AllAre off filtered
      → filter_entries is_valid manifest filtered ≡ some entries
      → AllAre off entries
  unfolding filter_entries expand_entry filter_entry filter_periodic filter_mcp or_false truthy
      value_at get put expand_periodic
  filter_entries-off [] filtered entries h h' e = rw (← some_inj e) h'
  filter_entries-off ((key, v) ∷ manifest) filtered entries h h' e =
      filter_entries-off manifest (put key off filtered) entries h.1
        (put-AllAre off key filtered h') (rw h.0 at e)

  store_entries-off :
      (manifest_file : String) (external : List String) (entries : Dict (Dict Value))
      (s : Networks registry)
      → AllAre off entries
      → (store_entries registry manifest_file external entries s).protected ≡ s.protected
  unfolding store_entries read_one_agent_network maybe_store_agent_network is_served store truthy
      value_at get
  store_entries-off manifest_file external [] s h = refl
  store_entries-off manifest_file external ((key, entry) ∷ entries) s h =
      rw h.0 (store_entries-off manifest_file external entries _ h.1)

  restore_one-off :
      (manifest_file : String) (manifest configs : Dict Value) (s : Networks registry)
      → IsOff manifest
      → restore_one_manifest registry manifest_file manifest configs ≡ some s
      → s.protected ≡ []
  unfolding restore_one_manifest no_networks filter_manifest filter_keys
  restore_one-off manifest_file [] configs s h e = rw (← some_inj e) refl
  restore_one-off manifest_file (entry ∷ rest) configs s h e =
      let (entries, p, q) = >>=-eq-some (filter_manifest is_valid (entry ∷ rest)) _ e in
      let all_off =
        filter_entries-off (filter_keys (entry ∷ rest)) [] entries
          (filter_keys_into-IsOff (entry ∷ rest) [] h tt) tt p in
      rw (← some_inj q) (
        store_entries-off manifest_file (find_external_network_names registry entries) entries
          (no_networks registry configs) all_off)

  overlay_manifests-append :
      (files others : List (String × Dict Value)) (s : Networks registry)
      → overlay_manifests registry (files ++ others) s
        ≡ (overlay_manifests registry files s >>= λ t. overlay_manifests registry others t)
  unfolding overlay_manifests
  overlay_manifests-append [] others s = refl
  overlay_manifests-append ((manifest_file, manifest) ∷ files) others s =
      elim (Option-cases
        (restore_one_manifest registry manifest_file manifest s.periodic_configs)) [
          | inl e ↦ rw e refl
          | inr (one, e) ↦ rw e (overlay_manifests-append files others _)
        ]

  overlay-off :
      (manifest_file : String) (manifest : Dict Value) (v u : Networks registry)
      → ((d : Dict (Option (AgentNetwork Network))) → overlay d [] ≡ d)
      → IsOff manifest
      → overlay_manifests registry ((manifest_file, manifest) ∷ []) v ≡ some u
      → u.protected ≡ v.protected
  unfolding overlay_manifests
  overlay-off manifest_file manifest v u keeps h e =
      let (one, r, z) =
        >>=-eq-some (restore_one_manifest registry manifest_file manifest v.periodic_configs) _ e in
      let empty = restore_one-off manifest_file manifest v.periodic_configs one h r in
      rw (← some_inj z, empty) (keeps v.protected)

  restore-overlay :
      (files : List (String × Dict Value)) (s : Networks registry)
      → restore registry files ≡ some s
      → (u : Networks registry) × (overlay_manifests registry files (no_networks registry [])
          ≡ some u)
        × (served_networks registry u ≡ s)
  unfolding restore
  restore-overlay files s e =
      let (u, p, q) =
        >>=-eq-some (overlay_manifests registry files (no_networks registry [])) _ e in
      (u, p, some_inj q)

  -- Where an overlay with nothing changes nothing: a last manifest of which every entry is False
  -- leaves the protected storage as it was without that manifest, with the networks of that name.
  pub restore-IsOff :
      (files : List (String × Dict Value)) (manifest_file : String) (manifest : Dict Value)
      (s : Networks registry)
      → ((d : Dict (Option (AgentNetwork Network))) → overlay d [] ≡ d)
      → IsOff manifest
      → restore registry (files ++ (manifest_file, manifest) ∷ []) ≡ some s
      → (t : Networks registry) × (restore registry files ≡ some t) × (s.protected ≡ t.protected)
  unfolding served_networks
  restore-IsOff files manifest_file manifest s keeps h e =
      let start = no_networks registry [] in
      let last : List (String × Dict Value) = (manifest_file, manifest) ∷ [] in
      let (u, p, q) = restore-overlay (files ++ last) s e in
      let (v, p1, p2) =
        >>=-eq-some (overlay_manifests registry files start) _
          (rw (overlay_manifests-append files last start) at p) in
      (
        served_networks registry v,
        unfold restore in rw p1 refl,
        rw (← q, overlay-off manifest_file manifest v u keeps h p2) refl,
      )
