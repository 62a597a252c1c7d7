-- ===== src/Manifests/Validated.antt =====
-- Whatever the manifests say, only networks that passed the validation are served.
use nora_fleet.Common.{
  String, ◌≡◌, refl, sym, true, Option, none, some, List, [], ◌∷◌, All, Dict, put, is_empty, ◌==◌,
  eq_iff, Value, Bool-cases, Option-cases, inl, inr, >>=-eq-some, some_inj,
}
use mathlib.Core.Path.{subst}
use nora_fleet.Redactor.{truthy}
use nora_fleet.Messages.{value_at}
use nora_fleet.Manifests.{filter_manifest, served}
use nora_fleet.Manifests.Restore.{
  AgentNetwork, Registry, Networks, no_networks, is_served, find_external_network_names, accept,
  process_one_agent_network, read_one_agent_network, store, maybe_store_agent_network,
  store_entries, restore_one_manifest, overlay_manifests, served_networks, restore,
}

is_empty-nil : (xs : List String) → is_empty xs ≡ true → xs ≡ []
is_empty-nil [] h = refl
is_empty-nil (x ∷ xs) h = cc

module _ (registry : Registry) where
  open registry use {Network, restore_one, validate, network_name, overlay}

  -- A network that was restored under a key of a manifest that stands for its name, and in which the
  -- validator found no errors, with some names of external networks.
  abbrev pub IsValidated : String → AgentNetwork Network → Type 0
  IsValidated name n =
      (manifest_file : String) × (key : String) × (external : List String) × (network_name key
        ≡ name)
      × (restore_one manifest_file key ≡ some n.network)
      × (validate external name n.network ≡ [])

  abbrev pub Accepts : String × Option (AgentNetwork Network) → Type 0
  Accepts (name, none) = Unit
  Accepts (name, some n) = IsValidated name n

  -- Each entry of an overlay is an entry of one of the two dictionaries.
  abbrev pub IsUpdate : Type 1
  IsUpdate =
      (P : String × Option (AgentNetwork Network) → Type 0)
      (d e : Dict (Option (AgentNetwork Network)))
      → All P d
      → All P e
      → All P (overlay d e)

  abbrev AllAccept : Networks registry → Type 0
  AllAccept s = All Accepts s.public × All Accepts s.protected

  All-put :
      (name : String) (n : Option (AgentNetwork Network)) (d : Dict (Option (AgentNetwork Network)))
      → All Accepts d
      → Accepts (name, n)
      → All Accepts (put name n d)
  unfolding put
  All-put name n [] h a = (a, tt)
  All-put name n ((j, m) ∷ d) h a = elim (Bool-cases (j == name)) [
    | inl same ↦ rw same (subst (λ x. Accepts (x, n)) (sym ((eq_iff j name).0 same)) a, h.1)
    | inr other ↦ rw other (h.0, All-put name n d h.1 a)
  ]

  read_one-Accepts :
      (manifest_file : String) (external : List String) (key : String) (entry : Dict Value)
      → Accepts (network_name key, read_one_agent_network registry manifest_file external key entry)
  unfolding read_one_agent_network process_one_agent_network accept
  read_one-Accepts manifest_file external key entry = elim (Bool-cases (is_served registry entry)) [
    | inr unserved ↦ rw unserved tt
    | inl serve ↦ elim (Option-cases (restore_one manifest_file key)) [
      | inl absent ↦ rw (serve, absent) tt
      | inr (n, p) ↦ elim (Bool-cases (is_empty (validate external (network_name key) n))) [
        | inr errors ↦ rw (serve, p, errors) tt
        | inl valid ↦
            rw (serve, p, valid)
              (
                manifest_file,
                key,
                external,
                refl,
                p,
                is_empty-nil (validate external (network_name key) n) valid,
              )
      ]
    ]
  ]

  store-AllAccept :
      (name : String) (entry : Dict Value) (n : Option (AgentNetwork Network))
      (s : Networks registry)
      → Accepts (name, n)
      → AllAccept s
      → AllAccept (store registry name entry n s)
  unfolding store
  store-AllAccept name entry n s a h = elim (Bool-cases (truthy (value_at "public" entry))) [
    | inl p ↦ rw p (All-put name n s.public h.0 a, h.1)
    | inr p ↦ rw p (h.0, All-put name n s.protected h.1 a)
  ]

  maybe_store-AllAccept :
      (name : String) (entry : Dict Value) (n : Option (AgentNetwork Network))
      (s : Networks registry)
      → Accepts (name, n)
      → AllAccept s
      → AllAccept (maybe_store_agent_network registry n name entry s)
  unfolding maybe_store_agent_network
  maybe_store-AllAccept name entry none s a h = elim (Bool-cases (is_served registry entry)) [
    | inl p ↦ rw p h
    | inr p ↦ rw p (store-AllAccept name entry none s a h)
  ]
  maybe_store-AllAccept name entry (some n) s a h = store-AllAccept name entry (some n) s a h

  store_entries-AllAccept :
      (manifest_file : String) (external : List String) (entries : Dict (Dict Value))
      (s : Networks registry)
      → AllAccept s
      → AllAccept (store_entries registry manifest_file external entries s)
  unfolding store_entries
  store_entries-AllAccept manifest_file external [] s h = h
  store_entries-AllAccept manifest_file external ((key, entry) ∷ entries) s h =
      store_entries-AllAccept manifest_file external entries _ (
        maybe_store-AllAccept (network_name key) entry
          (read_one_agent_network registry manifest_file external key entry) s
          (read_one-Accepts manifest_file external key entry) h)

  restore_one-AllAccept :
      (manifest_file : String) (manifest configs : Dict Value) (s : Networks registry)
      → restore_one_manifest registry manifest_file manifest configs ≡ some s
      → AllAccept s
  unfolding restore_one_manifest no_networks
  restore_one-AllAccept manifest_file [] configs s e = rw (← some_inj e) (tt, tt)
  restore_one-AllAccept manifest_file (entry ∷ rest) configs s e =
      let (entries, p, q) = >>=-eq-some (filter_manifest registry.is_valid (entry ∷ rest)) _ e in
      rw (← some_inj q) (
        store_entries-AllAccept manifest_file (find_external_network_names registry entries) entries
          (no_networks registry configs) (tt, tt))

  overlay-AllAccept :
      IsUpdate
      → (files : List (String × Dict Value)) (s t : Networks registry) → AllAccept s
      → overlay_manifests registry files s ≡ some t
      → AllAccept t
  unfolding overlay_manifests
  overlay-AllAccept update [] s t h e = rw (← some_inj e) h
  overlay-AllAccept update ((manifest_file, manifest) ∷ rest) s t h e =
      let (one, p, q) =
        >>=-eq-some (restore_one_manifest registry manifest_file manifest s.periodic_configs) _ e in
      let h' = restore_one-AllAccept manifest_file manifest s.periodic_configs one p in
      overlay-AllAccept update rest _ t
        (
          update Accepts s.public one.public h.0 h'.0,
          update Accepts s.protected one.protected h.1 h'.1,
        )
        q

  -- A name that has a network, which is validated.
  abbrev pub IsServed : String × Option (AgentNetwork Network) → Type 0
  IsServed (name, o) = (n : AgentNetwork Network) × (o ≡ some n) × IsValidated name n

  served-IsServed :
      (d : Dict (Option (AgentNetwork Network))) → All Accepts d → All IsServed (served d)
  unfolding served
  served-IsServed [] h = tt
  served-IsServed ((name, none) ∷ d) h = served-IsServed d h.1
  served-IsServed ((name, some n) ∷ d) h = ((n, refl, h.0), served-IsServed d h.1)

  -- Where each entry of an overlay is an entry of one of the two dictionaries: whatever the manifests
  -- hold, each name in the public and in the protected storage that they are restored to has a
  -- network, which was restored under a key of a manifest for that name and has no validation errors.
  pub restore_lem :
      (files : List (String × Dict Value)) (s : Networks registry)
      → IsUpdate
      → restore registry files ≡ some s
      → All IsServed s.public × All IsServed s.protected
  unfolding restore served_networks no_networks
  restore_lem files s update e =
      let (t, p, q) =
        >>=-eq-some (overlay_manifests registry files (no_networks registry [])) _ e in
      let h = overlay-AllAccept update files (no_networks registry []) t (tt, tt) p in
      rw (← some_inj q) (served-IsServed t.public h.0, served-IsServed t.protected h.1)
