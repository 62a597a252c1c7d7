-- ===== src/Network/Parameters/Schemas.antt =====
-- The schemas below a schema, and what the walk tells of them.
use nora_fleet.Common.{
  String, ◌⊎◌, ◌≡◌, refl, ap, ◌∙◌, ◌↔◌, Option, none, some, List, [], ◌∷◌, ◌==◌, Dict, get, Value,
  Fields, obj, end, field, entries, Bool-cases, inl, inr, some_inj,
}
use nora_fleet.Network.Parameters.{
  found, walk, walk_properties, walk_each, walk_fields, walk_items, property_path, items_path,
}

-- An entry of a dictionary.
abbrev pub Listed : String → Value → Dict Value → Type 0
Listed name v [] = ⊥
Listed name v ((k, w) ∷ d) = ((k ≡ name) × (w ≡ v)) ⊎ Listed name v d

-- A schema stands at a path below another: it is the schema itself, or stands below a dictionary that
-- is one of its properties or its items.
pub data Below : String → Fields → String → Fields → Type 0 where
  here : {path p : String} {fs s : Fields} → path ≡ p → fs ≡ s → Below path fs p s
  in_property :
      {path p : String} {fs s : Fields} (name : String) (ps child : Fields)
      → get "properties" (entries fs) ≡ some (obj ps)
      → Listed name (obj child) (entries ps)
      → Below (property_path path name) child p s
      → Below path fs p s
  in_items :
      {path p : String} {fs s : Fields} (child : Fields)
      → get "items" (entries fs) ≡ some (obj child)
      → Below (items_path path) child p s
      → Below path fs p s

pub found-nil :
    {E : Type 0} (a b : Option (List E)) → (found a b ≡ some []) ↔ ((a ≡ some []) × (b ≡ some []))
unfolding found
found-nil none b = (λ h. cc, λ h. cc)
found-nil (some xs) none = (λ h. cc, λ h. cc)
found-nil (some []) (some ys) = (λ h. (refl, h), λ h. h.1)
found-nil (some (x ∷ xs)) (some ys) = (λ h. cc, λ h. cc)

module _ {E : Type 0} (check : String → Dict Value → Option (List E)) where
  -- The check finds nothing in any schema below the value.
  abbrev pub IsClean : String → Value → Type 0
  IsClean path v =
      (fs : Fields) (p : String) (s : Fields)
      → v ≡ obj fs
      → Below path fs p s
      → check p (entries s) ≡ some []

  abbrev CleanEntries : String → Fields → Type 0
  CleanEntries path fs =
      (name : String) (v : Value) → Listed name v (entries fs) → IsClean (property_path path name) v

  abbrev CleanProperties : String → Fields → Type 0
  CleanProperties path fs =
      (ps : Fields) → get "properties" (entries fs) ≡ some (obj ps) → CleanEntries path ps

  abbrev CleanItems : String → Fields → Type 0
  CleanItems path fs = (v : Value) → get "items" (entries fs) ≡ some v → IsClean (items_path path) v

  obj_inj : {fs fs' : Fields} → obj fs ≡ obj fs' → fs ≡ fs'
  obj_inj e = cc

  IsClean-Below :
      (path : String) (fs fs' : Fields) (p : String) (s : Fields)
      → (check path (entries fs) ≡ some []) × CleanProperties path fs × CleanItems path fs
      → fs ≡ fs'
      → Below path fs' p s
      → check p (entries s) ≡ some []
  IsClean-Below path fs fs' p s (self, properties, items) e (here e' e'') =
      rw (← e', ← e'', ← e) self
  IsClean-Below path fs fs' p s (self, properties, items) e
        (in_property name ps child at_properties listed below) =
      properties ps (rw e at_properties) name (obj child) listed child p s refl below
  IsClean-Below path fs fs' p s (self, properties, items) e (in_items child at_items below) =
      items (obj child) (rw e at_items) child p s refl below

  -- A schema is clean if the check finds nothing in it, and its properties and items are clean.
  parts-IsClean :
      (path : String) (fs : Fields)
      → (check path (entries fs) ≡ some []) × CleanProperties path fs × CleanItems path fs
      → IsClean path (obj fs)
  parts-IsClean path fs (self, properties, items) fs' p s e below =
      IsClean-Below path fs fs' p s (self, properties, items) (obj_inj e) below

  IsClean-parts :
      (path : String) (fs : Fields)
      → IsClean path (obj fs)
      → (check path (entries fs) ≡ some []) × CleanProperties path fs × CleanItems path fs
  IsClean-parts path fs h = (
    h fs path fs refl (here refl refl),
    λ ps at_properties name v listed child p s e below.
        h fs p s refl (in_property name ps child at_properties (rw e at listed) below),
    λ v at_items child p s e below. h fs p s refl (in_items child (at_items ∙ ap some e) below),
  )

  mutual
    unfolding walk get

    walk_lem : (path : String) (v : Value) → (walk check path v ≡ some []) ↔ IsClean path v
    walk_lem path (obj fs) =
        let (split, join) =
          found-nil (check path (entries fs))
            (found (walk_properties check path fs) (walk_items check path fs)) in
        let (split', join') =
          found-nil (walk_properties check path fs) (walk_items check path fs) in
        let (properties_to, properties_from) = walk_properties_lem path fs in
        let (items_to, items_from) = walk_items_lem path fs in
        (
          λ h.
              let (self, rest) = split h in
              let (properties, items) = split' rest in
              parts-IsClean path fs (self, properties_to properties, items_to items),
          λ h.
              let (self, properties, items) = IsClean-parts path fs h in
              join (self, join' (properties_from properties, items_from items)),
        )
    walk_lem path v = (λ h fs p s e. cc, λ h. refl)

    walk_properties_lem :
        (path : String) (fs : Fields)
        → (walk_properties check path fs ≡ some []) ↔ CleanProperties path fs
    walk_properties_lem path end = (λ h ps e. cc, λ h. refl)
    walk_properties_lem path (field key v fs) = elim (Bool-cases (key == "properties")) [
      | inl same ↦
          let (to, from) = walk_each_lem path v in
          rw same (λ h ps e. to h ps (some_inj e), λ h. from (λ ps e. h ps (ap some e)))
      | inr other ↦ rw other (walk_properties_lem path fs)
    ]

    walk_each_lem :
        (path : String) (v : Value)
        → (walk_each check path v ≡ some []) ↔ ((ps : Fields) → v ≡ obj ps → CleanEntries path ps)
    walk_each_lem path (obj fs) =
        let (to, from) = walk_fields_lem path fs in
        (λ h ps e. rw (← obj_inj e) (to h), λ h. from (h fs refl))
    walk_each_lem path v = (λ h ps e. cc, λ h. refl)

    walk_fields_lem :
        (path : String) (fs : Fields) → (walk_fields check path fs ≡ some []) ↔ CleanEntries path fs
    walk_fields_lem path end = (λ h name v m. absurd m, λ h. refl)
    walk_fields_lem path (field key w fs) =
        let (split, join) =
          found-nil (walk check (property_path path key) w) (walk_fields check path fs) in
        let (to, from) = walk_lem (property_path path key) w in
        let (rest_to, rest_from) = walk_fields_lem path fs in
        (
          λ h name v m.
              let (this, rest) = split h in
              elim m [
                | inl (e, e') ↦ rw (← e, ← e') (to this)
                | inr later ↦ rest_to rest name v later
              ],
          λ h. join (from (h key w (inl (refl, refl))), rest_from (λ name v m. h name v (inr m))),
        )

    walk_items_lem :
        (path : String) (fs : Fields) → (walk_items check path fs ≡ some []) ↔ CleanItems path fs
    walk_items_lem path end = (λ h v e. cc, λ h. refl)
    walk_items_lem path (field key w fs) = elim (Bool-cases (key == "items")) [
      | inl same ↦
          let (to, from) = walk_lem (items_path path) w in
          rw same (λ h v e. rw (← some_inj e) (to h), λ h. from (h w refl))
      | inr other ↦ rw other (walk_items_lem path fs)
    ]

  -- The walk finds nothing exactly if the check finds nothing in any schema below.
  pub walk-IsClean : (path : String) (v : Value) → (walk check path v ≡ some []) ↔ IsClean path v
  walk-IsClean path v = walk_lem path v
