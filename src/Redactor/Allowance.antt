-- ===== src/Redactor/Allowance.antt =====
-- What passes the redactor.
use nora_fleet.Common.{
  String, ◌≡◌, ◌≢◌, refl, ap, sym, ◌∙◌, true, false, not, ◌&&◌, ◌⊎◌, inl, inr, Option, none, some,
  [], ◌∷◌, if◌then◌else◌, ◌==◌, is_empty, Dict, get, get-put, get-empty, Value, Fields, null, bool,
  str, obj, end, entries, from_entries, entries-from_entries, arith, eq_iff, Bool-cases,
  >>=-eq-some, some_inj,
}
use nora_fleet.Network.{Extract}
use nora_fleet.Redactor.{
  SlyDataRedactor, truthy, maybe_empty, find_allowance, let_through, let_value, redact, allow_rules,
  filter_by, filter_config, basis_entries, is_true,
}

-- A rule lets a key through under a name.
abbrev pub Grants : String × Value → String → Type 0
Grants (source, dest) name = (dest ≡ str name) ⊎ ((dest ≡ bool true) × (source ≡ name))

-- Some rule of a list lets a value of the data through under a name.
abbrev pub Granted : Dict Value → Dict Value → String → Value → Type 0
Granted [] basis name v = ⊥
Granted (rule ∷ rest) basis name v =
    (Grants rule name × (get rule.0 basis ≡ some v) × (v ≢ null)) ⊎ Granted rest basis name v

let_through_sound :
    (source : String) (dest w : Value) (acc : Dict Value) (name : String) (v : Value)
    → get name (let_through source dest w acc) ≡ some v
    → (get name acc ≡ some v) ⊎ (Grants (source, dest) name × (w ≡ v))
unfolding let_through
let_through_sound source (str d) w acc name v e = elim (Bool-cases (d == name)) [
  | inl same ↦ inr (inl (ap str ((eq_iff d name).0 same)), ground (arith, get-put d name w acc))
  | inr other ↦ inl (ground (arith, get-put d name w acc))
]
let_through_sound source (bool true) w acc name v e = elim (Bool-cases (source == name)) [
  | inl same ↦
      inr (inr (refl, (eq_iff source name).0 same), ground (arith, get-put source name w acc))
  | inr other ↦ inl (ground (arith, get-put source name w acc))
]
let_through_sound source _ w acc name v e = inl e

let_value_sound :
    (source : String) (dest : Value) (o : Option Value) (acc : Dict Value) (name : String)
    (v : Value)
    → get name (let_value source dest o acc) ≡ some v
    → (get name acc ≡ some v) ⊎ (Grants (source, dest) name × (o ≡ some v) × (v ≢ null))
unfolding let_value
let_value_sound source dest none acc name v e = inl e
let_value_sound source dest (some null) acc name v e = inl e
let_value_sound source dest (some w) acc name v e =
    elim (let_through_sound source dest w acc name v e) [
      | inl before ↦ inl before
      | inr (g, same) ↦ inr (g, ap some same, λ n. cc)
    ]

redact_sound :
    (rules basis acc : Dict Value) (name : String) (v : Value)
    → get name (redact rules basis acc) ≡ some v
    → (get name acc ≡ some v) ⊎ Granted rules basis name v
unfolding redact
redact_sound [] basis acc name v e = inl e
redact_sound ((source, dest) ∷ rest) basis acc name v e =
    elim (redact_sound rest basis (let_value source dest (get source basis) acc) name v e) [
      | inr later ↦ inr (inr later)
      | inl now ↦ elim (let_value_sound source dest (get source basis) acc name v now) [
        | inl before ↦ inl before
        | inr granted ↦ inr (inl granted)
      ]
    ]

maybe_empty-kept : (r : SlyDataRedactor) (v w : Value) → maybe_empty r v ≡ w → (w ≡ null) ⊎ (v ≡ w)
unfolding maybe_empty
maybe_empty-kept r v w e = elim (Bool-cases (not r.allow_empty_dict && not (truthy v))) [
  | inl on ↦ inl (sym (rw on at e))
  | inr off ↦ inr (rw off at e)
]

Granted-in :
    (r : SlyDataRedactor) (rules basis : Dict Value) (fs : Fields) (name : String) (v : Value)
    → maybe_empty r (obj (from_entries (redact rules basis []))) ≡ obj fs
    → get name (entries fs) ≡ some v
    → Granted rules basis name v
Granted-in r rules basis fs name v e g =
    elim (maybe_empty-kept r (obj (from_entries (redact rules basis []))) (obj fs) e) [
      | inl bad ↦ absurd (cc bad)
      | inr kept ↦
          let same : from_entries (redact rules basis []) ≡ fs = cc in
          let list : redact rules basis [] ≡ entries fs =
            sym (entries-from_entries (redact rules basis [])) ∙ ap entries same in
          elim (redact_sound rules basis [] name v (rw list g)) [
            | inl start ↦ absurd (cc (get-empty {V = Value} name, start))
            | inr granted ↦ granted
          ]
    ]

empty_passes :
    (r : SlyDataRedactor) (fs : Fields) (name : String) (v : Value)
    → maybe_empty r (obj end) ≡ obj fs
    → get name (entries fs) ≡ some v
    → ⊥
empty_passes r fs name v e g = elim (maybe_empty-kept r (obj end) (obj fs) e) [
  | inl bad ↦ cc bad
  | inr kept ↦ absurd (cc (get-empty {V = Value} name, kept, g))
]

-- Unless the configured allowance is the plain True, each entry of what passes is the value of an
-- entry of the data, not null, that a rule of the allowance lets through under that name.
pub filter_config_sound :
    (extract : Extract) (r : SlyDataRedactor) (basis : Value) (fs : Fields) (name : String)
    (v : Value)
    → let allow = find_allowance extract r.agent_tool_spec r.config_keys (obj end) in
      is_true allow ≡ false
      → filter_config extract r basis ≡ some (obj fs)
      → get name (entries fs) ≡ some v
      → (rules : Dict Value) × (allow_rules allow ≡ some rules)
        × Granted rules (basis_entries basis) name v
unfolding filter_config filter_by
filter_config_sound extract r basis fs name v plain e g =
    let allow = find_allowance extract r.agent_tool_spec r.config_keys (obj end) in
    elim (Bool-cases (truthy allow)) [
      | inr off ↦ absurd (empty_passes r fs name v (some_inj (rw off at e)) g)
      | inl on ↦ elim (Bool-cases (is_empty (basis_entries basis))) [
        | inl none_in ↦
            absurd (empty_passes r fs name v (some_inj (rw (on, plain, none_in) at e)) g)
        | inr some_in ↦
            let (rules, found, rest) = >>=-eq-some _ _ (rw (on, plain, some_in) at e) in
            (rules, found, Granted-in r rules (basis_entries basis) fs name v (some_inj rest) g)
      ]
    ]

-- Where no allowance is configured, or one that is false or empty, nothing passes.
pub filter_config-denies :
    (extract : Extract) (r : SlyDataRedactor) (basis : Value)
    → truthy (find_allowance extract r.agent_tool_spec r.config_keys (obj end)) ≡ false
    → filter_config extract r basis ≡ some (if r.allow_empty_dict then obj end else null)
unfolding filter_config filter_by maybe_empty
filter_config-denies extract r basis h = ground arith
