-- ===== src/Network/Keywords/Verdict.antt =====
-- The agents of a network without an error, where all keywords are asked for.
use nora_fleet.Common.{
  String, ◌≡◌, refl, ◌↔◌, false, Option, none, some, List, [], ◌∷◌, ◌++◌, ◌==◌, elem, Dict, get,
  Value, null, str, obj, entries, All, arith, ◌>>=◌, Bool-cases, inl, inr,
}
use nora_fleet.Messages.Json.{strip_text}
use nora_fleet.Network.Keywords.{
  KeywordError, check_text, check_function, validate_description, validate_instructions,
  keywords_of, when, validate_keywords,
}

-- A text that is not blank, or nothing.
abbrev pub IsWorded : Option Value → Type 0
IsWorded none = Unit
IsWorded (some null) = Unit
IsWorded (some (str s)) = (strip_text s == "") ≡ false
IsWorded (some _) = ⊥

abbrev pub IsFunction : Option Value → Type 0
IsFunction none = Unit
IsFunction (some null) = Unit
IsFunction (some (obj fs)) = IsWorded (get "description" (entries fs))
IsFunction (some _) = ⊥

-- The agent is a dictionary whose description and instructions are texts where it has any.
abbrev pub HasWords : String × Value → Type 0
HasWords (agent_name, obj fs) =
    IsFunction (get "function" (entries fs)) × IsWorded (get "instructions" (entries fs))
HasWords (agent_name, _) = ⊥

check_text-nil :
    (no_str empty : KeywordError) (o : Option Value) → (check_text no_str empty o ≡ []) ↔ IsWorded o
unfolding check_text
check_text-nil no_str empty none = (λ h. tt, λ h. refl)
check_text-nil no_str empty (some null) = (λ h. tt, λ h. refl)
check_text-nil no_str empty (some (str s)) = elim (Bool-cases (strip_text s == "")) [
  | inl blank ↦ (λ h. ground (arith, blank, h), λ h. ground (arith, blank, h))
  | inr text ↦ (λ h. text, λ h. rw text refl)
]
check_text-nil no_str empty (some v) = (λ h. cc, λ h. absurd h)

check_function-nil :
    (agent_name : String) (o : Option Value) → (check_function agent_name o ≡ []) ↔ IsFunction o
unfolding check_function
check_function-nil agent_name none = (λ h. tt, λ h. refl)
check_function-nil agent_name (some null) = (λ h. tt, λ h. refl)
check_function-nil agent_name (some (obj fs)) = check_text-nil _ _ (get "description" (entries fs))
check_function-nil agent_name (some v) = (λ h. cc, λ h. absurd h)

joined-nil :
    (xs ys : List KeywordError) (o : Option (List KeywordError))
    → ((o >>= λ others. some (xs ++ (ys ++ others))) ≡ some [])
      ↔ ((xs ≡ []) × (ys ≡ []) × (o ≡ some []))
joined-nil xs ys none = (λ h. cc, λ h. cc)
joined-nil (x ∷ xs) ys (some zs) = (λ h. cc, λ h. cc)
joined-nil [] (y ∷ ys) (some zs) = (λ h. cc, λ h. cc)
joined-nil [] [] (some zs) = (λ h. (refl, refl, h), λ h. h.2)

-- The check of all keywords finds nothing exactly if each agent is a dictionary whose description and
-- instructions are texts that are not blank, where it has any.
pub validate_keywords_lem :
    (net : Dict Value) → (validate_keywords (keywords_of none) net ≡ some []) ↔ All HasWords net
unfolding validate_keywords keywords_of when validate_description validate_instructions elem
validate_keywords_lem [] = (λ h. tt, λ h. refl)
validate_keywords_lem ((agent_name, obj fs) ∷ rest) =
    let described = check_function agent_name (get "function" (entries fs)) in
    let (split, join) = joined-nil described _ (validate_keywords (keywords_of none) rest) in
    let (to, from) = check_function-nil agent_name (get "function" (entries fs)) in
    let (to', from') = check_text-nil _ _ (get "instructions" (entries fs)) in
    let (rest_to, rest_from) = validate_keywords_lem rest in
    (
      λ h. let (d, i, others) = split h in ((to d, to' i), rest_to others),
      λ ((d, i), others). join (from d, from' i, rest_from others),
    )
validate_keywords_lem ((agent_name, v) ∷ rest) = (λ h. cc, λ (h, others). absurd h)
