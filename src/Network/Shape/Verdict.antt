-- ===== src/Network/Shape/Verdict.antt =====
-- What the check of the shape tells of the agents.
use nora_fleet.Common.{
  ℕ, ◌+◌, String, ◌≡◌, ◌↔◌, refl, ap, ◌∙◌, Bool, true, Bool-cases, inl, inr, Option, none, some,
  List, [], ◌∷◌, ◌++◌, Dict, get, All, Value, null, bool, num, str, arr, obj, elements, entries,
  >>=-eq-some, some_inj,
}
use nora_fleet.Network.Shape.{
  Place, ShapeError, wrong_tool, wrong_args_tool, is_str_or_dict, is_str, check_list, check_dict,
  validate_tools, validate_args_value, validate_args_tools, validate_agent, validate_shape,
}

-- The shapes: tools are a list of texts and dictionaries, or absent; the tools of args, if there are
-- args and they have any, a list or a dictionary of texts.
abbrev pub IsToolList : Option Value → Type 0
IsToolList none = Unit
IsToolList (some null) = Unit
IsToolList (some (arr vs)) = All (λ v. is_str_or_dict v ≡ true) (elements vs)
IsToolList (some _) = ⊥

abbrev pub IsNameCollection : Option Value → Type 0
IsNameCollection none = Unit
IsNameCollection (some (arr vs)) = All (λ v. is_str v ≡ true) (elements vs)
IsNameCollection (some (obj fs)) = All (λ e. is_str e.1 ≡ true) (entries fs)
IsNameCollection (some _) = ⊥

abbrev pub IsArgs : Option Value → Type 0
IsArgs (some (obj fs)) = IsNameCollection (get "tools" (entries fs))
IsArgs _ = Unit

abbrev pub IsShaped : String × Value → Type 0
IsShaped (name, obj fs) = IsToolList (get "tools" (entries fs)) × IsArgs (get "args" (entries fs))
IsShaped (name, _) = ⊥

check_list-nil :
    (is_allowed : Value → Bool) (error : Place → ShapeError) (i : ℕ) (vs : List Value)
    → (check_list is_allowed error i vs ≡ []) ↔ All (λ v. is_allowed v ≡ true) vs
unfolding check_list
check_list-nil is_allowed error i [] = (λ e. tt, λ a. refl)
check_list-nil is_allowed error i (v ∷ vs) = elim (Bool-cases (is_allowed v)) [
  | inl ok ↦
      let (to, from) = check_list-nil is_allowed error (i + 1) vs in
      (λ e. (ok, to (rw ok at e)), λ a. rw ok (from a.1))
  | inr bad ↦ (λ e. absurd (cc (rw bad at e)), λ a. absurd (cc (a.0, bad)))
]

check_dict-nil :
    (is_allowed : Value → Bool) (error : Place → ShapeError) (d : Dict Value)
    → (check_dict is_allowed error d ≡ []) ↔ All (λ e. is_allowed e.1 ≡ true) d
unfolding check_dict
check_dict-nil is_allowed error [] = (λ e. tt, λ a. refl)
check_dict-nil is_allowed error ((key, v) ∷ d) = elim (Bool-cases (is_allowed v)) [
  | inl ok ↦
      let (to, from) = check_dict-nil is_allowed error d in
      (λ e. (ok, to (rw ok at e)), λ a. rw ok (from a.1))
  | inr bad ↦ (λ e. absurd (cc (rw bad at e)), λ a. absurd (cc (a.0, bad)))
]

validate_tools-nil :
    (name : String) (o : Option Value) → (validate_tools name o ≡ []) ↔ IsToolList o
unfolding validate_tools
validate_tools-nil name none = (λ e. tt, λ a. refl)
validate_tools-nil name (some null) = (λ e. tt, λ a. refl)
validate_tools-nil name (some (arr vs)) =
    check_list-nil is_str_or_dict (wrong_tool name) 0 (elements vs)
validate_tools-nil name (some (bool b)) = (λ e. cc, λ a. absurd a)
validate_tools-nil name (some (num n)) = (λ e. cc, λ a. absurd a)
validate_tools-nil name (some (str s)) = (λ e. cc, λ a. absurd a)
validate_tools-nil name (some (obj fs)) = (λ e. cc, λ a. absurd a)

validate_args_value-nil :
    (name : String) (o : Option Value) → (validate_args_value name o ≡ []) ↔ IsNameCollection o
unfolding validate_args_value
validate_args_value-nil name none = (λ e. tt, λ a. refl)
validate_args_value-nil name (some (arr vs)) =
    check_list-nil is_str (wrong_args_tool name) 0 (elements vs)
validate_args_value-nil name (some (obj fs)) =
    check_dict-nil is_str (wrong_args_tool name) (entries fs)
validate_args_value-nil name (some null) = (λ e. cc, λ a. absurd a)
validate_args_value-nil name (some (bool b)) = (λ e. cc, λ a. absurd a)
validate_args_value-nil name (some (num n)) = (λ e. cc, λ a. absurd a)
validate_args_value-nil name (some (str s)) = (λ e. cc, λ a. absurd a)

validate_args_tools-nil :
    (name : String) (o : Option Value) → (validate_args_tools name o ≡ []) ↔ IsArgs o
unfolding validate_args_tools
validate_args_tools-nil name (some (obj fs)) =
    validate_args_value-nil name (get "tools" (entries fs))
validate_args_tools-nil name none = (λ e. tt, λ a. refl)
validate_args_tools-nil name (some null) = (λ e. tt, λ a. refl)
validate_args_tools-nil name (some (bool b)) = (λ e. tt, λ a. refl)
validate_args_tools-nil name (some (num n)) = (λ e. tt, λ a. refl)
validate_args_tools-nil name (some (str s)) = (λ e. tt, λ a. refl)
validate_args_tools-nil name (some (arr vs)) = (λ e. tt, λ a. refl)

both-nil : {A : Type 0} (xs ys : List A) → (xs ++ ys ≡ []) ↔ ((xs ≡ []) × (ys ≡ []))
both-nil [] ys = (λ e. (refl, e), λ p. p.1)
both-nil (x ∷ xs) ys = (λ e. cc, λ p. absurd (cc p.0))

validate_agent-nil :
    (name : String) (spec : Value) → (validate_agent name spec ≡ some []) ↔ IsShaped (name, spec)
unfolding validate_agent
validate_agent-nil name (obj fs) =
    let tools = validate_tools-nil name (get "tools" (entries fs)) in
    let args = validate_args_tools-nil name (get "args" (entries fs)) in
    let split =
      both-nil (validate_tools name (get "tools" (entries fs)))
        (validate_args_tools name (get "args" (entries fs))) in
    (
      λ e. let (p, q) = split.0 (some_inj e) in (tools.0 p, args.0 q),
      λ s. ap some (split.1 (tools.1 s.0, args.1 s.1)),
    )
validate_agent-nil name null = (λ e. cc, λ a. absurd a)
validate_agent-nil name (bool b) = (λ e. cc, λ a. absurd a)
validate_agent-nil name (num n) = (λ e. cc, λ a. absurd a)
validate_agent-nil name (str s) = (λ e. cc, λ a. absurd a)
validate_agent-nil name (arr vs) = (λ e. cc, λ a. absurd a)

-- The check of the shape returns and reports nothing exactly if every agent is a dictionary whose
-- tools, if there are any, are a list of texts and dictionaries, and the tools in whose args, if
-- there are any, are a list or a dictionary of texts.
pub validate_shape_lem : (net : Dict Value) → (validate_shape net ≡ some []) ↔ All IsShaped net
unfolding validate_shape
validate_shape_lem [] = (λ e. tt, λ a. refl)
validate_shape_lem ((name, spec) ∷ rest) =
    let here = validate_agent-nil name spec in
    let later = validate_shape_lem rest in
    (
      λ e.
          let (these, p, e') = >>=-eq-some (validate_agent name spec) _ e in
          let (others, q, e'') = >>=-eq-some (validate_shape rest) _ e' in
          let (none_here, none_later) = (both-nil these others).0 (some_inj e'') in
          (here.0 (p ∙ ap some none_here), later.0 (q ∙ ap some none_later)),
      λ a. rw (here.1 a.0, later.1 a.1),
    )
