-- ===== src/Authorization/Laws.antt =====
-- What the policy needs of an authorizer, which authorizers have it, and what follows for the agents
-- that are listed.
use nora_fleet.Common.{
  String, ◌≡◌, refl, ap, ◌∙◌, ◌↔◌, true, ◌&&◌, Option, none, some, List, [], ◌∷◌, eq_iff, elem,
  elem-keys, In, Dict, get, keys, is_some, >>=-eq-some, some_inj, arith,
}
use nora_fleet.Authorization.{
  Entity, Authorizer, always_yes, always_no, AgentAuthorizationPolicy, keep_listed, intersection,
  actor_of, allow_agent, list_agents,
}
use nora_fleet.Authorization.Objects.{IsPlain}

-- An answer of `list` names an id; None names every one.
abbrev pub Lists : Option (List String) → String → Type 0
Lists none id = Unit
Lists (some ids) id = In id ids

-- `list` names the ids without a colon for which `authorize` returns True, and no others.
abbrev pub IsConsistent : Authorizer → Entity → String → String → Type 0
IsConsistent a actor relation type =
    (answer : Option (List String)) (id : String)
    → IsPlain id
    → a.list actor relation (record { type = type; id = none }) ≡ some answer
    → Lists answer id
      ↔ (a.authorize actor relation (record { type = type; id = some id }) ≡ some true)

pub always_yes-IsConsistent :
    (actor : Entity) (relation type : String) → IsConsistent always_yes actor relation type
always_yes-IsConsistent actor relation type answer id plain e =
    rw (← some_inj e) (λ h. refl, λ h. tt)

pub always_no-IsConsistent :
    (actor : Entity) (relation type : String) → IsConsistent always_no actor relation type
unfolding elem
always_no-IsConsistent actor relation type answer id plain e = rw (← some_inj e) (λ h. cc, λ h. cc)

elem-keep_listed :
    (x : String) (ids names : List String)
    → elem x (keep_listed ids names) ≡ (elem x ids && elem x names)
unfolding keep_listed elem
elem-keep_listed x ids [] = ground arith
elem-keep_listed x ids (name ∷ names) = ground (arith, elem-keep_listed x ids names, eq_iff name x)

intersection-In :
    (x : String) (o : Option (List String)) (names : List String)
    → In x (intersection o names) ↔ (Lists o x × In x names)
unfolding intersection
intersection-In x none names = (λ h. (tt, h), λ h. h.1)
intersection-In x (some ids) names =
    rw (elem-keep_listed x ids names) (λ h. ground (arith, h), λ h. ground (arith, h.0, h.1))

×-split {ℓ κ} :
    {A : Type ℓ} {B : Type κ} {a a' : A} {b b' : B}
    → Path (A × B) (a, b) (a', b')
    → (a ≡ a') × (b ≡ b')
×-split h = (ap (λ x. x.0) h, ap (λ x. x.1) h)

is_some_iff {ℓ} : {A : Type ℓ} (o : Option A) → (is_some o ≡ true) ↔ ((a : A) × (o ≡ some a))
is_some_iff none = (λ h. cc, λ (a, h). cc)
is_some_iff (some a) = (λ h. (a, refl), λ h. refl)

-- An id that is listed names an agent that there is.
In-keys {ℓ} :
    {V : Type ℓ} (name : String) (agents : Dict V)
    → In name (keys agents) ↔ ((v : V) × (get name agents ≡ some v))
In-keys name agents = rw (elem-keys name agents) (is_some_iff (get name agents))

module _ {Provider : Type 0} (policy : AgentAuthorizationPolicy Provider) where
  allow_agent-true :
      (name : String) (actor_id : Option String) (p : Provider)
      → (allow_agent policy name actor_id ≡ some (true, some p)) ↔ (
          (policy.authorizer.authorize
              (actor_of policy actor_id)
              policy.allow_relation
              (record { type = policy.resource_key; id = some name })
            ≡ some true)
          × (get name policy.allowed_agents ≡ some p))
  unfolding allow_agent
  allow_agent-true name actor_id p = (
    λ h.
        let (b, authorized, e) = >>=-eq-some (policy.authorizer.authorize _ _ _) _ h in
        let (ok, got) = ×-split (some_inj e) in (authorized ∙ ap some ok, got),
    λ (ok, got). rw (ok, got) refl,
  )

  -- Under an authorizer whose `list` agrees with its `authorize` on the ids without a colon, and where
  -- listing raises no exception, an agent whose name has no colon is listed for an actor exactly where
  -- the policy allows the actor the agent and has a provider for it.
  pub list_agents_lem :
      (actor_id : Option String) (names : List String) (name : String)
      → IsConsistent policy.authorizer
          (actor_of policy actor_id)
          policy.allow_relation
          policy.resource_key
      → IsPlain name
      → list_agents policy actor_id ≡ some names
      → In name names ↔ ((p : Provider) × (allow_agent policy name actor_id ≡ some (true, some p)))
  unfolding list_agents
  list_agents_lem actor_id names name consistent plain e =
      let (answer, listed, e') = >>=-eq-some (policy.authorizer.list _ _ _) _ e in
      let (to, from) = consistent answer name plain listed in
      let (split, join) = intersection-In name answer (keys policy.allowed_agents) in
      let (find, place) = In-keys name policy.allowed_agents in
      rw (← some_inj e') (
        λ h.
            let (ok, there) = split h in
            let (p, got) = find there in (p, (allow_agent-true name actor_id p).1 (to ok, got)),
        λ (p, h).
            let (ok, got) = (allow_agent-true name actor_id p).0 h in
            join (from ok, place (p, got)),
      )
