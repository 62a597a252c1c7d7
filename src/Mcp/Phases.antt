-- ===== src/Mcp/Phases.antt =====
-- The phases of a session of McpSessionManager, by the requests alone.
use nora_fleet.Common.{
  String, ◌≡◌, refl, ap, ◌∙◌, Bool, true, false, ◌&&◌, Option, none, some, List, [], ◌∷◌,
  if◌then◌else◌, ◌==◌, eq_iff, is_empty, is_some, Dict, get, get-put, get-remove, contains, Value,
  obj, entries, Bool-cases, Option-cases, inl, inr, arith,
}
use nora_fleet.Messages.{value_at}
use nora_fleet.Mcp.Sessions.{
  Sessions, create_session, activate_session, delete_session, session_manager,
}
use nora_fleet.Mcp.{
  Response, Post, Service, initialize, acknowledge, dispatch, method_of, post_valid, post_body,
  post, delete,
}

pub data Request : Type 0 where
  posted : Post → Request
  deleted : Option String → Request

-- The phase of a session: none where there is no session, and otherwise whether it is active.
abbrev pub Phase : Type 0
Phase = Option Bool

abbrev pub acknowledged : String → Option String → Phase → Phase
acknowledged session_id none phase = phase
acknowledged session_id (some id) phase =
    if id == session_id && is_some phase then some true else phase

activate_session-get :
    (session_id : String) (header : Option String) (sessions : Sessions)
    → get session_id (activate_session header sessions).1
      ≡ acknowledged session_id header (get session_id sessions)
unfolding activate_session
activate_session-get session_id none sessions = refl
activate_session-get session_id (some id) sessions = elim (Bool-cases (id == session_id)) [
  | inr other ↦ ground (arith, other, get-put id session_id true sessions)
  | inl same ↦ rw ((eq_iff id session_id).0 same) (
      ground (
        arith,
        get-put session_id session_id true sessions,
        eq_iff session_id session_id,
        Option-cases (get session_id sessions),
      ))
]

module _ (service : Service) where
  -- The dictionary of a valid request.
  abbrev pub dict_of : Option Value → Option (Dict Value)
  dict_of (some (obj fs)) = if is_empty (service.validate (obj fs)) then some (entries fs) else none
  dict_of v = none

  abbrev pub left_by : Option (Response × Sessions) → Sessions → Sessions
  left_by none sessions = sessions
  left_by (some (response, sessions')) sessions = sessions'

  abbrev pub sessions_after : Request → Sessions → Sessions
  sessions_after (posted p) sessions = left_by (post service session_manager p sessions) sessions
  sessions_after (deleted session_id) sessions = (delete session_manager session_id sessions).1

  abbrev pub all_after : List Request → Sessions → Sessions
  all_after [] sessions = sessions
  all_after (r ∷ rs) sessions = all_after rs (sessions_after r sessions)

  -- What a valid request does to a session, by its method.
  abbrev pub handshake : String → String → Post → Dict Value → Phase → Phase
  handshake method session_id p data_dict phase =
      if method == "initialize"
      then (if contains "params" data_dict && p.fresh_id == session_id then some false else phase)
      else if method == "notifications/initialized"
      then acknowledged session_id p.session_id phase
      else phase

  abbrev pub shaken : Option (Dict Value) → String → Post → Phase → Phase
  shaken none session_id p phase = phase
  shaken (some d) session_id p phase =
      handshake (method_of service (value_at "method" d)) session_id p d phase

  -- The phase of a session, by the requests alone: `initialize` creates it, the acknowledgment of its
  -- client activates it, and a DELETE ends it.
  abbrev pub next_phase : String → Request → Phase → Phase
  next_phase session_id (posted p) phase = shaken (dict_of p.data_of_body) session_id p phase
  next_phase session_id (deleted none) phase = phase
  next_phase session_id (deleted (some id)) phase = if id == session_id then none else phase

  abbrev pub phase_after : String → List Request → Phase → Phase
  phase_after session_id [] phase = phase
  phase_after session_id (r ∷ rs) phase = phase_after session_id rs (next_phase session_id r phase)

  initialize-phase :
      (session_id : String) (p : Post) (d : Dict Value) (sessions : Sessions)
      → get session_id (initialize service session_manager p d sessions).1 ≡ (
          if contains "params" d && p.fresh_id == session_id
          then some false
          else get session_id sessions)
  unfolding initialize create_session
  initialize-phase session_id p d sessions =
      ground (arith, get-put p.fresh_id session_id false sessions)

  dispatch-phase :
      (session_id : String) (p : Post) (method : String) (d : Dict Value) (sessions : Sessions)
      → get session_id (dispatch service session_manager p method d sessions).1
        ≡ handshake method session_id p d (get session_id sessions)
  unfolding dispatch acknowledge
  dispatch-phase session_id p method d sessions = elim (Bool-cases (method == "initialize")) [
    | inl starts ↦ rw starts (initialize-phase session_id p d sessions)
    | inr goes_on ↦ elim (Bool-cases (method == "notifications/initialized")) [
      | inl activates ↦
          rw (goes_on, activates) (activate_session-get session_id p.session_id sessions)
      | inr later ↦ elim (Bool-cases (method == "ping")) [
        | inl pings ↦ rw (goes_on, later, pings) refl
        | inr other ↦ rw (goes_on, later, other) refl
      ]
    ]
  ]

  post_valid-phase :
      (session_id : String) (p : Post) (v : Value) (sessions : Sessions)
      → is_empty (service.validate v) ≡ true
      → get session_id (left_by (post_valid service session_manager p v sessions) sessions)
        ≡ shaken (dict_of (some v)) session_id p (get session_id sessions)
  unfolding post_valid
  post_valid-phase session_id p (obj fs) sessions h = rw h (
      dispatch-phase session_id p (method_of service (value_at "method" (entries fs))) (entries fs)
        sessions)
  post_valid-phase session_id p v sessions h = refl

  dict_of-invalid : (v : Value) → is_empty (service.validate v) ≡ false → dict_of (some v) ≡ none
  dict_of-invalid (obj fs) h = rw h refl
  dict_of-invalid v h = refl

  post-phase :
      (session_id : String) (p : Post) (o : Option Value) (sessions : Sessions)
      → get session_id (left_by (post_body service session_manager p o sessions) sessions)
        ≡ shaken (dict_of o) session_id p (get session_id sessions)
  unfolding post_body
  post-phase session_id p none sessions = refl
  post-phase session_id p (some v) sessions = elim (Bool-cases (is_empty (service.validate v))) [
    | inl valid ↦ rw valid (post_valid-phase session_id p v sessions valid)
    | inr invalid ↦ rw (invalid, dict_of-invalid v invalid) refl
  ]

  delete-phase :
      (session_id id : String) (sessions : Sessions)
      → get session_id (delete session_manager (some id) sessions).1
        ≡ (if id == session_id then none else get session_id sessions)
  unfolding delete delete_session
  delete-phase session_id id sessions = ground (
    arith,
    get-remove id session_id sessions,
    eq_iff id session_id,
    Option-cases (get id sessions),
  )

  next-phase :
      (session_id : String) (r : Request) (sessions : Sessions)
      → get session_id (sessions_after r sessions)
        ≡ next_phase session_id r (get session_id sessions)
  unfolding delete post
  next-phase session_id (posted p) sessions = post-phase session_id p p.data_of_body sessions
  next-phase session_id (deleted none) sessions = refl
  next-phase session_id (deleted (some id)) sessions = delete-phase session_id id sessions

  pub all-phase :
      (session_id : String) (rs : List Request) (sessions : Sessions)
      → get session_id (all_after rs sessions) ≡ phase_after session_id rs (get session_id sessions)
  all-phase session_id [] sessions = refl
  all-phase session_id (r ∷ rs) sessions =
      all-phase session_id rs (sessions_after r sessions)
      ∙ ap (phase_after session_id rs) (next-phase session_id r sessions)
