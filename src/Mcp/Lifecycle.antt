-- ===== src/Mcp/Lifecycle.antt =====
-- In which sessions the methods are served, with McpSessionManager as the policy.
use nora_fleet.Common.{
  String, ◌≡◌, refl, ap, ◌∙◌, Bool, true, false, not, Option, none, some, List, [], ◌==◌, is_empty,
  Dict, get, Value, obj, Bool-cases, Option-cases, inl, inr, some_inj, arith,
}
use nora_fleet.Messages.{value_at}
use nora_fleet.Mcp.Sessions.{Sessions, is_session_active, session_manager}
use nora_fleet.Mcp.{
  Status, unauthorized, Response, Post, Service, succeed, or_empty, dictionary, call_with,
  call_response, respond_to_call, respond, is_supported, in_session, dispatch, method_of,
  post_valid, post_body, post,
}
use nora_fleet.Mcp.Phases.{Request, Phase, dict_of, all_after, phase_after, all-phase}

module _ (service : Service) where
  -- A response with a status other than the one for a request without a session.
  abbrev pub is_unauthorized : Status → Bool
  is_unauthorized unauthorized = true
  is_unauthorized _ = false

  succeed-authorized : (o : Option Value) → is_unauthorized (succeed o).status ≡ false
  succeed-authorized none = refl
  succeed-authorized (some v) = refl

  call-authorized :
      (o : Option (Dict Value)) → is_unauthorized (call_response service o).status ≡ false
  unfolding call_response call_with
  call-authorized none = refl
  call-authorized (some params) =
      elim (Bool-cases
        (is_empty (service.validate_tool_call (or_empty (get "arguments" params))))) [
          | inl valid ↦ rw valid (succeed-authorized _)
          | inr invalid ↦ rw invalid refl
        ]

  pub respond-authorized :
      (method : String) (d : Dict Value) → is_unauthorized (respond service method d).status ≡ false
  unfolding respond respond_to_call
  respond-authorized method d = ground (
    arith,
    succeed-authorized service.list_tools,
    succeed-authorized service.list_resources,
    succeed-authorized service.list_prompts,
    call-authorized (dictionary (or_empty (get "params" d))),
  )

  succeed-header : (o : Option Value) → (succeed o).session_header ≡ none
  succeed-header none = refl
  succeed-header (some v) = refl

  call-header : (o : Option (Dict Value)) → (call_response service o).session_header ≡ none
  unfolding call_response call_with
  call-header none = refl
  call-header (some params) =
      elim (Bool-cases
        (is_empty (service.validate_tool_call (or_empty (get "arguments" params))))) [
          | inl valid ↦ rw valid (succeed-header _)
          | inr invalid ↦ rw invalid refl
        ]

  pub respond-header :
      (method : String) (d : Dict Value) → (respond service method d).session_header ≡ none
  unfolding respond respond_to_call
  respond-header method d = ground (
    arith,
    succeed-header service.list_tools,
    succeed-header service.list_resources,
    succeed-header service.list_prompts,
    call-header (dictionary (or_empty (get "params" d))),
  )

  -- A method that is served in a session only.
  abbrev pub NeedsSession : String → Type 0
  NeedsSession method =
      ((method == "initialize") ≡ false)
      × ((method == "notifications/initialized") ≡ false)
      × ((method == "ping") ≡ false)

  abbrev pub is_live : Phase → Bool
  is_live none = false
  is_live (some active) = active

  active-live :
      (session_id : String) (sessions : Sessions)
      → is_session_active (some session_id) sessions ≡ is_live (get session_id sessions)
  unfolding is_session_active
  active-live session_id sessions = elim (Option-cases (get session_id sessions)) [
    | inl e ↦ rw (is_session_active, e) refl
    | inr (active, e) ↦ rw (is_session_active, e) refl
  ]

  in_session-live :
      (p : Post) (method : String) (d : Dict Value) (sessions : Sessions) (session_id : String)
      → is_supported service p.protocol_version ≡ true
      → p.session_id ≡ some session_id
      → is_unauthorized (in_session service session_manager p method d sessions).status
        ≡ not (is_live (get session_id sessions))
  unfolding in_session
  in_session-live p method d sessions session_id v h =
      let same : is_session_active p.session_id sessions ≡ is_live (get session_id sessions) =
        ap (λ o. is_session_active o sessions) h ∙ active-live session_id sessions in
      elim (Bool-cases (is_live (get session_id sessions))) [
        | inl live ↦ simp (v, same, live) (respond-authorized method d)
        | inr ended ↦ simp (v, same, ended) refl
      ]

  dispatch-live :
      (p : Post) (method : String) (d : Dict Value) (sessions : Sessions)
      → NeedsSession method
      → dispatch service session_manager p method d sessions
        ≡ (in_session service session_manager p method d sessions, sessions)
  unfolding dispatch
  dispatch-live p method d sessions (a, b, c) = rw (a, b, c) refl

  post-dict :
      (p : Post) (o : Option Value) (sessions : Sessions) {d : Dict Value}
      → dict_of service o ≡ some d
      → post_body service session_manager p o sessions
        ≡ some (
            dispatch service session_manager p (method_of service (value_at "method" d)) d sessions)
  unfolding post_body post_valid
  post-dict p (some (obj fs)) sessions h =
      elim (Bool-cases (is_empty (service.validate (obj fs)))) [
        | inl valid ↦ rw valid (
            ap
              (λ e. some (
                dispatch service session_manager p (method_of service (value_at "method" e)) e
                  sessions))
              (some_inj (rw valid at h)))
        | inr invalid ↦ ground (arith, rw invalid at h)
      ]
  post-dict p o sessions h = cc

  -- With McpSessionManager as the policy, which no server context installs: after any requests, a
  -- valid request with the supported version of the protocol and a session id, and for a method other than the handshake, is answered, and changes no session. It is refused for
  -- its session exactly if the session is not live: if it was not created by an `initialize` that gave
  -- out its id, or was not acknowledged by its client since, or a DELETE has ended it.
  pub post_lem :
      (rs : List Request) (p : Post) (d : Dict Value) (session_id : String)
      → dict_of service p.data_of_body ≡ some d
      → NeedsSession (method_of service (value_at "method" d))
      → is_supported service p.protocol_version ≡ true
      → p.session_id ≡ some session_id
      → (response : Response) × (post service session_manager p (all_after service rs [])
          ≡ some (response, all_after service rs []))
        × (is_unauthorized response.status ≡ not (is_live (phase_after service session_id rs none)))
  unfolding post get
  post_lem rs p d session_id e needs v h =
      let sessions = all_after service rs [] in
      let method = method_of service (value_at "method" d) in
      (
        in_session service session_manager p method d sessions,
        post-dict p p.data_of_body sessions e ∙ ap some (dispatch-live p method d sessions needs),
        in_session-live p method d sessions session_id v h
            ∙ ap (λ phase. not (is_live phase)) (all-phase service session_id rs []),
      )
