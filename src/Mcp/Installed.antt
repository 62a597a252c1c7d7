-- ===== src/Mcp/Installed.antt =====
-- The server, with the policy that its context installs: the docs say that no session is created.
use nora_fleet.Common.{
  String, ◌≡◌, ◌⊎◌, refl, ap, Bool, false, not, ◌&&◌, Option, none, some, List, [], ◌∷◌,
  if◌then◌else◌, ◌==◌, is_empty, Dict, contains, Value, obj, entries, Bool-cases, inl, inr,
  some_inj, >>=-eq-some, arith, ◌>>=◌,
}
use nora_fleet.Messages.{value_at}
use nora_fleet.Mcp.{
  ClientSessionPolicy, no_sessions, McpServerContext, new_context, set_enabled, server_error,
  parse_error, invalid_request, invalid_protocol_version, success, accepted, bad_request,
  internal_server_error, no_body, result, Response, Post, Service, fail, is_supported, respond,
  in_session, initialize, acknowledge, dispatch, method_of, post_valid, post_body, post,
}
use nora_fleet.Mcp.Lifecycle.{is_unauthorized, respond-authorized, respond-header}

module _ {S : Type 0} where
  -- The context after it was enabled and disabled, each time with the schema read or not.
  abbrev pub set_all : List (Bool × Bool) → McpServerContext S → Option (McpServerContext S)
  set_all [] c = some c
  set_all ((is_read, enabled) ∷ rest) c = set_enabled is_read enabled c >>= λ c'. set_all rest c'

  -- The only policy that a context has is the one without sessions.
  abbrev HasNoSessions : Option (ClientSessionPolicy S) → Type 0
  HasNoSessions none = Unit
  HasNoSessions (some policy) = policy ≡ no_sessions

  set_enabled-HasNoSessions :
      (is_read enabled : Bool) (c c' : McpServerContext S)
      → HasNoSessions c.session_policy
      → set_enabled is_read enabled c ≡ some c'
      → HasNoSessions c'.session_policy
  unfolding set_enabled
  set_enabled-HasNoSessions is_read enabled c c' h e =
      elim (Bool-cases (not c.enabled && enabled)) [
        | inl new ↦ elim (Bool-cases is_read) [
          | inl ok ↦ rw (← some_inj (rw (new, ok) at e)) refl
          | inr wrong ↦ ground (arith, rw (new, wrong) at e)
        ]
        | inr old ↦ rw (← some_inj (rw old at e)) h
      ]

  set_all-HasNoSessions :
      (flags : List (Bool × Bool)) (c c' : McpServerContext S)
      → HasNoSessions c.session_policy
      → set_all flags c ≡ some c'
      → HasNoSessions c'.session_policy
  set_all-HasNoSessions [] c c' h e = rw (← some_inj e) h
  set_all-HasNoSessions ((is_read, enabled) ∷ rest) c c' h e =
      let (d, e1, e2) = >>=-eq-some (set_enabled is_read enabled c) _ e in
      set_all-HasNoSessions rest d c' (set_enabled-HasNoSessions is_read enabled c d h e1) e2

module _ (service : Service) where
  -- A server that answers each request by itself.
  abbrev answer_start : Dict Value → Response
  answer_start d =
      if contains "params" d
      then record {
        status = success;
        session_header = none;
        body = result service.handshake_response;
      }
      else fail internal_server_error server_error

  abbrev answer_method : Post → String → Dict Value → Response
  answer_method p method d =
      if is_supported service p.protocol_version
      then respond service method d
      else fail bad_request invalid_protocol_version

  abbrev answer_dict : Post → String → Dict Value → Response
  answer_dict p method d =
      if method == "initialize"
      then answer_start d
      else if method == "notifications/initialized"
      then record { status = accepted; session_header = p.session_id; body = no_body }
      else if method == "ping"
      then record { status = success; session_header = none; body = no_body }
      else answer_method p method d

  abbrev answer_valid : Post → Value → Option Response
  answer_valid p (obj fs) =
      some (answer_dict p (method_of service (value_at "method" (entries fs))) (entries fs))
  answer_valid p _ = none

  abbrev answer_body : Post → Option Value → Option Response
  answer_body p none = some (fail bad_request parse_error)
  answer_body p (some v) =
      if is_empty (service.validate v)
      then answer_valid p v
      else some (fail bad_request invalid_request)

  abbrev pub answer : Post → Option Response
  answer p = answer_body p p.data_of_body

  -- The request is not refused for its session, and no session id is given out that it did not bring.
  abbrev IsOpen : Post → Response → Type 0
  IsOpen p r =
      (is_unauthorized service r.status ≡ false)
      × ((r.session_header ≡ none) ⊎ (r.session_header ≡ p.session_id))

  abbrev pub IsOpenAnswer : Post → Option Response → Type 0
  IsOpenAnswer p none = Unit
  IsOpenAnswer p (some r) = IsOpen p r

  start-answer :
      {S : Type 0} (p : Post) (d : Dict Value) (s : S)
      → initialize service no_sessions p d s ≡ (answer_start d, s)
  unfolding initialize
  start-answer p d s = elim (Bool-cases (contains "params" d)) [
    | inl given ↦ rw given refl
    | inr missing ↦ rw missing refl
  ]

  method-answer :
      {S : Type 0} (p : Post) (method : String) (d : Dict Value) (s : S)
      → in_session service no_sessions p method d s ≡ answer_method p method d
  unfolding in_session
  method-answer p method d s = elim (Bool-cases (is_supported service p.protocol_version)) [
    | inl supported ↦ rw supported refl
    | inr other ↦ rw other refl
  ]

  dispatch-answer :
      {S : Type 0} (p : Post) (method : String) (d : Dict Value) (s : S)
      → dispatch service no_sessions p method d s ≡ (answer_dict p method d, s)
  unfolding dispatch acknowledge
  dispatch-answer p method d s = elim (Bool-cases (method == "initialize")) [
    | inl starts ↦ rw starts (start-answer p d s)
    | inr goes_on ↦ elim (Bool-cases (method == "notifications/initialized")) [
      | inl activates ↦ rw (goes_on, activates) refl
      | inr later ↦ elim (Bool-cases (method == "ping")) [
        | inl pings ↦ rw (goes_on, later, pings) refl
        | inr other ↦ rw (goes_on, later, other) (ap (λ r. (r, s)) (method-answer p method d s))
      ]
    ]
  ]

  valid-answer :
      {S : Type 0} (p : Post) (v : Value) (s : S)
      → post_valid service no_sessions p v s ≡ (answer_valid p v >>= λ r. some (r, s))
  unfolding post_valid
  valid-answer p (obj fs) s =
      ap some
        (dispatch-answer p (method_of service (value_at "method" (entries fs))) (entries fs) s)
  valid-answer p v s = refl

  body-answer :
      {S : Type 0} (p : Post) (o : Option Value) (s : S)
      → post_body service no_sessions p o s ≡ (answer_body p o >>= λ r. some (r, s))
  unfolding post_body post_valid
  body-answer p none s = refl
  body-answer p (some v) s = elim (Bool-cases (is_empty (service.validate v))) [
    | inl valid ↦ rw valid (valid-answer p v s)
    | inr invalid ↦ rw invalid refl
  ]

  start-IsOpen : (p : Post) (d : Dict Value) → IsOpen p (answer_start d)
  start-IsOpen p d = elim (Bool-cases (contains "params" d)) [
    | inl given ↦ rw given (refl, inl refl)
    | inr missing ↦ rw missing (refl, inl refl)
  ]

  method-IsOpen :
      (p : Post) (method : String) (d : Dict Value) → IsOpen p (answer_method p method d)
  method-IsOpen p method d = elim (Bool-cases (is_supported service p.protocol_version)) [
    | inl supported ↦
        rw supported (respond-authorized service method d, inl (respond-header service method d))
    | inr other ↦ rw other (refl, inl refl)
  ]

  dict-IsOpen : (p : Post) (method : String) (d : Dict Value) → IsOpen p (answer_dict p method d)
  dict-IsOpen p method d = elim (Bool-cases (method == "initialize")) [
    | inl starts ↦ rw starts (start-IsOpen p d)
    | inr goes_on ↦ elim (Bool-cases (method == "notifications/initialized")) [
      | inl activates ↦ rw (goes_on, activates) (refl, inr refl)
      | inr later ↦ elim (Bool-cases (method == "ping")) [
        | inl pings ↦ rw (goes_on, later, pings) (refl, inl refl)
        | inr other ↦ rw (goes_on, later, other) (method-IsOpen p method d)
      ]
    ]
  ]

  valid-IsOpen : (p : Post) (v : Value) → IsOpenAnswer p (answer_valid p v)
  valid-IsOpen p (obj fs) =
      dict-IsOpen p (method_of service (value_at "method" (entries fs))) (entries fs)
  valid-IsOpen p v = tt

  body-IsOpen : (p : Post) (o : Option Value) → IsOpenAnswer p (answer_body p o)
  body-IsOpen p none = (refl, inl refl)
  body-IsOpen p (some v) = elim (Bool-cases (is_empty (service.validate v))) [
    | inl valid ↦ rw valid (valid-IsOpen p v)
    | inr invalid ↦ rw invalid (refl, inl refl)
  ]

  -- However a new server context was enabled and disabled, without an exception: with the session
  -- policy that it then has, whatever that stores, a POST is answered, or raises, as on a server that
  -- keeps no sessions, and what is stored stays. An answer never refuses the request for its session,
  -- and gives no other session id than the one that the request brought.
  pub serve_lem :
      {S : Type 0} (flags : List (Bool × Bool)) (c : McpServerContext S)
      (policy : ClientSessionPolicy S) (p : Post) (s : S)
      → set_all flags new_context ≡ some c
      → c.session_policy ≡ some policy
      → (post service policy p s ≡ (answer p >>= λ r. some (r, s))) × IsOpenAnswer p (answer p)
  unfolding post new_context
  serve_lem flags c policy p s e e' =
      let same = rw e' at (set_all-HasNoSessions flags new_context c tt e) in
      (rw same (body-answer p p.data_of_body s), body-IsOpen p p.data_of_body)
