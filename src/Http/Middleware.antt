-- ===== src/Http/Middleware.antt =====
-- The gates of internal/httpapi/middleware.go. A handler takes the session of the request's context,
-- the request and the server's state, and gives the new state and the response.
use frp_easy.Prelude.{
  ℕ, ◌≡◌, refl, Bool, true, false, not, ◌||◌, Option, none, some, String, str_eq, eq_iff, Result,
  ok, err, if◌then◌else◌, arith, Bool-cases, inl, inr, ◌⊎◌,
}
use frp_easy.Storage.Sessions.{Session, SessionError}

-- `cookie` is the value of the session cookie, if there is one
pub record Request : Type 0 where
  pub method : String
  pub cookie : Option String
  pub csrf_header : String

pub data Gate : Type 0 where
  not_ready not_logged_in session_ended csrf_failed : Gate

abbrev pub status : Gate → ℕ
status not_ready = 503
status not_logged_in = 401
status session_ended = 401
status csrf_failed = 403

-- isWriteMethod
unfoldable pub is_write_method : String → Bool
is_write_method m = str_eq m "POST" || (str_eq m "PUT" || (str_eq m "PATCH" || str_eq m "DELETE"))

-- a response of a handler, or of the gate that stopped the request
abbrev pub Handler : Type 0 → Type 0 → Type 0
Handler S R = Option Session → Request → S → S × Result Gate R

-- the request carries a live session, and its token where it writes
pub record Authorised {S : Type 0} (get : S → String → Result SessionError Session) (r : Request)
    (s : S) (sess : Session) : Type 0 where
  pub cookie : String
  pub sent : r.cookie ≡ some cookie
  pub live : get s cookie ≡ ok sess
  pub token :
      is_write_method r.method ≡ true
      → (r.csrf_header ≡ sess.csrf_token) × (str_eq r.csrf_header "" ≡ false)

module _ {S R : Type 0} where
  abbrev pub if_ready : Handler S R → Option Session → Request → S → Option Bool → S × Result Gate R
  if_ready next ctx r s (some false) =
      if is_write_method r.method then (s, err not_ready) else next ctx r s
  if_ready next ctx r s (some true) = next ctx r s
  if_ready next ctx r s none = next ctx r s

  -- ReadyGate; `ready` is none where no test is given
  unfoldable pub ready_gate : (S → Option Bool) → Handler S R → Handler S R
  ready_gate ready next ctx r s = if_ready next ctx r s (ready s)

  abbrev pub with_session :
      Handler S R → Request → S → Result SessionError Session → S × Result Gate R
  with_session next r s (err _) = (s, err session_ended)
  with_session next r s (ok sess) = next (some sess) r s

  abbrev pub with_cookie :
      (S → String → Result SessionError Session)
      → Handler S R
      → Request
      → S
      → Option String
      → S × Result Gate R
  with_cookie get next r s none = (s, err not_logged_in)
  with_cookie get next r s (some c) =
      if str_eq c "" then (s, err not_logged_in) else with_session next r s (get s c)

  -- SessionAuth; `get` is GetSession
  unfoldable pub session_auth :
      (S → String → Result SessionError Session) → Handler S R → Handler S R
  session_auth get next ctx r s = with_cookie get next r s r.cookie

  abbrev pub check_token : Handler S R → Request → S → Option Session → S × Result Gate R
  check_token next r s none = next none r s
  check_token next r s (some sess) =
      if str_eq r.csrf_header "" || not (str_eq r.csrf_header sess.csrf_token)
      then (s, err csrf_failed)
      else next (some sess) r s

  -- CSRF
  unfoldable pub csrf : Handler S R → Handler S R
  csrf next ctx r s =
      if not (is_write_method r.method) then next ctx r s else check_token next r s ctx

  -- the chain that New of router.go puts before the protected handlers, less the parts that only
  -- pass the request on
  unfoldable pub protected :
      (S → Option Bool) → (S → String → Result SessionError Session) → Handler S R → Handler S R
  unfolding ready_gate session_auth csrf
  protected ready get h = ready_gate ready (session_auth get (csrf h))

  -- stopped by a gate, or answered by the handler for an authorised session
  abbrev pub Answered :
      (S → String → Result SessionError Session)
      → Handler S R
      → Request
      → S
      → S × Result Gate R
      → Type 0
  Answered get h r s o =
      ((g : Gate) × (o ≡ (s, err g)))
      ⊎ ((sess : Session) × Authorised get r s sess × (o ≡ h (some sess) r s))

  csrf-Answered :
      (get : S → String → Result SessionError Session) (h : Handler S R) (r : Request) (s : S)
      (c : String) (sess : Session)
      → r.cookie ≡ some c
      → get s c ≡ ok sess
      → Answered get h r s (csrf h (some sess) r s)
  unfolding csrf
  csrf-Answered get h r s c sess e f = elim (Bool-cases (is_write_method r.method)) [
    | inr w ↦ rw w (
        inr (
          sess,
          record { cookie = c; sent = e; live = f; token = λ x. absurd (ground (arith, w, x)) },
          refl,
        ))
    | inl w ↦ elim (Bool-cases (str_eq r.csrf_header "")) [
      | inl z ↦ rw (w, z) (inl (csrf_failed, refl))
      | inr z ↦ elim (Bool-cases (str_eq r.csrf_header sess.csrf_token)) [
        | inr q ↦ rw (w, z, q) (inl (csrf_failed, refl))
        | inl q ↦
            rw (w, z, q)
              (inr (
                sess,
                record {
                  cookie = c;
                  sent = e;
                  live = f;
                  token = λ x. ((eq_iff r.csrf_header sess.csrf_token).0 q, z);
                },
                refl,
              ))
      ]
    ]
  ]

  session_auth-Answered :
      (get : S → String → Result SessionError Session) (h : Handler S R) (r : Request) (s : S)
      (k : Option String)
      → r.cookie ≡ k
      → Answered get h r s (with_cookie get (csrf h) r s k)
  session_auth-Answered get h r s none e = inl (not_logged_in, refl)
  session_auth-Answered get h r s (some c) e = elim (Bool-cases (str_eq c "")) [
    | inl z ↦ rw z (inl (not_logged_in, refl))
    | inr z ↦ rw z (by_session (get s c) refl)
  ]
    where
      by_session :
          (x : Result SessionError Session)
          → get s c ≡ x
          → Answered get h r s (with_session (csrf h) r s x)
      by_session (err y) f = inl (session_ended, refl)
      by_session (ok sess) f = csrf-Answered get h r s c sess e f

  if_ready-Answered :
      (get : S → String → Result SessionError Session) (h : Handler S R) (ctx : Option Session)
      (r : Request) (s : S) (b : Option Bool)
      → Answered get h r s (if_ready (session_auth get (csrf h)) ctx r s b)
  unfolding session_auth
  if_ready-Answered get h ctx r s none = session_auth-Answered get h r s r.cookie refl
  if_ready-Answered get h ctx r s (some true) = session_auth-Answered get h r s r.cookie refl
  if_ready-Answered get h ctx r s (some false) = elim (Bool-cases (is_write_method r.method)) [
    | inl w ↦ rw w (inl (not_ready, refl))
    | inr w ↦ rw w (session_auth-Answered get h r s r.cookie refl)
  ]

  -- Behind the protected chain a request either is stopped by a gate, with the state as it was, or
  -- reaches the handler with the live session that its cookie names; and if it writes, its CSRF
  -- header is that session's token and not empty.
  pub protected-Answered :
      (ready : S → Option Bool) (get : S → String → Result SessionError Session) (h : Handler S R)
      (ctx : Option Session) (r : Request) (s : S)
      → Answered get h r s (protected ready get h ctx r s)
  unfolding protected
  protected-Answered ready get h ctx r s = if_ready-Answered get h ctx r s (ready s)
