-- ===== src/Storage/Sessions/Lifetime.antt =====
-- How long a session of internal/storage/sessions.go is found.
use frp_easy.Prelude.{
  ◌∙◌, ℕ, zero, suc, ◌+◌, ◌≤◌, ◌≡◌, refl, pos, true, false, not, Option, none, some, List, [], ◌∷◌,
  ◌++◌, String, str_eq, eq_iff, ap, ok, err, if◌then◌else◌, ltb, filter, arith, Bool-cases, inl,
  inr,
}
use frp_easy.Storage.Sessions.{
  SessionRow, Session, Clock, Io, session_not_found, insert_failed, find_session, parse_sqlite_time,
  insert_checked, insert_new, create_session, get_session, delete_session, select_session,
  insert_session, delete_session_row,
}

str_eq_refl : (s : String) → str_eq s s ≡ true
str_eq_refl s = (eq_iff s s).1 refl

find_session-append :
    (t : String) (rows : List SessionRow) (r : SessionRow)
    → find_session t rows ≡ none
    → str_eq r.token t ≡ true
    → find_session t (rows ++ r ∷ []) ≡ some r
unfolding find_session
find_session-append t [] r h e = rw e
find_session-append t (q ∷ rows) r h e = elim (Bool-cases (str_eq q.token t)) [
  | inl f ↦ absurd (ground (arith, h, f))
  | inr f ↦ rw f (find_session-append t rows r (rw f at h) e)
]

find_session-filter :
    (t : String) (rows : List SessionRow)
    → find_session t (filter (λ r. not (str_eq r.token t)) rows) ≡ none
unfolding find_session
find_session-filter t [] = refl
find_session-filter t (q ∷ rows) = elim (Bool-cases (str_eq q.token t)) [
  | inl f ↦ rw f (find_session-filter t rows)
  | inr f ↦ rw (f, find_session, f) (find_session-filter t rows)
]

module _ (c : Clock) where
  parse_sqlite_time-format : (n : ℕ) → n ≤ c.last_time → parse_sqlite_time c (c.format n) ≡ some n
  unfolding parse_sqlite_time
  parse_sqlite_time-format n h = rw (c.trim-format n, c.format_ne n, c.parse-format n h)

  -- the row of a session
  abbrev row_of : Session → SessionRow
  row_of s = record {
    token = s.token;
    csrf_token = s.csrf_token;
    created_at = c.format s.created_at;
    expires_at = c.format s.expires_at;
  }

  insert_checked-found :
      (x : Session) (rows rows' : List SessionRow) (s : Session) (f : Option SessionRow)
      → find_session x.token rows ≡ f
      → insert_checked c x rows f ≡ (rows', ok s)
      → (find_session s.token rows' ≡ some (row_of s)) × (s ≡ x)
  insert_checked-found x rows rows' s (some r) e h = cc
  insert_checked-found x rows rows' s none e h =
      let a : s ≡ x = cc h in
      let b : rows' ≡ rows ++ row_of x ∷ [] = cc h in
      (rw (a, b) (find_session-append x.token rows (row_of x) e (str_eq_refl x.token)), a)

  insert_new-found :
      (io : Io) (now ttl : ℕ) (t u : Option String) (rows rows' : List SessionRow) (s : Session)
      → insert_new c io now ttl t u rows ≡ (rows', ok s)
      → (find_session s.token rows' ≡ some (row_of s))
        × (s.created_at ≡ now)
        × (s.expires_at ≡ now + ttl)
  insert_new-found io now ttl none u rows rows' s h = cc
  insert_new-found io now ttl (some t) none rows rows' s h = cc
  insert_new-found io now ttl (some t) (some u) rows rows' s h =
      elim (Bool-cases (io insert_session)) [
        | inl e ↦ let x : (rows, err insert_failed) ≡ (rows', ok s) = rw e at h in cc x
        | inr e ↦
            let (a, b) =
              insert_checked-found
                (record { token = t; csrf_token = u; created_at = now; expires_at = now + ttl })
                rows rows' s (find_session t rows) refl (rw e at h) in
            (a, ap (λ (z : Session). z.created_at) b, ap (λ (z : Session). z.expires_at) b)
      ]

  created :
      (io : Io) (now ttl : ℕ) (t u : Option String) (rows rows' : List SessionRow) (s : Session)
      → create_session c io now (pos ttl) t u rows ≡ (rows', ok s)
      → (find_session s.token rows' ≡ some (row_of s))
        × (s.created_at ≡ now)
        × (s.expires_at ≡ now + ttl)
  unfolding create_session
  created io now zero t u rows rows' s h = cc
  created io now (suc n) t u rows rows' s h = insert_new-found io now (suc n) t u rows rows' s h

  -- A session that CreateSession has returned is found by its token until its time to live has
  -- passed, and not after it, in any later rows whose first row of that token is the one that
  -- CreateSession has left, if the token is not empty, its end is not after the year 9999, and the
  -- query works. That no clean-up deletes the row before then is not said.
  pub get_session-create_session :
      (io io' : Io) (now ttl later : ℕ) (t u : Option String)
      (rows rows' rows_later : List SessionRow) (s : Session)
      → create_session c io now (pos ttl) t u rows ≡ (rows', ok s)
      → find_session s.token rows_later ≡ find_session s.token rows'
      → now + ttl ≤ c.last_time
      → str_eq s.token "" ≡ false
      → io' select_session ≡ false
      → get_session c io' later s.token rows_later
        ≡ (if ltb (now + ttl) later then err session_not_found else ok s)
  unfolding get_session
  get_session-create_session io io' now ttl later t u rows rows' rows_later s h kept le ne works =
      let (found, at_now, at_end) = created io now ttl t u rows rows' s h in
      let a = parse_sqlite_time-format s.created_at (omega (arith, at_now, le)) in
      let b = parse_sqlite_time-format s.expires_at (omega (arith, at_end, le)) in
      rw (ne, works, kept ∙ found, a, b, ← at_end)

  -- After a DeleteSession that succeeds the token finds no session.
  pub get_session-delete_session :
      (io io' : Io) (later : ℕ) (token : String) (rows rows' : List SessionRow)
      → delete_session c io token rows ≡ (rows', none)
      → io' select_session ≡ false
      → get_session c io' later token rows' ≡ err session_not_found
  unfolding get_session delete_session
  get_session-delete_session io io' later token rows rows' h works =
      elim (Bool-cases (io delete_session_row)) [
        | inl e ↦ absurd (ground (arith, h, e))
        | inr e ↦
            let x : rows' ≡ filter (λ r. not (str_eq r.token token)) rows = ground (arith, h, e) in
            let none_left : find_session token rows' ≡ none =
              rw x (find_session-filter token rows) in
            rw (works, none_left) (ground arith)
      ]
