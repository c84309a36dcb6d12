-- ===== src/Http/Settings/Kept.antt =====
-- The tokens that internal/httpapi/handlers_server.go hides and keeps.
use frp_easy.Prelude.{
  ◌≡◌, refl, ◌∙◌, sym, ap, Bool, false, Option, none, some, [], String, str_eq, eq_iff, Text,
  text_eq, if◌then◌else◌, Bool-cases, inl, inr,
}
use frp_easy.Storage.Kv.{Io, KvError, select_key, upsert_key}
use frp_easy.Storage.KvStore.{KvStore}
use frp_easy.Http.Settings.{
  FrpsConfig, FrpcServerConn, SettingsJson, SettingsReply, kv_frps_config, kv_frpc_server_cfg, mask,
  masked, with_ports, check_frps, check_conn, stored, read_frps, read_conn, get_server, get_client,
  frps_token, conn_token, keep_frps, keep_conn, saved, put_server, put_client,
}

-- a token that is shown masked comes back as itself
kept_token : (x c : String) → x ≡ masked c → (if str_eq x mask then c else x) ≡ c
unfolding masked
kept_token x c e = elim (Bool-cases (str_eq c "")) [
  | inl f ↦ let empty : x ≡ "" = e ∙ rw f in rw empty (sym ((eq_iff c "").0 f))
  | inr f ↦ let shown : x ≡ mask = e ∙ rw f in rw shown
]

module _ {V : Type 0} (kv : KvStore V) (json : SettingsJson V) where
  pub stored_at :
      (io : Io) (s : kv.State) (k : Text) (v : V)
      → io (select_key k) ≡ false
      → kv.value_at s k ≡ some v
      → stored kv json io s k ≡ some v
  stored_at io s k v read at = rw (kv.get_law io s k, read, at)

  saved-state :
      (reply : SettingsReply) (o : kv.State × Option KvError) → (saved kv json reply o).0 ≡ o.0
  saved-state reply (t, none) = refl
  saved-state reply (t, some e) = refl

  -- what a write that the driver accepts leaves under each key
  pub saved_at :
      (io : Io) (s : kv.State) (k j : Text) (v : V) (reply : SettingsReply)
      → text_eq k [] ≡ false
      → io (upsert_key k) ≡ false
      → kv.value_at (saved kv json reply (kv.set io s k v)).0 j
        ≡ (if text_eq k j then some v else kv.value_at s j)
  saved_at io s k j v reply ne write =
      rw (saved-state reply (kv.set io s k v), kv.set_law io s k j v, ne, write)

  module _ (get_io put_io : Io) (s : kv.State) where
    conn_token_kept :
        (c x : FrpcServerConn)
        → kv.value_at s kv_frpc_server_cfg ≡ some (json.marshal_conn c)
        → get_io (select_key kv_frpc_server_cfg) ≡ false
        → put_io (select_key kv_frpc_server_cfg) ≡ false
        → x.auth_token ≡ (get_client kv json get_io false s).auth_token
        → keep_conn kv json put_io s x ≡ record x { auth_token = c.auth_token }
    unfolding keep_conn get_client read_conn masked
    conn_token_kept c x at get put same =
        let law = json.unmarshal-marshal_conn c in
        let seen = stored_at get_io s kv_frpc_server_cfg (json.marshal_conn c) get at in
        let found = stored_at put_io s kv_frpc_server_cfg (json.marshal_conn c) put at in
        let shown : (get_client kv json get_io false s).auth_token ≡ masked c.auth_token =
          rw seen (ap (λ (p : FrpcServerConn × Bool). masked p.0.auth_token) law) in
        let old : conn_token kv json x (some (json.marshal_conn c)) ≡ c.auth_token =
          ap (λ (p : FrpcServerConn × Bool). if p.1 then p.0.auth_token else x.auth_token) law in
        let token = kept_token x.auth_token c.auth_token (same ∙ shown) in
        elim (Bool-cases (str_eq x.auth_token mask)) [
          | inl e ↦ rw (e, found) (ap (λ (t : String). record x { auth_token = t }) old)
          | inr e ↦ rw e (ap (λ (t : String). record x { auth_token = t }) (rw e at token))
        ]

    frps_token_kept :
        (c x : FrpsConfig)
        → kv.value_at s kv_frps_config ≡ some (json.marshal_frps c)
        → get_io (select_key kv_frps_config) ≡ false
        → put_io (select_key kv_frps_config) ≡ false
        → x.auth_token ≡ (get_server kv json get_io false s).auth_token
        → keep_frps kv json put_io s x ≡ record x { auth_token = c.auth_token }
    unfolding keep_frps get_server read_frps masked
    frps_token_kept c x at get put same =
        let law = json.unmarshal-marshal_frps c in
        let seen = stored_at get_io s kv_frps_config (json.marshal_frps c) get at in
        let found = stored_at put_io s kv_frps_config (json.marshal_frps c) put at in
        let shown : (get_server kv json get_io false s).auth_token ≡ masked c.auth_token =
          rw seen (ap (λ (p : FrpsConfig × Bool). masked p.0.auth_token) law) in
        let old : frps_token kv json x (some (json.marshal_frps c)) ≡ c.auth_token =
          ap (λ (p : FrpsConfig × Bool). if p.1 then p.0.auth_token else x.auth_token) law in
        let token = kept_token x.auth_token c.auth_token (same ∙ shown) in
        elim (Bool-cases (str_eq x.auth_token mask)) [
          | inl e ↦ rw (e, found) (ap (λ (t : String). record x { auth_token = t }) old)
          | inr e ↦ rw e (ap (λ (t : String). record x { auth_token = t }) (rw e at token))
        ]

    -- A token survives its mask: whoever reads the settings of frpc or of frps, where the token is
    -- hidden, and writes back any valid settings with the token as it was shown, leaves under the key
    -- those settings with the stored token, and all other keys as they were, if the stored value can
    -- be read both times and the write succeeds.
    pub put-get_token :
        (c x : FrpcServerConn) (d y : FrpsConfig)
        → kv.value_at s kv_frpc_server_cfg ≡ some (json.marshal_conn c)
        → kv.value_at s kv_frps_config ≡ some (json.marshal_frps d)
        → ((k : Text) → get_io (select_key k) ≡ false)
        → ((k : Text) → put_io (select_key k) ≡ false)
        → ((k : Text) → put_io (upsert_key k) ≡ false)
        → check_conn x ≡ none
        → check_frps (with_ports y) ≡ none
        → x.auth_token ≡ (get_client kv json get_io false s).auth_token
        → y.auth_token ≡ (get_server kv json get_io false s).auth_token
        → (j : Text)
        → (kv.value_at (put_client kv json put_io (some x) s).0 j ≡ (
            if text_eq kv_frpc_server_cfg j
            then some (json.marshal_conn (record x { auth_token = c.auth_token }))
            else kv.value_at s j))
          × (kv.value_at (put_server kv json put_io (some y) s).0 j ≡ (
              if text_eq kv_frps_config j
              then some (json.marshal_frps (record (with_ports y) { auth_token = d.auth_token }))
              else kv.value_at s j))
    unfolding put_client put_server
    put-get_token c x d y at_c at_d get put write valid_x valid_y same_x same_y j =
        let key_c : text_eq kv_frpc_server_cfg [] ≡ false =
          unfold kv_frpc_server_cfg text_eq in refl in
        let key_d : text_eq kv_frps_config [] ≡ false = unfold kv_frps_config text_eq in refl in
        let kept_c = conn_token_kept c x at_c (get _) (put _) same_x in
        let kept_d = frps_token_kept d (with_ports y) at_d (get _) (put _) same_y in
        (
          rw (valid_x, kept_c) (saved_at put_io s kv_frpc_server_cfg j _ _ key_c (write _)),
          rw (valid_y, kept_d) (saved_at put_io s kv_frps_config j _ _ key_d (write _)),
        )
