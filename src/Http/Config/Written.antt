-- ===== src/Http/Config/Written.antt =====
-- What the file of frpc holds after putClient of internal/httpapi/handlers_server.go and the
-- rendering of config_helper.go that follows it.
use frp_easy.Prelude.{
  ℤ, ◌≡◌, refl, ap, ◌∙◌, Bool, true, false, Option, none, some, List, [], ◌∷◌, String, str_eq,
  eq_iff, Text, text_eq, text_eq_refl, ok, arith, Bool-cases, inl, inr, All,
}
use frp_easy.Files.{Fs}
use frp_easy.Storage.Kv.{Io, select_key, upsert_key}
use frp_easy.Storage.KvStore.{KvStore}
use frp_easy.Storage.Proxies.{Proxy, validate_proxy_shape, is_some, is_empty}
use frp_easy.Storage.Proxies.Schema.{is_port_kind}
use frp_easy.Frpconf.Render.{ProxyInput, FrpcRoot, marshal_root, render_frpc}
use frp_easy.Frpconf.Render.Accepts.{
  IsRule, RendersAll, AuthValid, FrpcAccepted, frpc_root-eq, frpc_root_accepts, frpc_root_renders,
}
use frp_easy.Frpconf.AtomicWrite.{
  WriteEnv, WriteError, owner_only, atomic_write, mkdir, create_temp, chmod_temp, write_temp,
  sync_temp, close_temp, rename_temp, chmod_target,
}
use frp_easy.Frpconf.AtomicWrite.Result.{atomic_write_lem}
use frp_easy.Http.Settings.{
  FrpcServerConn, SettingsJson, kv_frpc_server_cfg, mask, keep_conn, check_conn, read_conn,
  put_client,
}
use frp_easy.Http.Settings.Kept.{stored_at, saved_at}
use frp_easy.Http.Validate.{validate_port}
use frp_easy.Http.Config.{
  ConfigEnv, Applied, input_of, enabled_inputs, frpc_input, write_rendered, render_and_apply_frpc,
}

-- the second list has a rule with the fields of each enabled row, in order
pub data EnabledRules : List Proxy → List ProxyInput → Type 0 where
  no_rows : EnabledRules [] []
  passed :
      {p : Proxy} {ps : List Proxy} {rs : List ProxyInput}
      → p.enabled ≡ false
      → EnabledRules ps rs
      → EnabledRules (p ∷ ps) rs
  chosen :
      {p : Proxy} {ps : List Proxy} {r : ProxyInput} {rs : List ProxyInput}
      → p.enabled ≡ true
      → (r.name ≡ p.name) × (r.kind ≡ p.kind)
      → (r.local_ip ≡ p.local_ip) × (r.local_port ≡ p.local_port)
      → (r.remote_port ≡ p.remote_port) × (r.custom_domains ≡ p.custom_domains)
      → EnabledRules ps rs
      → EnabledRules (p ∷ ps) (r ∷ rs)

enabled_inputs-EnabledRules : (ps : List Proxy) → EnabledRules ps (enabled_inputs ps)
unfolding enabled_inputs input_of
enabled_inputs-EnabledRules [] = no_rows
enabled_inputs-EnabledRules (p ∷ ps) =
    let rest = enabled_inputs-EnabledRules ps in
    elim (Bool-cases p.enabled) [
      | inl e ↦ simp e (chosen e (refl, refl) (refl, refl) (refl, refl) rest)
      | inr e ↦ simp e (passed e rest)
    ]

is_some-eq : (o : Option ℤ) → is_some o ≡ true → (n : ℤ) × (o ≡ some n)
is_some-eq none h = cc
is_some-eq (some n) h = (n, refl)

is_some-none : (o : Option ℤ) → is_some o ≡ false → o ≡ none
is_some-none none h = refl
is_some-none (some n) h = cc

is_empty-nil : (ds : List String) → is_empty ds ≡ true → ds ≡ []
is_empty-nil [] h = refl
is_empty-nil (d ∷ ds) h = cc

-- a row whose form the DAO accepts is a rule that frpconf accepts
validate_proxy_shape-IsRule : (p : Proxy) → validate_proxy_shape p ≡ none → IsRule (input_of p)
unfolding validate_proxy_shape input_of
validate_proxy_shape-IsRule p h = elim (Bool-cases (is_port_kind p.kind)) [
  | inl k ↦ record {
    named = ground (arith, h, k);
    local_port_valid = ground (arith, h, k);
    shaped = inl (
      k,
      is_some-eq p.remote_port (ground (arith, h, k)),
      is_empty-nil p.custom_domains (ground (arith, h, k)),
    );
  }
  | inr k ↦ record {
    named = ground (arith, h, k);
    local_port_valid = ground (arith, h, k);
    shaped = inr (
      k,
      ground (arith, h, k),
      is_some-none p.remote_port (ground (arith, h, k)),
      ground (arith, h, k),
    );
  }
]

enabled_inputs-IsRule :
    (ps : List Proxy) → All (λ p. validate_proxy_shape p ≡ none) ps → All IsRule (enabled_inputs ps)
unfolding enabled_inputs
enabled_inputs-IsRule [] a = tt
enabled_inputs-IsRule (p ∷ ps) (h, a) = elim (Bool-cases p.enabled) [
  | inl e ↦ rw e (validate_proxy_shape-IsRule p h, enabled_inputs-IsRule ps a)
  | inr e ↦ rw e (enabled_inputs-IsRule ps a)
]

marshal_root-some :
    (marshal : FrpcRoot → Option Text) (root : FrpcRoot) (text : Text)
    → marshal root ≡ some text
    → marshal_root marshal (ok root) ≡ ok text
unfolding marshal_root
marshal_root-some marshal root text e = ground (arith, e)

-- an AtomicWrite none of whose calls fails
atomic_write-healthy :
    (env : WriteEnv) (path : String) (text : Text) (fs : Fs)
    → ((e : WriteError) → env.fails e ≡ false)
    → str_eq path "" ≡ false
    → (atomic_write env path text fs).error ≡ none
unfolding atomic_write
atomic_write-healthy env path text fs well ne = rw (
  ne,
  well mkdir,
  well create_temp,
  well chmod_temp,
  well write_temp,
  well sync_temp,
  well close_temp,
  well rename_temp,
  well chmod_target,
)

-- the settings that putClient stores are those that the rendering reads
module _ {V : Type 0} (kv : KvStore V) (json : SettingsJson V) where
  read_conn-put_client :
      (put_io io : Io) (s : kv.State) (x : FrpcServerConn)
      → check_conn x ≡ none
      → str_eq x.auth_token mask ≡ false
      → put_io (upsert_key kv_frpc_server_cfg) ≡ false
      → io (select_key kv_frpc_server_cfg) ≡ false
      → read_conn kv json io (put_client kv json put_io (some x) s).0 ≡ x
  unfolding put_client read_conn
  read_conn-put_client put_io io s x valid open_token write read =
      let key : text_eq kv_frpc_server_cfg [] ≡ false = unfold kv_frpc_server_cfg text_eq in refl in
      let self = text_eq_refl kv_frpc_server_cfg in
      let kept : keep_conn kv json put_io s x ≡ x = rw open_token in
      let at : kv.value_at (put_client kv json put_io (some x) s).0 kv_frpc_server_cfg
          ≡ some (json.marshal_conn x) =
        rw (valid, kept)
          (saved_at kv json put_io s kv_frpc_server_cfg kv_frpc_server_cfg _ _ key write
            ∙ rw self) in
      rw (stored_at kv json io _ kv_frpc_server_cfg _ read at)
        (ap (λ (p : FrpcServerConn × Bool). p.0) (json.unmarshal-marshal_conn x))

  -- the file of frpc is what the encoder makes of the settings and the enabled rules
  pub record Holds (marshal : FrpcRoot → Option Text) (path : String) (x : FrpcServerConn)
      (ps : List Proxy) (fs : Fs) : Type 0 where
    pub root : FrpcRoot
    pub text : Text
    pub encoded : marshal root ≡ some text
    pub same_addr : root.server_addr ≡ x.server_addr
    pub same_port : root.server_port ≡ x.server_port
    pub rules : List ProxyInput
    pub enabled : EnabledRules ps rules
    pub rendered : RendersAll rules root.proxies
    pub file : fs path ≡ some (record { content = text; mode = owner_only })

  abbrev pub IsWritten :
      (FrpcRoot → Option Text) → ConfigEnv → String → FrpcServerConn → List Proxy → Applied → Type 0
  IsWritten marshal env path x ps o =
      (o.error ≡ none) × (o.told ≡ env.has_procmgr) × Holds marshal path x ps o.fs

  module _ (marshal : FrpcRoot → Option Text) (env : ConfigEnv) (path : String) (fs : Fs)
      (well : (e : WriteError) → env.write.fails e ≡ false) (ne : str_eq path "" ≡ false)
      (fresh : fs env.write.temp ≡ none) (apart : str_eq env.write.temp path ≡ false) where
    render_frpc-IsWritten :
        ((r : FrpcRoot) → (t : Text) × (marshal r ≡ some t))
        → (x : FrpcServerConn) (ps : List Proxy)
        → FrpcAccepted (frpc_input env x (enabled_inputs ps))
        → IsWritten marshal env path x ps (
            write_rendered env path fs (render_frpc marshal (frpc_input env x (enabled_inputs ps))))
    unfolding render_frpc marshal_root frpc_input
    render_frpc-IsWritten total x ps accepted =
        let input = frpc_input env x (enabled_inputs ps) in
        let (root, made) = (frpc_root_accepts input).1 accepted in
        let (text, encoded) = total root in
        let healthy = atomic_write-healthy env.write path text fs well ne in
        let self = (eq_iff path path).1 refl in
        let rendered : render_frpc marshal input ≡ ok text =
          rw made (marshal_root-some marshal root text encoded) in
        let file =
          rw (healthy, self) at (atomic_write_lem env.write path text fs fresh apart path) in
        let (a, es, n, p, e, f, root_is) = frpc_root-eq input root made in
        rw (rendered, healthy)
          (
            refl,
            refl,
            record {
              root = root;
              text = text;
              encoded = encoded;
              same_addr = rw (← root_is);
              same_port = rw (← root_is);
              rules = enabled_inputs ps;
              enabled = enabled_inputs-EnabledRules ps;
              rendered = (frpc_root_renders input root made).0;
              file = file;
            },
          )

    -- After putClient has been given valid settings whose token is not the mask and whose method RenderFrpc
    -- knows: the rendering that follows succeeds, tells the process manager if there is one, and
    -- leaves in the file of frpc what the encoder makes of a configuration with the settings' address
    -- and port and exactly the enabled rules, in order, readable by the owner only: if all rows have a
    -- form that the DAO accepts, and no call of the driver, of the encoder and of the disk fails.
    pub put_client-IsWritten :
        ((r : FrpcRoot) → (t : Text) × (marshal r ≡ some t))
        → (put_io io : Io) (s : kv.State) (x : FrpcServerConn) (ps : List Proxy)
        → env.path ≡ some path
        → check_conn x ≡ none
        → str_eq x.auth_token mask ≡ false
        → AuthValid x.auth_method x.auth_token
        → All (λ p. validate_proxy_shape p ≡ none) ps
        → put_io (upsert_key kv_frpc_server_cfg) ≡ false
        → io (select_key kv_frpc_server_cfg) ≡ false
        → IsWritten marshal env path x ps (
            render_and_apply_frpc kv json marshal env io
              (put_client kv json put_io (some x) s).0
              (ok ps)
              fs)
    unfolding render_and_apply_frpc
    put_client-IsWritten total put_io io s x ps at valid open_token known shapes write read =
        let seen = read_conn-put_client put_io io s x valid open_token write read in
        rw (at, seen)
          (render_frpc-IsWritten total x ps (record {
            addressed = unfold frpc_input check_conn in ground (arith, valid);
            port_valid = unfold frpc_input check_conn validate_port in ground (arith, valid);
            auth_valid = unfold frpc_input in known;
            rules = unfold frpc_input in enabled_inputs-IsRule ps shapes;
          }))
