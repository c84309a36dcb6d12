-- ===== src/Http/Config/Dashboard.antt =====
-- The dashboard of frps as config_helper.go writes it and as handlers_server_runtime.go calls it,
-- both of internal/httpapi.
use frp_easy.Prelude.{
  ◌≡◌, refl, true, false, Option, none, some, String, str_eq, eq_iff, Text, Result, ok, err, arith,
  Bool-cases, inl, inr, bind-eq, guard-eq,
}
use frp_easy.Files.{Fs}
use frp_easy.Storage.Kv.{Io}
use frp_easy.Storage.KvStore.{KvStore}
use frp_easy.Frpconf.AllowPorts.{out_of_range}
use frp_easy.Frpconf.Render.{
  FrpsRoot, FrpsRenderInput, FrpWebServer, RenderError, port_out_of_range, auth_section,
  allow_ports_section, dashboard_section, frps_root_of, frps_root, marshal_root, render_frps,
}
use frp_easy.Frpconf.AtomicWrite.{WriteError, WriteRun, owner_only, atomic_write}
use frp_easy.Frpconf.AtomicWrite.Result.{atomic_write_lem}
use frp_easy.Http.Settings.{
  FrpsConfig, DashboardCreds, SettingsJson, Resolved, disabled, no_creds, resolved, is_partial,
  read_frps, read_creds, effective, resolve_with, resolve_frps_dashboard,
}
use frp_easy.Http.Config.{
  ConfigEnv, dashboard_creds, frps_input, written, write_rendered, render_and_apply_frps,
}

frps_root-web_server :
    (x : FrpsRenderInput) (root : FrpsRoot)
    → frps_root x ≡ ok root
    → root.web_server ≡ dashboard_section x
unfolding frps_root
frps_root-web_server x root h =
    let (p, h₁) = guard-eq (out_of_range x.bind_port) (port_out_of_range x.bind_port) _ root h in
    let (a, e, h₂) = bind-eq (auth_section x.auth_method x.auth_token) _ root h₁ in
    let (ps, f, h₃) = bind-eq (allow_ports_section x.allow_ports) _ root h₂ in
    let same : frps_root_of x a ps ≡ root = cc h₃ in rw (← same)

marshal_root-ok :
    (marshal : FrpsRoot → Option Text) (r : Result RenderError FrpsRoot) (text : Text)
    → marshal_root marshal r ≡ ok text
    → (root : FrpsRoot) × (r ≡ ok root) × (marshal root ≡ some text)
unfolding marshal_root
marshal_root-ok marshal (err e) text h = cc
marshal_root-ok marshal (ok root) text h = (root, refl, ground (arith, h))

render_frps-ok :
    (marshal : FrpsRoot → Option Text) (x : FrpsRenderInput) (text : Text)
    → render_frps marshal x ≡ ok text
    → (root : FrpsRoot) × (frps_root x ≡ ok root) × (marshal root ≡ some text)
unfolding render_frps
render_frps-ok marshal x text h = marshal_root-ok marshal (frps_root x) text h

-- an error of AtomicWrite is one of the whole
written-none :
    (env : ConfigEnv) (r : WriteRun) (o : Option WriteError)
    → (written env r o).error ≡ none
    → (o ≡ none) × ((written env r o).fs ≡ r.fs)
written-none env r none h = (refl, refl)
written-none env r (some e) h = cc

-- what both sides name
abbrev pub Agrees : Resolved → FrpsRoot → Type 0
Agrees disabled root = root.web_server ≡ none
Agrees no_creds root =
    (w : FrpWebServer) × (root.web_server ≡ some w) × (is_partial w.user w.password ≡ true)
Agrees (resolved d) root =
    root.web_server
    ≡ some (record { addr = d.addr; port = d.port; user = d.creds.user; password = d.creds.pass })

dashboard_section-Agrees :
    (env : ConfigEnv) (c : FrpsConfig) (auto : DashboardCreds) (root : FrpsRoot)
    → root.web_server ≡ dashboard_section (frps_input env (dashboard_creds auto c) c)
    → Agrees (resolve_with c auto) root
unfolding resolve_with dashboard_creds frps_input
dashboard_section-Agrees env c auto root h = elim (Bool-cases c.dashboard_enabled) [
  | inr e ↦ rw e (rw e at h)
  | inl e ↦ elim (Bool-cases (is_partial (effective c auto).user (effective c auto).pass)) [
    | inl f ↦ rw (e, f) (_, rw e at h, f)
    | inr f ↦ rw (e, f) (rw e at h)
  ]
]

module _ {V : Type 0} (kv : KvStore V) (json : SettingsJson V) (marshal : FrpsRoot → Option Text)
    (env : ConfigEnv) (path : String) (fs : Fs) where
  -- the file of frps is what the encoder makes of a configuration that agrees with the dashboard
  -- that is called
  pub record Names (o : Resolved) (fs' : Fs) : Type 0 where
    pub root : FrpsRoot
    pub text : Text
    pub encoded : marshal root ≡ some text
    pub same_dashboard : Agrees o root
    pub file : fs' path ≡ some (record { content = text; mode = owner_only })

  write_rendered-Names :
      fs env.write.temp ≡ none
      → str_eq env.write.temp path ≡ false
      → (c : FrpsConfig) (auto : DashboardCreds) → (r : Result RenderError Text)
      → render_frps marshal (frps_input env (dashboard_creds auto c) c) ≡ r
      → (write_rendered env path fs r).error ≡ none
      → Names (resolve_with c auto) (write_rendered env path fs r).fs
  write_rendered-Names fresh apart c auto (err e) rendered h = cc
  write_rendered-Names fresh apart c auto (ok text) rendered h =
      let r = atomic_write env.write path text fs in
      let input = frps_input env (dashboard_creds auto c) c in
      let (root, made, encoded) = render_frps-ok marshal input text rendered in
      let (no_error, same) = written-none env r r.error h in
      let self = (eq_iff path path).1 refl in
      record {
        root = root;
        text = text;
        encoded = encoded;
        same_dashboard =
            dashboard_section-Agrees env c auto root (frps_root-web_server input root made);
        file =
            rw same
              (rw (no_error, self) at (atomic_write_lem env.write path text fs fresh apart path));
      }

  -- The address, the port and the credentials with which the runtime handlers call the dashboard of
  -- frps are those in the file of frps after a rendering that gave no error, whether the user set
  -- them or they were generated; the dashboard is left out of the file exactly if they report it as
  -- disabled, and lacks a user or a password if they report that: if the name of the temporary file
  -- was free, and the same reads succeed.
  pub resolve_frps_dashboard-Names :
      (io : Io) (s : kv.State)
      → env.path ≡ some path
      → fs env.write.temp ≡ none
      → str_eq env.write.temp path ≡ false
      → (render_and_apply_frps kv json marshal env io s fs).error ≡ none
      → Names
          (resolve_frps_dashboard kv json io s)
          (render_and_apply_frps kv json marshal env io s fs).fs
  unfolding render_and_apply_frps resolve_frps_dashboard
  resolve_frps_dashboard-Names io s place fresh apart h =
      let c = read_frps kv json io s in
      let auto = read_creds kv json io s in
      simp place (
        write_rendered-Names fresh apart c auto
          (render_frps marshal (frps_input env (dashboard_creds auto c) c)) refl (simp place at h))
