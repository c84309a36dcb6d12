-- ===== src/Frpconf/Render/Ports.antt =====
-- The allowPorts section that RenderFrps of internal/frpconf/render.go writes.
-- rendered configuration says of them.
use frp_easy.Prelude.{
  ℕ, Bool, false, ◌||◌, none, List, [], ◌∷◌, ok, err, map, ◌≡◌, inl, inr, refl, Bool-cases,
  Option-cases, guard-eq, bind-eq,
}
use frp_easy.Frpconf.AllowPorts.{AllowPortRange, out_of_range, is_zero, validate_frps_allow_ports}
use frp_easy.Frpconf.AllowPorts.Disjoint.{allows}
use frp_easy.Frpconf.Render.{
  FrpsRoot, FrpsRenderInput, auth_section, frps_root, allow_ports_section, render_allow_port,
  frps_root_of, allow_ports_invalid, port_out_of_range,
}

-- a port is allowed by some entry
abbrev pub allowed : List AllowPortRange → ℕ → Bool
allowed [] p = false
allowed (r ∷ rs) p = allows r p || allowed rs p

allows-render_allow_port :
    (r : AllowPortRange) (p : ℕ) → allows (render_allow_port r) p ≡ allows r p
unfolding allows render_allow_port
allows-render_allow_port r p = elim (Bool-cases (is_zero r.single)) [
  | inl e ↦ rw e
  | inr e ↦ rw e (rw e)
]

allowed-render :
    (rs : List AllowPortRange) (p : ℕ) → allowed (map render_allow_port rs) p ≡ allowed rs p
allowed-render [] p = refl
allowed-render (r ∷ rs) p = rw (allows-render_allow_port r p, allowed-render rs p)

allow_ports_section-eq :
    (rs out : List AllowPortRange)
    → allow_ports_section rs ≡ ok out
    → (validate_frps_allow_ports rs ≡ none) × (out ≡ map render_allow_port rs)
unfolding allow_ports_section
allow_ports_section-eq [] out h = (unfold validate_frps_allow_ports in refl, cc)
allow_ports_section-eq (r ∷ rs) out h = elim (Option-cases (validate_frps_allow_ports (r ∷ rs))) [
  | inl e ↦
      let y : ok (map render_allow_port (r ∷ rs)) ≡ ok out = rw (e, allow_ports_section) at h in
      (e, cc y)
  | inr (x, e) ↦
      let y : err (allow_ports_invalid x) ≡ ok out = rw (e, allow_ports_section) at h in cc y
]

-- If RenderFrps reaches the encoder, the allowPorts list is one that ValidateFrpsAllowPorts
-- accepts, and the rendered entries allow exactly the ports that the given ones allow.
pub frps_root_ports :
    (x : FrpsRenderInput) (root : FrpsRoot)
    → frps_root x ≡ ok root
    → (validate_frps_allow_ports x.allow_ports ≡ none)
      × ((p : ℕ) → allowed root.allow_ports p ≡ allowed x.allow_ports p)
unfolding frps_root
frps_root_ports x root h =
    let (p, h₁) = guard-eq (out_of_range x.bind_port) (port_out_of_range x.bind_port) _ root h in
    let (a, e, h₂) = bind-eq (auth_section x.auth_method x.auth_token) _ root h₁ in
    let (ps, f, h₃) = bind-eq (allow_ports_section x.allow_ports) _ root h₂ in
    let q : frps_root_of x a ps ≡ root = cc h₃ in
    let (v, o) = allow_ports_section-eq x.allow_ports ps f in
    (v, rw (← q, o) (allowed-render x.allow_ports))
