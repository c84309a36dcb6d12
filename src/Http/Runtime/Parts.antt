-- ===== src/Http/Runtime/Parts.antt =====
-- What the reply of serverRuntimeProxies of internal/httpapi/handlers_server_runtime.go tells of each
-- type of rule.
use frp_easy.Prelude.{
  ◌==◌, ◌≤◌, ◌≡◌, refl, true, Option, none, some, List, [], ◌∷◌, String, Text, Result, ok, err,
  length, arith, Bool-cases, inl, inr, All, sym, ◌∙◌,
}
use frp_easy.Http.Errors.{Refusal}
use frp_easy.Http.Settings.{resolved, Dashboard}
use frp_easy.Http.Runtime.{
  AdminError, Answer, frps_proxy_types, write_frpsadmin_error, is_fatal, build_frps_admin_client,
  Tally, proxies, add, aggregate, replied, server_runtime_proxies,
}

module _ (frps : Dashboard → Text → Answer) (escape : String → Text) {A : Type 0}
    (decode : Text → Option A) (d : Dashboard) where
  -- each type is in one of the two maps, with what frps has answered for it
  pub data Parts : List String → List (String × A) → List (String × AdminError) → Type 0 where
    nothing : Parts [] [] []
    listed :
        {t : String} {ts : List String} {ps : List (String × A)} {es : List (String × AdminError)}
        {a : A}
        → proxies frps escape decode d t ≡ ok a
        → Parts ts ps es
        → Parts (t ∷ ts) ((t, a) ∷ ps) es
    failed :
        {t : String} {ts : List String} {ps : List (String × A)} {es : List (String × AdminError)}
        {e : AdminError}
        → proxies frps escape decode d t ≡ err e
        → Parts ts ps es
        → Parts (t ∷ ts) ps ((t, e) ∷ es)

  -- the answer for a type is a fatal error
  abbrev pub Fatal : String → Type 0
  Fatal t = (e : AdminError) × (is_fatal e ≡ true) × (proxies frps escape decode d t ≡ err e)

  add-Parts :
      (t : String) (ts : List String) (r : Tally A) (o : Result AdminError A)
      → proxies frps escape decode d t ≡ o
      → Parts ts r.proxies r.errors
      → Parts (t ∷ ts) (add frps escape decode t o r).proxies (add frps escape decode t o r).errors
  add-Parts t ts r (ok a) e p = listed e p
  add-Parts t ts r (err x) e p = elim (Bool-cases (is_fatal x)) [
    | inl f ↦ simp f (failed e p)
    | inr f ↦ simp f (failed e p)
  ]

  -- what the loop has counted
  record Counted (ts : List String) (r : Tally A) : Type 0 where
    bound : r.fatal ≤ length ts
    all : r.fatal ≡ length ts → All Fatal ts
    full : All Fatal ts → r.fatal ≡ length ts
    found : r.first ≡ none → r.fatal ≡ 0

  add-Counted :
      (t : String) (ts : List String) (r : Tally A) (o : Result AdminError A)
      → proxies frps escape decode d t ≡ o
      → Counted ts r
      → Counted (t ∷ ts) (add frps escape decode t o r)
  add-Counted t ts r (ok a) e c = record {
    bound = omega (arith, c.bound);
    all = λ h. absurd (omega (arith, h, c.bound));
    full = λ ((x, f, g), hs). cc;
    found = c.found;
  }
  add-Counted t ts r (err x) e c = elim (Bool-cases (is_fatal x)) [
    | inl f ↦ simp f (record {
      bound = omega (arith, c.bound);
      all = λ h. ((x, f, e), c.all (omega (arith, h)));
      full = λ (h, hs). omega (arith, c.full hs);
      found = λ h. cc;
    })
    | inr f ↦ simp f (record {
      bound = omega (arith, c.bound);
      all = λ h. absurd (omega (arith, h, c.bound));
      full = λ ((y, g, h), hs). cc;
      found = c.found;
    })
  ]

  aggregate-Parts :
      (ts : List String)
      → Parts ts
          (aggregate frps escape decode d ts).proxies
          (aggregate frps escape decode d ts).errors
  unfolding aggregate
  aggregate-Parts [] = nothing
  aggregate-Parts (t ∷ ts) =
      add-Parts t ts (aggregate frps escape decode d ts) (proxies frps escape decode d t) refl
        (aggregate-Parts ts)

  aggregate-Counted : (ts : List String) → Counted ts (aggregate frps escape decode d ts)
  unfolding aggregate
  aggregate-Counted [] = record {
    bound = omega arith;
    all = λ h. tt;
    full = λ h. refl;
    found = λ h. refl;
  }
  aggregate-Counted (t ∷ ts) =
      add-Counted t ts (aggregate frps escape decode d ts) (proxies frps escape decode d t) refl
        (aggregate-Counted ts)

  aggregate-first :
      (t : String) (ts : List String) (x : AdminError)
      → is_fatal x ≡ true
      → proxies frps escape decode d t ≡ err x
      → (aggregate frps escape decode d (t ∷ ts)).first ≡ some x
  unfolding aggregate
  aggregate-first t ts x f e = rw (e, f) refl

  -- the refusal is the one for the answer to the first type
  abbrev pub FirstIs : List String → Refusal → Type 0
  FirstIs [] e = ⊥
  FirstIs (t ∷ ts) e =
      (x : AdminError) × (proxies frps escape decode d t ≡ err x) × (e ≡ write_frpsadmin_error x)

  abbrev pub Told : List String → Result Refusal (Tally A) → Type 0
  Told ts (ok r) = Parts ts r.proxies r.errors × ¬ (All Fatal ts)
  Told ts (err e) = All Fatal ts × FirstIs ts e

  replied-Told :
      (t : String) (ts : List String) (o : Option AdminError)
      → (aggregate frps escape decode d (t ∷ ts)).first ≡ o
      → Told
          (t ∷ ts)
          (replied frps escape decode (aggregate frps escape decode d (t ∷ ts)) (length (t ∷ ts)) o)
  replied-Told t ts none h =
      let c = aggregate-Counted (t ∷ ts) in
      (aggregate-Parts (t ∷ ts), λ all. absurd (omega (arith, c.full all, c.found h)))
  replied-Told t ts (some e) h =
      let r = aggregate frps escape decode d (t ∷ ts) in
      let c = aggregate-Counted (t ∷ ts) in
      elim (Bool-cases (r.fatal == length (t ∷ ts))) [
        | inl q ↦
            let all = c.all (ground (arith, q)) in
            let (x, f, g) = all.0 in
            let same : some e ≡ some x = sym h ∙ aggregate-first t ts x f g in
            rw q (all, (x, g, cc same))
        | inr q ↦ rw q (aggregate-Parts (t ∷ ts), λ all. absurd (ground (arith, q, c.full all)))
      ]

  -- The reply for the rules that run in frps, where the dashboard is known: with status 200 it has
  -- each of the seven types in exactly one of its two maps, with the rules or with the error that frps
  -- gave for it, and not all of these were fatal; it is a refusal exactly where all seven answers were
  -- fatal errors, and then the one for the first of them.
  pub server_runtime_proxies-Told :
      Told frps_proxy_types (server_runtime_proxies frps escape decode (resolved d))
  unfolding server_runtime_proxies build_frps_admin_client frps_proxy_types
  server_runtime_proxies-Told = replied-Told "tcp" _ _ refl
