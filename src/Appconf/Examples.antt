-- ===== src/Appconf/Examples.antt =====
-- The first two starts of internal/appconf/config.go in an empty directory.
use frp_easy.Prelude.{
  ◌≡◌, refl, ap, eq_iff, Bool, Bool-cases, inl, inr, ◌&&◌, ◌==◌, ℤ, pos, negsuc, str_eq, arith,
  true, false, Option, none, some, Text, codes, ok, if◌then◌else◌,
}
use frp_easy.Files.{Fs}
use frp_easy.Appconf.{AppConfig, default_config, Names, Toml, Os, validate, check_addr, load}
use frp_easy.Appconf.Again.{load_again}

abbrev names : Names
names = record {
  abs = λ p. some p;
  join = λ a b. b;
  parse_ip = λ a. true;
  split_host_port = λ a. false;
}

abbrev os : Os
os = record {
  read_fails = false;
  mkdir_fails = false;
  open_fails = false;
  write_stops = none;
  mode = 420;
}

abbrev empty : Fs
empty p = none

-- an encoder that knows the defaults only
abbrev is_7800 : ℤ → Bool
is_7800 (pos n) = n == 7800
is_7800 (negsuc n) = false

abbrev is_default : AppConfig → Bool
is_default c =
    str_eq c.ui_bind_addr "0.0.0.0"
    && str_eq c.data_dir "./.frp_easy"
    && str_eq c.log_dir "./.frp_easy/logs"
    && is_7800 c.ui_port

is_7800-eq : (p : ℤ) → is_7800 p ≡ true → p ≡ pos 7800
is_7800-eq (pos n) h = ap pos (ground (arith, h))
is_7800-eq (negsuc n) h = cc

is_default-eq : (c : AppConfig) → is_default c ≡ true → default_config ≡ c
unfolding default_config
is_default-eq c h =
    let addr = (eq_iff c.ui_bind_addr "0.0.0.0").0 (ground (arith, h)) in
    let dir = (eq_iff c.data_dir "./.frp_easy").0 (ground (arith, h)) in
    let log = (eq_iff c.log_dir "./.frp_easy/logs").0 (ground (arith, h)) in
    let port = is_7800-eq c.ui_port (ground (arith, h)) in rw (addr, dir, log, port) refl

abbrev encode : AppConfig → Option Text
encode c = if is_default c then some (codes "default") else none

decode-encode :
    (c base : AppConfig) (text : Text) → encode c ≡ some text → some default_config ≡ some c
decode-encode c base text h = elim (Bool-cases (is_default c)) [
  | inl e ↦ ap (λ (d : AppConfig). some d) (is_default-eq c e)
  | inr e ↦ cc (simp e at h)
]

abbrev toml : Toml
toml = record {
  marshal = encode;
  unmarshal = λ text base. some default_config;
  unmarshal-marshal = decode-encode;
}

loaded : (load names toml os "frp_easy.toml" empty).1 ≡ ok default_config
unfolding load default_config validate check_addr
loaded = refl

load_again_example :
    load names toml os "frp_easy.toml" (load names toml os "frp_easy.toml" empty).0
    ≡ ((load names toml os "frp_easy.toml" empty).0, ok default_config)
load_again_example = load_again names toml os os "frp_easy.toml" empty default_config refl loaded
