-- ===== src/Appconf.antt =====
-- internal/appconf/config.go: the settings of the program itself, read from frp_easy.toml, which is
-- written with the defaults where it is missing. Texts of messages are left out.
pub mod Again
pub mod Examples
use frp_easy.Prelude.{
  ℕ, ℤ, pos, Bool, true, false, not, ◌&&◌, Option, none, some, String, str_eq, Text, Result, ok,
  err, if◌then◌else◌, take, ◌≡◌,
}
use frp_easy.Files.{File, Fs, create, write_file}
use frp_easy.Frpconf.AllowPorts.{is_zero, out_of_range}

pub record AppConfig : Type 0 where
  pub ui_bind_addr : String
  pub ui_port : ℤ
  pub data_dir : String
  pub log_dir : String

-- Default
unfoldable pub default_config : AppConfig
default_config = record {
  ui_bind_addr = "0.0.0.0";
  ui_port = pos 7800;
  data_dir = "./.frp_easy";
  log_dir = "./.frp_easy/logs";
}

pub data ConfError : Type 0 where
  abs_path make_dir marshal_default write_default read_failed parse_failed : ConfError
  port_range addr_missing addr_has_port data_dir_missing log_dir_missing : ConfError

-- filepath.Abs and filepath.Join, and whether net.ParseIP and net.SplitHostPort take a text
pub record Names : Type 0 where
  pub abs : String → Option String
  pub join : String → String → String
  pub parse_ip : String → Bool
  pub split_host_port : String → Bool

-- go-toml: Marshal, and Unmarshal onto settings, where a field that the text lacks is kept; what
-- Marshal has written gives all fields back
pub record Toml : Type 0 where
  pub marshal : AppConfig → Option Text
  pub unmarshal : Text → AppConfig → Option AppConfig
  pub unmarshal-marshal :
      (c base : AppConfig) (text : Text) → marshal c ≡ some text → unmarshal text base ≡ some c

-- the calls of os that may fail: a read of a file that is there, MkdirAll, the opening of the file
-- and a write that stops early
pub record Os : Type 0 where
  pub read_fails : Bool
  pub mkdir_fails : Bool
  pub open_fails : Bool
  pub write_stops : Option ℕ
  pub mode : ℕ

unfoldable pub check_addr : Names → AppConfig → Option ConfError
check_addr names c =
    if not (names.parse_ip c.ui_bind_addr) && names.split_host_port c.ui_bind_addr
    then some addr_has_port
    else if str_eq c.data_dir ""
    then some data_dir_missing
    else if str_eq c.log_dir ""
    then some log_dir_missing
    else none

-- (*AppConfig).Validate of settings that are there
unfoldable pub validate : Names → AppConfig → Option ConfError
unfolding check_addr
validate names c =
    if out_of_range c.ui_port
    then some port_range
    else if str_eq c.ui_bind_addr ""
    then some addr_missing
    else check_addr names c

-- the return of the settings if Validate takes them
abbrev pub checked : AppConfig → Option ConfError → Result ConfError AppConfig
checked c none = ok c
checked c (some e) = err e

abbrev pub or_text : String → String → String
or_text s d = if str_eq s "" then d else s

-- the fields that the file leaves empty
unfoldable pub fill : Names → AppConfig → AppConfig
fill names c =
    let dir = or_text c.data_dir "./.frp_easy" in
    record {
      ui_bind_addr = or_text c.ui_bind_addr "0.0.0.0";
      ui_port = if is_zero c.ui_port then pos 7800 else c.ui_port;
      data_dir = dir;
      log_dir = or_text c.log_dir (names.join dir "logs");
    }

module _ (names : Names) (toml : Toml) where
  abbrev pub parsed : Option AppConfig → Result ConfError AppConfig
  parsed none = err parse_failed
  parsed (some c) = checked (fill names c) (validate names (fill names c))

  -- os.WriteFile of a new file: all of the text, or what a write that fails has left
  abbrev pub write_new : Os → String → Text → Fs → Option ℕ → Fs × Result ConfError AppConfig
  write_new os path text fs (some n) =
      (write_file path (take n text) (create path os.mode fs), err write_default)
  write_new os path text fs none = (
    write_file path text (create path os.mode fs),
    checked default_config (validate names default_config),
  )

  abbrev pub write_text : Os → String → Fs → Option Text → Fs × Result ConfError AppConfig
  write_text os path fs none = (fs, err marshal_default)
  write_text os path fs (some text) =
      if os.open_fails then (fs, err write_default) else write_new os path text fs os.write_stops

  abbrev pub load_file : Os → String → Fs → Option File → Fs × Result ConfError AppConfig
  load_file os path fs none =
      if os.mkdir_fails
      then (fs, err make_dir)
      else write_text os path fs (toml.marshal default_config)
  load_file os path fs (some f) =
      if os.read_fails
      then (fs, err read_failed)
      else (fs, parsed (toml.unmarshal f.content default_config))

  abbrev pub load_at : Os → Fs → Option String → Fs × Result ConfError AppConfig
  load_at os fs none = (fs, err abs_path)
  load_at os fs (some path) = load_file os path fs (fs path)

  -- Load
  unfoldable pub load : Os → String → Fs → Fs × Result ConfError AppConfig
  unfolding default_config validate fill
  load os path fs = load_at os fs (names.abs path)
