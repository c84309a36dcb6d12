-- ===== src/Frpconf/AtomicWrite/Examples.antt =====
-- AtomicWrite of internal/frpconf/render.go onto an old file, with a disk that fails late.
use frp_easy.Prelude.{
  ◌≡◌, refl, Bool, true, false, not, ◌&&◌, none, some, str_eq, codes, All, if◌then◌else◌,
}
use frp_easy.Files.{File, Fs}
use frp_easy.Frpconf.AtomicWrite.{WriteError, WriteEnv, rename_temp, atomic_write}
use frp_easy.Frpconf.AtomicWrite.Safety.{OldOrNew, atomic_write_safe}
use frp_easy.Frpconf.AtomicWrite.Result.{replaces, new_file, atomic_write_lem}

abbrev old_file : File
old_file = record { content = codes "old"; mode = 420 }

abbrev disk : Fs
disk q = if str_eq "frpc.toml" q then some old_file else none

abbrev late : WriteError → Bool
late rename_temp = true
late _ = false

abbrev env : (WriteError → Bool) → WriteEnv
env fails = record {
  fails = fails;
  temp = ".frpconf-1.tmp";
  temp_mode = 384;
  partial = 1;
  cleanup_fails = true;
}

written :
    (atomic_write (env (λ e. false)) "frpc.toml" (codes "new") disk).fs "frpc.toml"
    ≡ some (record { content = codes "new"; mode = 384 })
unfolding atomic_write
written = refl

kept : (atomic_write (env late) "frpc.toml" (codes "new") disk).fs "frpc.toml" ≡ some old_file
unfolding atomic_write
kept = refl

atomic_write_safe_example :
    All
      (OldOrNew (env late) "frpc.toml" (codes "new") disk)
      (atomic_write (env late) "frpc.toml" (codes "new") disk).seen
atomic_write_safe_example = atomic_write_safe (env late) "frpc.toml" (codes "new") disk refl

atomic_write_lem_example :
    (atomic_write (env late) "frpc.toml" (codes "new") disk).fs "frps.toml" ≡ (
      if replaces (atomic_write (env late) "frpc.toml" (codes "new") disk).error
        && str_eq "frpc.toml" "frps.toml"
      then some (new_file (env late) "frpc.toml" (codes "new") disk)
      else if not (replaces (atomic_write (env late) "frpc.toml" (codes "new") disk).error)
          && true
          && str_eq ".frpconf-1.tmp" "frps.toml"
      then (atomic_write (env late) "frpc.toml" (codes "new") disk).fs "frps.toml"
      else disk "frps.toml")
atomic_write_lem_example =
    atomic_write_lem (env late) "frpc.toml" (codes "new") disk refl refl "frps.toml"
