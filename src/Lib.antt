-- ===== src/Lib.antt =====
-- frp_easy is a web console for the tunnels of frp: a Go server that keeps rules and settings in
-- SQLite, renders the configuration files of frpc and frps, runs the two as child processes and
-- shows their logs. This library models parts of internal/ of the repository. A handler reads and
-- writes the database, renders the files after a change and tells the process manager; downloads and
-- uploads put the binaries in place that the manager starts.
--
--   Prelude     shared helpers: tests, lists, byte texts, integers, results
--   Files       files with their modes, and the use of a temporary file and a rename
--   Storage     internal/storage: Kv is kv.go, Sessions is sessions.go with parseSQLiteTime of
--               helpers.go, Admin is admin.go, Proxies is proxies.go with the table's constraints of
--               sqlmigrations/0001_init.up.sql in Proxies/Schema. KvStore is the interface `kvStore`
--               of internal/auth/ratelimit.go, with laws, and kv.go as its instance. Open and Migrate
--               are store.go: Open, and loadMigrations, migrate and applyOne.
--   Auth        internal/auth: RateLimit is ratelimit.go, over any KvStore, Hash is hash.go
--   Frpconf     internal/frpconf/render.go: AllowPorts is ValidateFrpsAllowPorts, Render is RenderFrpc
--               and RenderFrps, AtomicWrite is AtomicWrite on Files
--   Appconf     internal/appconf/config.go: Default, Validate and Load on Files
--   Logtail     internal/logtail/tail.go: TailLines and ReadFrom
--   Procmgr     internal/procmgr/manager.go: the sections of the methods under the mutex;
--               Interleaving runs them in any order, beside the children of the system; Calls are
--               the whole methods, one call at a time, and Tail is the ring buffer
--   Downloader  internal/downloader: the state of a download of downloader.go; Tasks has the
--               goroutines, Cancel is the whole of Cancel, Release the choice of the asset, Archive
--               the unpacking, Install is install.go
--   Binloc      internal/binloc/binloc.go: the paths of the binaries and the search for them
--   Http        internal/httpapi: Errors is errors.go, Validate is validate.go, Proxies is
--               handlers_proxies.go over Storage.Proxies, Accounts is handlers_auth.go and
--               handlers_setup.go over the limiter, the sessions and the administrator, Settings is
--               handlers_server.go, Config is config_helper.go, Upload is uploadBin of
--               handlers_system.go, Processes is handlers_proc.go and handlers_mode.go, Runtime is
--               handlers_server_runtime.go with the client internal/frpsadmin/client.go, Middleware
--               has the gates of middleware.go in the order of router.go, Redact its masking of
--               secrets in the log
--   Restore     cmd/frp-easy/main.go: autoRestoreProcs and retryRestoreLoop, over Http.Processes
--
-- A method that changes state is a function from the old state to the new one and its result, named
-- after the method; a chain of error returns is a `Result`. A statement of SQL, or a call of the file
-- system, that may fail asks an argument whether it does. Times are numbers of nanoseconds, ids and
-- versions natural numbers, ports integers.
--
-- Parameters, each with the laws that the code relies on: SQLite's LIKE operator, the texts of the
-- driver's errors, the effect of a script of SQL, the JSON codecs, the clock's formats, the TOML
-- encoder, argon2 and base64, SHA-256, the joining of paths. The modules named Examples, Toy and
-- PlainCodec have concrete ones.
--
-- Fuel: TailLines reads the file backwards by chunks; it is given one round for each byte and one
-- more, which is shown to be enough. No other model runs on fuel.
--
-- Not modelled: the transfer of a download's body, what SQLite writes to its files (a parameter), the client of
-- frpc's admin API, the handlers that only pass on an answer or a flag, the search for the public
-- address and for the program's root, the rotation of logs by its library, the rest of
-- cmd/frp-easy/main.go, which is wiring, and the web pages: they are input and output, or calls of
-- other systems. The machine's 64-bit counters are taken not to overflow.
pub mod Prelude
pub mod Files
pub mod Storage
pub mod Auth
pub mod Frpconf
pub mod Appconf
pub mod Logtail
pub mod Procmgr
pub mod Http
pub mod Restore
pub mod Downloader
pub mod Binloc
