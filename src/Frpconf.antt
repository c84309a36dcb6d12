-- ===== src/Frpconf.antt =====
-- internal/frpconf/render.go.
pub mod AllowPorts
pub mod Render
pub mod AtomicWrite
pub mod Examples
