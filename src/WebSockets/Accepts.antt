-- ===== src/WebSockets/Accepts.antt =====
-- The answer to a WebSocket handshake.
use vcmp.Prelude.{◌>>=◌}
