-- ===== src/WebSockets/Sends.antt =====
-- What `ws_client_send` puts on the wire.
