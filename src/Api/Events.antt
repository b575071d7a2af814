-- ===== src/Api/Events.antt =====
-- The events that the user of the API is sent.
