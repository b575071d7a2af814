-- ===== src/Ini/Freeing.antt =====
-- Every block that `ini_parse` is given is freed once or stands in the configuration once
-- (vcmp/lib/ini.c).
pub mod Counts
pub mod Given
pub mod Assigned
pub mod Turned
pub mod Parsed
