-- ===== src/Tests/Error.antt =====
-- An error with a status of HTTP.
