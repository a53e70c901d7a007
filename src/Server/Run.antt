-- ===== src/Server/Run.antt =====
-- internal/server/server.go: Run serves until a signal or a failed listener ends it.
use vaulty.Prelude.{ℕ, Option, none, some, ◌++◌, Text, text}

-- The http.Server, its limits in seconds.
pub record HttpServer : Type 0 where
  pub address : Text
  pub read_timeout : ℕ
  pub write_timeout : ℕ
  pub idle_timeout : ℕ

unfoldable pub http_server : Text → HttpServer
http_server port = record {
  address = text ":" ++ port;
  read_timeout = 10;
  write_timeout = 30;
  idle_timeout = 60;
}

-- The seconds that Shutdown may take
abbrev pub shutdown_timeout : ℕ
shutdown_timeout = 15

-- What the select receives first: SIGINT or SIGTERM, http.ErrServerClosed, or another error of
-- ListenAndServe.
pub data Ending : Type 0 where
  signal : Ending
  server_closed : Ending
  listen_error : Text → Ending

abbrev after_shutdown : Option Text → Option Text
after_shutdown none = none
after_shutdown (some e) = some (text "server shutdown: " ++ e)

-- Run's error, if any, where `shutdown` is Shutdown's.
unfoldable pub run : Ending → Option Text → Option Text
run (listen_error e) shutdown = some (text "server error: " ++ e)
run signal shutdown = after_shutdown shutdown
run server_closed shutdown = after_shutdown shutdown
