-- ===== src/Config/Load.antt =====
-- `LoadConfig`: the file, then the environment, then the defaults.
use goencode.Prelude.{
  Bool, ◌&&◌, [], ◌∷◌, Text, codes, is_empty, if◌then◌else◌, Option, none, some, ◌==◌,
}
use goencode.Prelude.Int.{ℤ, pos, leb_ℤ, pos_part, neg_part}
use goencode.Go.Strings.{trim_space}
use goencode.Config.{
  Getenv, get_env_str_first, get_env_str, get_env_int_first, get_env_int, clamp_workers,
  clamp_threads, ServerConfig, DatabaseConfig, is_sqlite, EncoderConfig, DownloaderConfig,
  AuthConfig, NotificationsConfig, Config, split_csv, normalize_db_driver,
}

unfoldable pub server_env : Getenv → ServerConfig → ServerConfig
server_env getenv c = record c {
  port =
      get_env_int_first getenv c.port (codes "GOENCODE_PORT" ∷ codes "GOENCODE_SERVER_PORT" ∷ []);
  listen_addr =
      get_env_str_first getenv c.listen_addr
        (codes "GOENCODE_LISTEN_ADDR" ∷ codes "GOENCODE_SERVER_LISTEN" ∷ []);
}

unfoldable pub auth_env : Getenv → AuthConfig → AuthConfig
auth_env getenv c = record {
  username = get_env_str getenv (codes "GOENCODE_AUTH_USER") c.username;
  password = get_env_str getenv (codes "GOENCODE_AUTH_PASS") c.password;
}

unfoldable pub database_env : Getenv → DatabaseConfig → DatabaseConfig
database_env getenv c = record {
  driver =
      get_env_str_first getenv c.driver
        (codes "GOENCODE_DB_DRIVER" ∷ codes "GOENCODE_DATABASE_DRIVER" ∷ []);
  path = get_env_str getenv (codes "GOENCODE_DB_PATH") c.path;
  host = get_env_str getenv (codes "GOENCODE_DB_HOST") c.host;
  port = get_env_int getenv (codes "GOENCODE_DB_PORT") c.port;
  user = get_env_str getenv (codes "GOENCODE_DB_USER") c.user;
  password = get_env_str getenv (codes "GOENCODE_DB_PASS") c.password;
  name = get_env_str getenv (codes "GOENCODE_DB_NAME") c.name;
}

unfoldable pub encoder_env : Getenv → EncoderConfig → EncoderConfig
encoder_env getenv c = record {
  ffmpeg_path = get_env_str getenv (codes "GOENCODE_FFMPEG_PATH") c.ffmpeg_path;
  temp_dir = get_env_str getenv (codes "GOENCODE_ENCODER_TEMP") c.temp_dir;
  workers = get_env_int getenv (codes "GOENCODE_ENCODER_WORKERS") c.workers;
  threads = get_env_int getenv (codes "GOENCODE_ENCODER_THREADS") c.threads;
  min_free_gb = get_env_int getenv (codes "GOENCODE_ENCODER_MIN_FREE_GB") c.min_free_gb;
}

unfoldable pub downloader_env : Getenv → DownloaderConfig → DownloaderConfig
downloader_env getenv c = record {
  ytdlp_path = get_env_str getenv (codes "GOENCODE_YTDLP_PATH") c.ytdlp_path;
  workers = get_env_int getenv (codes "GOENCODE_DOWNLOADER_WORKERS") c.workers;
  cookies_file = get_env_str getenv (codes "GOENCODE_YTDLP_COOKIES_FILE") c.cookies_file;
  cookies_from_browser =
      get_env_str getenv (codes "GOENCODE_YTDLP_COOKIES_FROM_BROWSER") c.cookies_from_browser;
}

unfoldable pub notifications_env : Getenv → NotificationsConfig → NotificationsConfig
notifications_env getenv c = record {
  events =
      if is_empty (getenv (codes "GOENCODE_NOTIFY_EVENTS"))
      then c.events
      else split_csv (getenv (codes "GOENCODE_NOTIFY_EVENTS"));
  webhook_url = get_env_str getenv (codes "GOENCODE_WEBHOOK_URL") c.webhook_url;
  ntfy = record {
    url = get_env_str getenv (codes "GOENCODE_NTFY_URL") c.ntfy.url;
    token = get_env_str getenv (codes "GOENCODE_NTFY_TOKEN") c.ntfy.token;
  };
  discord_webhook_url =
      get_env_str getenv (codes "GOENCODE_DISCORD_WEBHOOK_URL") c.discord_webhook_url;
  gotify = record {
    url = get_env_str getenv (codes "GOENCODE_GOTIFY_URL") c.gotify.url;
    token = get_env_str getenv (codes "GOENCODE_GOTIFY_TOKEN") c.gotify.token;
  };
}

unfoldable pub override : Getenv → Config → Config
override getenv c = record {
  server = server_env getenv c.server;
  auth = auth_env getenv c.auth;
  database = database_env getenv c.database;
  encoder = encoder_env getenv c.encoder;
  downloader = downloader_env getenv c.downloader;
  log_level = get_env_str getenv (codes "GOENCODE_LOG_LEVEL") c.log_level;
  notifications = notifications_env getenv c.notifications;
}

abbrev pub is_zero : ℤ → Bool
is_zero z = pos_part z == 0 && neg_part z == 0

-- `if s == "" { s = d }`
unfoldable pub text_or : Text → Text → Text
text_or s d = if is_empty s then d else s

unfoldable pub server_defaults : ServerConfig → ServerConfig
server_defaults c = record c {
  port = if is_zero c.port then pos 8080 else c.port;
  listen_addr = text_or c.listen_addr (codes "0.0.0.0");
}

unfoldable pub default_driver : Text → Text → Text
default_driver driver host =
    if is_empty driver
    then if is_empty (trim_space host) then codes "sqlite" else codes "mysql"
    else driver

unfoldable pub connection_defaults : DatabaseConfig → DatabaseConfig
connection_defaults c =
    if is_sqlite c
    then record c { path = if is_empty (trim_space c.path) then codes "goencode.db" else c.path }
    else record c { port = if is_zero c.port then pos 3306 else c.port }

unfoldable pub database_defaults : DatabaseConfig → DatabaseConfig
database_defaults c =
    connection_defaults (record c { driver = default_driver (normalize_db_driver c.driver) c.host })

unfoldable pub encoder_defaults : EncoderConfig → EncoderConfig
encoder_defaults c = record c {
  temp_dir = text_or c.temp_dir (codes "/tmp/goencode");
  workers = clamp_workers c.workers;
  threads = clamp_threads c.threads;
  min_free_gb = if leb_ℤ c.min_free_gb (pos 0) then pos 5 else c.min_free_gb;
}

unfoldable pub downloader_defaults : DownloaderConfig → DownloaderConfig
downloader_defaults c = record c {
  ytdlp_path = text_or c.ytdlp_path (codes "yt-dlp");
  workers = clamp_workers c.workers;
}

unfoldable pub set_defaults : Config → Config
set_defaults c = record c {
  server = server_defaults c.server;
  database = database_defaults c.database;
  encoder = encoder_defaults c.encoder;
  downloader = downloader_defaults c.downloader;
}

unfoldable pub set_time_zone : Getenv → Config → Config
set_time_zone getenv c = record c {
  server = record c.server { time_zone = text_or (getenv (codes "TZ")) c.server.time_zone };
}

-- `var cfg Config`
abbrev pub empty_config : Config
empty_config = record {
  server = record { port = pos 0; listen_addr = []; time_zone = [] };
  auth = record { username = []; password = [] };
  database = record {
    driver = [];
    path = [];
    host = [];
    port = pos 0;
    user = [];
    password = [];
    name = [];
  };
  encoder = record {
    ffmpeg_path = [];
    temp_dir = [];
    workers = pos 0;
    threads = pos 0;
    min_free_gb = pos 0;
  };
  downloader = record {
    ytdlp_path = [];
    workers = pos 0;
    cookies_file = [];
    cookies_from_browser = [];
  };
  log_level = [];
  notifications = record {
    events = [];
    webhook_url = [];
    ntfy = record { url = []; token = [] };
    discord_webhook_url = [];
    gotify = record { url = []; token = [] };
  };
}

-- The configuration of a file that was read, or of none.
unfoldable pub parse_file : (Text → Option Config) → Option Text → Option Config
parse_file unmarshal none = some empty_config
parse_file unmarshal (some text) = unmarshal text

unfoldable pub complete : Getenv → Option Config → Option Config
complete getenv none = none
complete getenv (some c) = some (set_time_zone getenv (set_defaults (override getenv c)))

unfoldable pub load_config : (Text → Option Config) → Getenv → Option Text → Option Config
load_config unmarshal getenv file = complete getenv (parse_file unmarshal file)
