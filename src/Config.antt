-- ===== src/Config.antt =====
-- Package config (internal/config/config.go): the configuration that a file and the environment give.
-- The file is read by package yaml, whose `Unmarshal` is a parameter.
pub mod Load
pub mod Valid
mod Tests
use goencode.Prelude.{
  ℕ, Bool, true, false, not, ◌||◌, List, [], ◌∷◌, Text, codes, text_eq, is_empty, if◌then◌else◌,
  Option, none, some,
}
use goencode.Prelude.Int.{ℤ, pos, negsuc, ltb_ℤ}
use goencode.Go.Strings.{trim_space, to_lower, split}
use goencode.Go.Strconv.{atoi}

-- `os.Getenv`, which gives an empty text for a variable that is not set.
abbrev pub Getenv : Type 0
Getenv = Text → Text

unfoldable pub get_env_str_first : Getenv → Text → List Text → Text
get_env_str_first getenv default_val [] = default_val
get_env_str_first getenv default_val (key ∷ keys) =
    let rest = get_env_str_first getenv default_val keys in
    if is_empty (getenv key) then rest else getenv key

unfoldable pub get_env_str : Getenv → Text → Text → Text
get_env_str getenv key default_val = if is_empty (getenv key) then default_val else getenv key

-- A value that is no number is passed over.
unfoldable pub int_or : Text → ℤ → ℤ
int_or val rest = elim (atoi val) [ some i ↦ i | none ↦ rest ]

unfoldable pub get_env_int_first : Getenv → ℤ → List Text → ℤ
get_env_int_first getenv default_val [] = default_val
get_env_int_first getenv default_val (key ∷ keys) =
    let rest = get_env_int_first getenv default_val keys in
    if is_empty (getenv key) then rest else int_or (getenv key) rest

unfoldable pub get_env_int : Getenv → Text → ℤ → ℤ
get_env_int getenv key default_val = get_env_int_first getenv default_val (key ∷ [])

abbrev pub max_encoder_workers : ℤ
max_encoder_workers = pos 16

unfoldable pub clamp_workers : ℤ → ℤ
clamp_workers n =
    if ltb_ℤ n (pos 1)
    then pos 1
    else if ltb_ℤ max_encoder_workers n
    then max_encoder_workers
    else n

unfoldable pub clamp_threads : ℤ → ℤ
clamp_threads n = if ltb_ℤ n (pos 0) then pos 0 else if ltb_ℤ (pos 256) n then pos 256 else n

pub record ServerConfig : Type 0 where
  pub port : ℤ
  pub listen_addr : Text
  pub time_zone : Text

pub record DatabaseConfig : Type 0 where
  pub driver : Text
  pub path : Text
  pub host : Text
  pub port : ℤ
  pub user : Text
  pub password : Text
  pub name : Text

unfoldable pub is_sqlite : DatabaseConfig → Bool
is_sqlite c = text_eq c.driver (codes "sqlite")

pub record EncoderConfig : Type 0 where
  pub ffmpeg_path : Text
  pub temp_dir : Text
  pub workers : ℤ
  pub threads : ℤ
  pub min_free_gb : ℤ

pub record DownloaderConfig : Type 0 where
  pub ytdlp_path : Text
  pub workers : ℤ
  pub cookies_file : Text
  pub cookies_from_browser : Text

pub record AuthConfig : Type 0 where
  pub username : Text
  pub password : Text

-- An address, and the token for it.
pub record Endpoint : Type 0 where
  pub url : Text
  pub token : Text

pub record NotificationsConfig : Type 0 where
  pub events : List Text
  pub webhook_url : Text
  pub ntfy : Endpoint
  pub discord_webhook_url : Text
  pub gotify : Endpoint

pub record Config : Type 0 where
  pub server : ServerConfig
  pub auth : AuthConfig
  pub database : DatabaseConfig
  pub encoder : EncoderConfig
  pub downloader : DownloaderConfig
  pub log_level : Text
  pub notifications : NotificationsConfig

-- The parts that are not blank, trimmed.
unfoldable pub trimmed_parts : List Text → List Text
trimmed_parts [] = []
trimmed_parts (p ∷ ps) =
    let rest = trimmed_parts ps in if is_empty (trim_space p) then rest else trim_space p ∷ rest

unfoldable pub split_csv : Text → List Text
split_csv s = trimmed_parts (split s b',')

-- The name of a driver, in lower case and trimmed.
unfoldable pub driver_name : Text → Text
driver_name name =
    if text_eq name (codes "sqlite") || text_eq name (codes "sqlite3")
    then codes "sqlite"
    else if text_eq name (codes "mysql") || text_eq name (codes "mariadb")
    then codes "mysql"
    else name

unfoldable pub normalize_db_driver : Text → Text
normalize_db_driver s = driver_name (to_lower (trim_space s))
