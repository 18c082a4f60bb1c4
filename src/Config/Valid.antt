-- ===== src/Config/Valid.antt =====
-- What every configuration that is loaded satisfies.
use goencode.Prelude.{
  Option-cases, ◌≡◌, refl, ap, true, false, [], ◌∷◌, Text, codes, text_eq, is_empty, if◌then◌else◌,
  Option, none, some, Bool-cases, if_both, inl, inr, ◌⊎◌, arith,
}
use goencode.Prelude.Int.{ℤ, pos, negsuc, leb_ℤ, ◌≤ℤ◌}
use goencode.Go.Strings.{trim_space}
use goencode.Config.{
  Getenv, clamp_workers, clamp_threads, DatabaseConfig, is_sqlite, Config, normalize_db_driver,
}
use goencode.Config.Load.{
  text_or, is_zero, server_defaults, default_driver, connection_defaults, database_defaults,
  encoder_defaults, downloader_defaults, set_defaults, set_time_zone, complete, parse_file,
  load_config,
}

-- A database that is named: a driver, and the path of a file or a port other than zero.
abbrev pub IsNamed : DatabaseConfig → Type 0
IsNamed c =
    (is_empty c.driver ≡ false)
    × ((is_sqlite c ≡ true → is_empty (trim_space c.path) ≡ false)
        × (is_sqlite c ≡ false → is_zero c.port ≡ false))

pub record IsValid (c : Config) : Type 0 where
  pub port : is_zero c.server.port ≡ false
  pub listen_addr : is_empty c.server.listen_addr ≡ false
  pub database : IsNamed c.database
  pub temp_dir : is_empty c.encoder.temp_dir ≡ false
  pub workers : (pos 1 ≤ℤ c.encoder.workers) × (c.encoder.workers ≤ℤ pos 16)
  pub threads : (pos 0 ≤ℤ c.encoder.threads) × (c.encoder.threads ≤ℤ pos 256)
  pub min_free : pos 1 ≤ℤ c.encoder.min_free_gb
  pub ytdlp_path : is_empty c.downloader.ytdlp_path ≡ false
  pub downloads : (pos 1 ≤ℤ c.downloader.workers) × (c.downloader.workers ≤ℤ pos 16)

text_or_filled : (s d : Text) → is_empty d ≡ false → is_empty (text_or s d) ≡ false
unfolding text_or
text_or_filled [] d h = h
text_or_filled (c ∷ s) d h = refl

clamp_workers_bounds : (n : ℤ) → (pos 1 ≤ℤ clamp_workers n) × (clamp_workers n ≤ℤ pos 16)
unfolding clamp_workers
clamp_workers_bounds (pos n) = ground arith
clamp_workers_bounds (negsuc n) = ground arith

clamp_threads_bounds : (n : ℤ) → (pos 0 ≤ℤ clamp_threads n) × (clamp_threads n ≤ℤ pos 256)
unfolding clamp_threads
clamp_threads_bounds (pos n) = ground arith
clamp_threads_bounds (negsuc n) = ground arith

default_driver_filled : (driver host : Text) → is_empty (default_driver driver host) ≡ false
unfolding default_driver
default_driver_filled [] host =
    if_both (λ (d : Text). is_empty d ≡ false) (is_empty (trim_space host)) refl refl
default_driver_filled (c ∷ s) host = refl

port_or : (p d : ℤ) → is_zero d ≡ false → is_zero (if is_zero p then d else p) ≡ false
port_or p d h = elim (Bool-cases (is_zero p)) [ inl y ↦ rw y h | inr n ↦ rw (n, n) refl ]

path_or :
    (p : Text)
    → is_empty (trim_space (if is_empty (trim_space p) then codes "goencode.db" else p)) ≡ false
unfolding trim_space
path_or p = elim (Bool-cases (is_empty (trim_space p))) [
  | inl y ↦ rw y refl
  | inr n ↦ rw (n, n) refl
]

connection_defaults-IsNamed :
    (c : DatabaseConfig) → is_empty c.driver ≡ false → IsNamed (connection_defaults c)
unfolding connection_defaults is_sqlite
connection_defaults-IsNamed c h = elim (Bool-cases (text_eq c.driver (codes "sqlite"))) [
  | inl y ↦ rw y (h, ((λ _. path_or c.path), λ n. cc))
  | inr n ↦ rw n (h, ((λ y. cc), λ _. port_or c.port (pos 3306) refl))
]

min_free_bound : (n : ℤ) → pos 1 ≤ℤ (if leb_ℤ n (pos 0) then pos 5 else n)
min_free_bound (pos n) = ground arith
min_free_bound (negsuc n) = ground arith

set_defaults-IsValid : (c : Config) → IsValid (set_defaults c)
unfolding set_defaults server_defaults database_defaults encoder_defaults downloader_defaults
set_defaults-IsValid c = record {
  port = port_or c.server.port (pos 8080) refl;
  listen_addr = text_or_filled c.server.listen_addr (codes "0.0.0.0") refl;
  database =
      connection_defaults-IsNamed _
        (default_driver_filled (normalize_db_driver c.database.driver) c.database.host);
  temp_dir = text_or_filled c.encoder.temp_dir (codes "/tmp/goencode") refl;
  workers = clamp_workers_bounds c.encoder.workers;
  threads = clamp_threads_bounds c.encoder.threads;
  min_free = min_free_bound c.encoder.min_free_gb;
  ytdlp_path = text_or_filled c.downloader.ytdlp_path (codes "yt-dlp") refl;
  downloads = clamp_workers_bounds c.downloader.workers;
}

set_time_zone-IsValid :
    (getenv : Getenv) (c : Config) → IsValid c → IsValid (set_time_zone getenv c)
unfolding set_time_zone
set_time_zone-IsValid getenv c h = record {
  port = h.port;
  listen_addr = h.listen_addr;
  database = h.database;
  temp_dir = h.temp_dir;
  workers = h.workers;
  threads = h.threads;
  min_free = h.min_free;
  ytdlp_path = h.ytdlp_path;
  downloads = h.downloads;
}

-- Loading fails where the file was read and is not parsed, and only there. Otherwise it gives a
-- configuration with a server port other than zero, an address, a temporary directory, a path of
-- yt-dlp and a driver that are not empty, a database path that is not blank where the driver is
-- sqlite and a database port other than zero where it is not, 1 to 16 workers of either kind, 0 to
-- 256 threads, and at least one gigabyte to be kept free.
pub load_config-IsValid :
    (unmarshal : Text → Option Config) (getenv : Getenv) (file : Option Text)
    → ((t : Text) × (file ≡ some t)
        × (unmarshal t ≡ none)
        × (load_config unmarshal getenv file ≡ none))
      ⊎ ((c : Config) × (load_config unmarshal getenv file ≡ some c) × IsValid c)
unfolding load_config parse_file complete
load_config-IsValid unmarshal getenv none =
    inr (_, refl, set_time_zone-IsValid getenv _ (set_defaults-IsValid _))
load_config-IsValid unmarshal getenv (some t) = elim (Option-cases (unmarshal t)) [
  | inl e ↦ inl (t, refl, e, rw e refl)
  | inr (c, e) ↦
      inr (_, ap (complete getenv) e, set_time_zone-IsValid getenv _ (set_defaults-IsValid _))
]
