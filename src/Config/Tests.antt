-- ===== src/Config/Tests.antt =====
-- A file that asks for 99 workers on port 0, and an environment that names another address.
use goencode.Prelude.{◌≡◌, refl, [], Text, codes, text_eq, if◌then◌else◌, Option, none, some, ◌⊎◌}
use goencode.Prelude.Int.{ℤ, pos}
use goencode.Config.{Getenv, Config}
use goencode.Config.Load.{empty_config, load_config}
use goencode.Config.Valid.{IsValid, load_config-IsValid}

abbrev greedy : Config
greedy = record empty_config { encoder = record empty_config.encoder { workers = pos 99 } }

abbrev unmarshal : Text → Option Config
unmarshal text = if text_eq text (codes "workers: 99") then some greedy else none

abbrev getenv : Getenv
getenv key = if text_eq key (codes "GOENCODE_SERVER_LISTEN") then codes "127.0.0.1" else []

abbrev loaded : Option Config
loaded = load_config unmarshal getenv (some (codes "workers: 99"))

load_config-IsValid_example :
    ((t : Text) × (some (codes "workers: 99") ≡ some t) × (unmarshal t ≡ none) × (loaded ≡ none))
    ⊎ ((c : Config) × (loaded ≡ some c) × IsValid c)
load_config-IsValid_example = load_config-IsValid unmarshal getenv (some (codes "workers: 99"))

abbrev summary : Option Config → Text × ℤ × ℤ
summary none = ([], pos 0, pos 0)
summary (some c) = (c.server.listen_addr, c.server.port, c.encoder.workers)

in_summary : summary loaded ≡ (codes "127.0.0.1", pos 8080, pos 16)
unfolding load_config goencode.Config.Load.complete goencode.Config.Load.parse_file text_eq
    goencode.Config.Load.set_time_zone goencode.Config.Load.set_defaults
    goencode.Config.Load.server_defaults goencode.Config.Load.encoder_defaults
    goencode.Config.Load.text_or goencode.Config.Load.override goencode.Config.clamp_workers
    goencode.Config.Load.server_env goencode.Config.Load.encoder_env
    goencode.Config.get_env_str_first goencode.Config.get_env_int_first goencode.Config.get_env_int
in_summary = refl
