-- ===== src/Startup/Wiring.antt =====
-- `main` of cmd/chn-resolver/main.go: how the configuration reaches the engine, the cache and the
-- service, and where it is loaded from.
use chn_resolver_go.Prelude.{ℕ, Bool, List, [], ◌∷◌, Option, if◌then◌else◌, is_empty}
use chn_resolver_go.Prelude.Int.{ℤ, pos, negsuc, quotient, wrap}
use chn_resolver_go.Prelude.Result.{Result, err}
use chn_resolver_go.Text.{Text, codes, eq_text}
use chn_resolver_go.Config.{Raw, Config, second}
use chn_resolver_go.Config.Build.{Error, bad_file, load}
use chn_resolver_go.Engine.{Assets, Upstream, Engine}
use chn_resolver_go.Engine
use chn_resolver_go.Cache.{Cache}
use chn_resolver_go.Cache
use chn_resolver_go.Service.{Service}
use chn_resolver_go.Startup.{classify_upstreams, Running}

-- `defaultConfigPath` and `localConfigPath`
abbrev pub config_paths : List Text
config_paths = codes "/etc/chn-resolver/chn-resolver.toml" ∷ codes "chn-resolver.toml" ∷ []

-- The loop of `loadConfig`, over whether `os.Stat` finds a path.
unfoldable pub load_first : (Text → Bool) → (Text → Option Raw) → List Text → Result Error Config
load_first exists decode_file [] = err bad_file
load_first exists decode_file (p ∷ ps) =
    if exists p then load decode_file p else load_first exists decode_file ps

-- `loadConfig`
unfoldable pub load_config : (Text → Bool) → (Text → Option Raw) → Text → Result Error Config
load_config exists decode_file path =
    if is_empty path then load_first exists decode_file config_paths else load decode_file path

-- The levels of `log/slog`.
pub data Level : Type 0 where
  debug info warn error : Level

-- The switch of `newLogger`.
unfoldable pub level_of : Text → Level
level_of s =
    if eq_text s (codes "debug")
    then debug
    else if eq_text s (codes "warn")
    then warn
    else if eq_text s (codes "error")
    then error
    else info

-- `uint32(d / time.Second)`
abbrev pub whole_seconds : ℤ → ℕ
whole_seconds d = wrap 32 (quotient d second)

-- The service that `main` makes.
unfoldable pub service_of : Config → Service
service_of c = record {
  cache_on = c.cache_enabled;
  min_ttl = whole_seconds c.min_ttl;
  max_ttl = whole_seconds c.max_ttl;
  neg_min_ttl = whole_seconds c.neg_min_ttl;
  neg_max_ttl = whole_seconds c.neg_max_ttl;
}

-- The engine that `main` makes.
unfoldable pub engine_of : Config → Assets → Engine
engine_of c assets =
    Engine.new assets (classify_upstreams assets c.upstreams) c.attempt_timeout c.max_cname_hops
      (wrap 16 c.udp_payload_size)

-- A capacity that is not negative, as a number.
abbrev pub capacity : ℤ → ℕ
capacity (pos n) = n
capacity (negsuc n) = 0

-- What the reloads then work on.
unfoldable pub start : Config → Assets → Running
start c assets = record { engine = engine_of c assets; cache = Cache.new (capacity c.max_entries) }
