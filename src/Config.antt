-- ===== src/Config.antt =====
-- internal/config/config.go: the shape of the file, the configuration, and the defaults. A missing value
-- of the file is what TOML leaves in the Go struct: 0, the empty text, a nil pointer (`none`).
pub mod Duration
pub mod Build
pub mod Steps
pub mod Valid
pub mod Sweep
use chn_resolver_go.Prelude.{ℕ, ◌*◌, Bool, true, List, [], Option}
use chn_resolver_go.Prelude.Int.{ℤ, pos}
use chn_resolver_go.Net.{Addr}
use chn_resolver_go.Text.{Text, codes}

-- `rawUpstream`
pub record RawUpstream : Type 0 where
  pub addr : Text
  pub port : ℤ
  pub role : Text

-- `rawChina`
pub record RawChina : Type 0 where
  pub prefix_files : List Text
  pub overrides_file : Text

-- `rawResolve`
pub record RawResolve : Type 0 where
  pub overall_timeout : Text
  pub attempt_timeout : Text
  pub max_cname_hops : ℤ
  pub udp_payload_size : ℤ
  pub min_ttl : Text
  pub max_ttl : Text
  pub neg_min_ttl : Text
  pub neg_max_ttl : Text

-- `rawCache`
pub record RawCache : Type 0 where
  pub enabled : Option Bool
  pub max_entries : ℤ
  pub sweep_interval : Text

-- `raw`; the tables `forward`, `log` and `metrics` have their fields here.
pub record Raw : Type 0 where
  pub bind : Text
  pub port : ℤ
  pub udp : Option Bool
  pub tcp : Option Bool
  pub tcp_idle_timeout : Text
  pub max_concurrency : ℤ
  pub upstreams : List RawUpstream
  pub china : RawChina
  pub resolve : RawResolve
  pub cache : RawCache
  pub forward_timeout : Text
  pub log_level : Text
  pub log_format : Text
  pub metrics_listen : Text

pub data Role : Type 0 where
  auto china foreign : Role

-- The zone of the address stands beside it.
pub record Upstream : Type 0 where
  pub addr : Addr
  pub zone : Text
  pub port : ℤ
  pub role : Role

-- Durations are nanoseconds.
pub record Config : Type 0 where
  pub bind : Text
  pub port : ℤ
  pub udp : Bool
  pub tcp : Bool
  pub tcp_idle_timeout : ℤ
  pub max_concurrency : ℤ
  pub upstreams : List Upstream
  pub prefix_files : List Text
  pub overrides_file : Text
  pub overall_timeout : ℤ
  pub attempt_timeout : ℤ
  pub max_cname_hops : ℤ
  pub udp_payload_size : ℤ
  pub min_ttl : ℤ
  pub max_ttl : ℤ
  pub neg_min_ttl : ℤ
  pub neg_max_ttl : ℤ
  pub cache_enabled : Bool
  pub max_entries : ℤ
  pub sweep_interval : ℤ
  pub forward_timeout : ℤ
  pub log_level : Text
  pub log_format : Text
  pub metrics_listen : Text

-- `time.Second` and `time.Millisecond`
abbrev pub millisecond : ℕ
millisecond = 1_000_000

abbrev pub second : ℕ
second = 1_000_000_000

-- `Defaults`
unfoldable pub defaults : Config
defaults = record {
  bind = codes "127.0.0.1";
  port = pos 8053;
  udp = true;
  tcp = true;
  tcp_idle_timeout = pos (30 * second);
  max_concurrency = pos 512;
  upstreams = [];
  prefix_files = [];
  overrides_file = [];
  overall_timeout = pos (2500 * millisecond);
  attempt_timeout = pos (1500 * millisecond);
  max_cname_hops = pos 10;
  udp_payload_size = pos 1232;
  min_ttl = pos (30 * second);
  max_ttl = pos (3600 * second);
  neg_min_ttl = pos (60 * second);
  neg_max_ttl = pos (600 * second);
  cache_enabled = true;
  max_entries = pos 65536;
  sweep_interval = pos (30 * second);
  forward_timeout = pos (2500 * millisecond);
  log_level = codes "info";
  log_format = codes "text";
  metrics_listen = [];
}
