-- ===== src/Config/Build.antt =====
-- `build` of internal/config/config.go: each group of checks is a step on the configuration so far, and
-- the steps run in the order of the code. An error is a value with what its message prints.
use mathlib.Core.Option
use chn_resolver_go.Prelude.{
  ℕ, suc, Bool, true, false, not, ◌&&◌, ◌||◌, List, [], ◌∷◌, Option, none, some, if◌then◌else◌,
  is_empty, elem, ℕ_discrete,
}
use chn_resolver_go.Prelude.Int.{ℤ, pos, ltz}
use chn_resolver_go.Prelude.Result.{Result, ok, err, ◌>>=◌, ◌>>◌, fail_if, or_fail}
use chn_resolver_go.Net.{Addr}
use chn_resolver_go.Net.Parse.{parse_addr, is_addr_port}
use chn_resolver_go.Text.{Text, codes, eq_text}
use chn_resolver_go.Config.{
  RawUpstream, Raw, Role, auto, china, foreign, Upstream, Config, defaults,
}
use chn_resolver_go.Config.Duration.{parse_duration}

pub data DurationField : Type 0 where
  tcp_idle overall attempt min_ttl max_ttl neg_min_ttl neg_max_ttl sweep forward : DurationField

pub data Error : Type 0 where
  bad_file no_transport low_concurrency no_upstream no_prefix_file : Error
  bad_hops bad_payload_size min_over_max neg_min_over_max low_entries : Error
  bad_port : ℤ → Error
  bad_duration : DurationField → Error
  bad_addr : ℕ → Text → Error
  bad_upstream_port : ℕ → ℤ → Error
  bad_role : ℕ → Text → Error
  duplicate : Addr → Text → Error
  attempt_over_overall : ℤ → ℤ → Error
  bad_level bad_format bad_listen : Text → Error

-- `if s != "" { c.F, err = time.ParseDuration(s) }`
unfoldable pub duration : DurationField → Text → ℤ → Result Error ℤ
duration field s old =
    if is_empty s then ok old else or_fail (parse_duration s) (bad_duration field)

abbrev pub is_zero : ℤ → Bool
is_zero z = not (ltz z (pos 0) || ltz (pos 0) z)

-- `if v != 0 { if v < lo || v > hi { return nil, e }; c.F = v }`
unfoldable pub bounded : ℕ → ℕ → Error → ℤ → ℤ → Result Error ℤ
bounded lo hi e v old =
    if is_zero v then ok old else if ltz v (pos lo) || ltz (pos hi) v then err e else ok v

-- `if v != 0 { if v < 1 { return nil, e }; c.F = v }`
unfoldable pub positive : Error → ℤ → ℤ → Result Error ℤ
positive e v old = if is_zero v then ok old else if ltz v (pos 1) then err e else ok v

-- The settings of the listeners.
unfoldable pub set_listen : Raw → Config → Result Error Config
set_listen r c = do
  port ← bounded 1 65535 (bad_port r.port) r.port c.port
  let udp : Bool = Option.get_or r.udp c.udp
  let tcp : Bool = Option.get_or r.tcp c.tcp
  fail_if (not udp && not tcp) no_transport
  idle ← duration tcp_idle r.tcp_idle_timeout c.tcp_idle_timeout
  concurrency ← positive low_concurrency r.max_concurrency c.max_concurrency
  ok (record c {
    bind = if is_empty r.bind then c.bind else r.bind;
    port = port;
    udp = udp;
    tcp = tcp;
    tcp_idle_timeout = idle;
    max_concurrency = concurrency;
  })

-- The switch over the role of upstream `i`.
unfoldable pub parse_role : ℕ → Text → Result Error Role
parse_role i s =
    if is_empty s || eq_text s (codes "auto")
    then ok auto
    else if eq_text s (codes "china")
    then ok china
    else if eq_text s (codes "foreign")
    then ok foreign
    else err (bad_role i s)

-- The body of the loop over the upstreams.
unfoldable pub parse_upstream : ℕ → RawUpstream → Result Error Upstream
parse_upstream i u = do
  host ← or_fail (parse_addr u.addr) (bad_addr i u.addr)
  port ← bounded 1 65535 (bad_upstream_port i u.port) u.port (pos 53)
  role ← parse_role i u.role
  ok (record { addr = host.0; zone = host.1; port = port; role = role })

-- The loop, from upstream `i` on.
unfoldable pub parse_upstreams : ℕ → List RawUpstream → Result Error (List Upstream)
parse_upstreams i [] = ok []
parse_upstreams i (u ∷ us) = do
  up ← parse_upstream i u
  ups ← parse_upstreams (suc i) us
  ok (up ∷ ups)

-- A `netip.Addr` as the key of a map.
abbrev pub host : Upstream → Addr × Text
host u = (u.addr, u.zone)

unfoldable pub Host-discrete : Discrete (Addr × Text)
unfolding chn_resolver_go.Net.Addr-discrete chn_resolver_go.Text.Text-discrete ℕ_discrete
Host-discrete = hlevel ℕ_discrete

-- The loop that looks for a duplicate, with the set of the addresses seen.
unfoldable pub find_duplicate : List (Addr × Text) → List Upstream → Option (Addr × Text)
find_duplicate seen [] = none
find_duplicate seen (u ∷ us) = elim (elem Host-discrete (host u) seen) [
  | true ↦ some (host u)
  | false ↦ find_duplicate (host u ∷ seen) us
]

unfoldable pub check_duplicates : List Upstream → Result Error (Unit {0})
check_duplicates us = elim (find_duplicate [] us) [
  | none ↦ ok tt
  | some (addr, zone) ↦ err (duplicate addr zone)
]

unfoldable pub set_upstreams : Raw → Config → Result Error Config
set_upstreams r c = do
  ups ← parse_upstreams 0 r.upstreams
  fail_if (is_empty ups) no_upstream
  check_duplicates ups
  ok (record c { upstreams = ups })

unfoldable pub set_china : Raw → Config → Result Error Config
set_china r c = do
  fail_if (is_empty r.china.prefix_files) no_prefix_file
  ok (record c { prefix_files = r.china.prefix_files; overrides_file = r.china.overrides_file })

-- The timeouts and the limits of a resolution.
unfoldable pub set_timeouts : Raw → Config → Result Error Config
set_timeouts r c = do
  overall_time ← duration overall r.resolve.overall_timeout c.overall_timeout
  attempt_time ← duration attempt r.resolve.attempt_timeout c.attempt_timeout
  fail_if (ltz overall_time attempt_time) (attempt_over_overall attempt_time overall_time)
  hops ← bounded 1 64 bad_hops r.resolve.max_cname_hops c.max_cname_hops
  size ← bounded 512 4096 bad_payload_size r.resolve.udp_payload_size c.udp_payload_size
  ok (record c {
    overall_timeout = overall_time;
    attempt_timeout = attempt_time;
    max_cname_hops = hops;
    udp_payload_size = size;
  })

unfoldable pub set_ttls : Raw → Config → Result Error Config
set_ttls r c = do
  lo ← duration min_ttl r.resolve.min_ttl c.min_ttl
  hi ← duration max_ttl r.resolve.max_ttl c.max_ttl
  fail_if (ltz hi lo) min_over_max
  neg_lo ← duration neg_min_ttl r.resolve.neg_min_ttl c.neg_min_ttl
  neg_hi ← duration neg_max_ttl r.resolve.neg_max_ttl c.neg_max_ttl
  fail_if (ltz neg_hi neg_lo) neg_min_over_max
  ok (record c { min_ttl = lo; max_ttl = hi; neg_min_ttl = neg_lo; neg_max_ttl = neg_hi })

unfoldable pub set_cache : Raw → Config → Result Error Config
set_cache r c = do
  entries ← positive low_entries r.cache.max_entries c.max_entries
  interval ← duration sweep r.cache.sweep_interval c.sweep_interval
  ok (record c {
    cache_enabled = Option.get_or r.cache.enabled c.cache_enabled;
    max_entries = entries;
    sweep_interval = interval;
  })

unfoldable pub set_forward : Raw → Config → Result Error Config
set_forward r c = do
  time ← duration forward r.forward_timeout c.forward_timeout
  ok (record c { forward_timeout = time })

abbrev pub is_level : Text → Bool
is_level s =
    eq_text s (codes "debug")
    || eq_text s (codes "info")
    || eq_text s (codes "warn")
    || eq_text s (codes "error")

abbrev pub is_format : Text → Bool
is_format s = eq_text s (codes "text") || eq_text s (codes "json")

-- A text that is empty, and leaves the old one, or one of the words that pass the test.
unfoldable pub choice : (Text → Bool) → Error → Text → Text → Result Error Text
choice test e s old = if is_empty s then ok old else if test s then ok s else err e

unfoldable pub set_log : Raw → Config → Result Error Config
set_log r c = do
  level ← choice is_level (bad_level r.log_level) r.log_level c.log_level
  format ← choice is_format (bad_format r.log_format) r.log_format c.log_format
  ok (record c { log_level = level; log_format = format })

unfoldable pub set_metrics : Raw → Config → Result Error Config
set_metrics r c = do
  listen ← choice is_addr_port (bad_listen r.metrics_listen) r.metrics_listen c.metrics_listen
  ok (record c { metrics_listen = listen })

-- `build`
unfoldable pub build : Raw → Result Error Config
build r =
    set_listen r defaults
    >>= set_upstreams r
    >>= set_china r
    >>= set_timeouts r
    >>= set_ttls r
    >>= set_cache r
    >>= set_forward r
    >>= set_log r
    >>= set_metrics r

-- `FromBytes` and `Load`, over what the TOML decoder returns for the bytes or the file.
unfoldable pub from_bytes : Option Raw → Result Error Config
from_bytes decoded = or_fail decoded bad_file >>= build

-- `Load` reads the file at `path`.
unfoldable pub load : (Text → Option Raw) → Text → Result Error Config
load decode_file path = from_bytes (decode_file path)
