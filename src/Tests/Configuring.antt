-- ===== src/Tests/Configuring.antt =====
-- internal/config/config.go on a small file, and what cmd/chn-resolver/main.go starts from it.
use chn_resolver_go.Prelude.{
  ◌*◌, ◌≡◌, refl, true, false, [], ◌∷◌, none, some, is_empty, elem, ℕ_discrete, ◌⊎◌,
}
use chn_resolver_go.Prelude.Int.{pos, negsuc, ltz, quotient, wrap}
use chn_resolver_go.Prelude.Result.{ok, err}
use chn_resolver_go.Text.{Text-discrete, codes}
use chn_resolver_go.Text.Numbers.{span, split_all, digits_value, parse_uint, parse_canonical}
use chn_resolver_go.Net.{Addr-discrete, v4}
use chn_resolver_go.Net.Parse.{octets, parse_v4, dispatch, parse_addr}
use chn_resolver_go.Policy.{prefer_china}
use chn_resolver_go.Engine
use chn_resolver_go.Engine.{Assets}
use chn_resolver_go.Service.{Service, resolve, from_engine}
use chn_resolver_go.Config.{Raw, auto, china, Config, second, defaults}
use chn_resolver_go.Config.Duration.{unit_of, element, elements, unsigned, parse_duration}
use chn_resolver_go.Config.Build.{
  build, set_listen, set_upstreams, set_china, set_timeouts, set_ttls, set_cache, set_forward,
  set_log, set_metrics, bounded, positive, duration, choice, parse_role, parse_upstream,
  parse_upstreams, Host-discrete, find_duplicate, check_duplicates, low_entries, duplicate,
}
use chn_resolver_go.Config.Valid.{IsValid, IsFrom, build-IsValid}
use chn_resolver_go.Startup.Wiring.{service_of}
use chn_resolver_go.Startup.Started.{AreShort, Lasts, build-Lasts}

-- Two upstreams, one prefix file, and a lower TTL of 10 seconds.
abbrev pub raw : Raw
raw = record {
  bind = [];
  port = pos 0;
  udp = none;
  tcp = some false;
  tcp_idle_timeout = [];
  max_concurrency = pos 0;
  upstreams =
      record { addr = codes "1.2.3.4"; port = pos 0; role = codes "china" }
      ∷ record { addr = codes "8.8.8.8"; port = pos 5353; role = [] }
      ∷ [];
  china = record { prefix_files = codes "cn.txt" ∷ []; overrides_file = [] };
  resolve = record {
    overall_timeout = [];
    attempt_timeout = codes "1s";
    max_cname_hops = pos 0;
    udp_payload_size = pos 0;
    min_ttl = codes "10s";
    max_ttl = [];
    neg_min_ttl = [];
    neg_max_ttl = [];
  };
  cache = record { enabled = none; max_entries = pos 0; sweep_interval = [] };
  forward_timeout = [];
  log_level = codes "warn";
  log_format = [];
  metrics_listen = [];
}

abbrev pub config : Config
config = record defaults {
  tcp = false;
  upstreams =
      record { addr = v4 0x01020304; zone = []; port = pos 53; role = china }
      ∷ record { addr = v4 0x08080808; zone = []; port = pos 5353; role = auto }
      ∷ [];
  prefix_files = codes "cn.txt" ∷ [];
  attempt_timeout = pos second;
  min_ttl = pos (10 * second);
  log_level = codes "warn";
}

pub builds : build raw ≡ ok config
unfolding build set_listen set_upstreams set_china set_timeouts set_ttls set_cache set_forward
    set_log set_metrics bounded positive duration choice parse_role parse_upstream parse_upstreams
    Host-discrete find_duplicate check_duplicates defaults ltz parse_addr dispatch parse_v4 octets
    split_all digits_value parse_uint parse_canonical parse_duration unsigned elements element
    unit_of span elem Text-discrete Addr-discrete ℕ_discrete
builds = refl

-- The same file with one entry twice, and with a negative capacity.
refused :
    (build (record raw {
      upstreams =
          record { addr = codes "1.2.3.4"; port = pos 0; role = [] }
          ∷ record { addr = codes "1.2.3.4"; port = pos 54; role = [] }
          ∷ [];
    })
      ≡ err (duplicate (v4 0x01020304) []))
    × (build (record raw {
      cache = record { enabled = none; max_entries = negsuc 0; sweep_interval = [] };
    })
        ≡ err low_entries)
unfolding build set_listen set_upstreams set_china set_timeouts set_ttls set_cache set_forward
    set_log set_metrics bounded positive duration choice parse_role parse_upstream parse_upstreams
    Host-discrete find_duplicate check_duplicates defaults ltz parse_addr dispatch parse_v4 octets
    split_all digits_value parse_uint parse_canonical parse_duration unsigned elements element
    unit_of span elem Text-discrete Addr-discrete ℕ_discrete
refused = (refl, refl)

abbrev negative : Config
negative = record config { min_ttl = negsuc 4_999_999_999 }

-- A lower TTL of "-5s" is accepted, and its conversion to uint32 is above the upper TTL.
negative_run :
    (build (record raw { resolve = record raw.resolve { min_ttl = codes "-5s" } }) ≡ ok negative)
    × (Service.min_ttl (service_of negative) ≡ 4_294_967_291)
    × (Service.max_ttl (service_of negative) ≡ 3600)
unfolding build set_listen set_upstreams set_china set_timeouts set_ttls set_cache set_forward
    set_log set_metrics bounded positive duration choice parse_role parse_upstream parse_upstreams
    Host-discrete find_duplicate check_duplicates defaults ltz parse_addr dispatch parse_v4 octets
    split_all digits_value parse_uint parse_canonical parse_duration unsigned elements element
    unit_of span elem Text-discrete Addr-discrete ℕ_discrete service_of wrap quotient
negative_run = (refl, refl, refl)

build-IsValid_example : IsValid config × IsFrom raw config
build-IsValid_example = build-IsValid raw builds

short : AreShort config
unfolding defaults ltz
short = record {
  min_short = (refl, refl);
  max_short = (refl, refl);
  neg_min_short = (refl, refl);
  neg_max_short = (refl, refl);
}

-- A complete answer with an address, of TTL 5.
abbrev answer : Engine.Result
answer = record {
  policy = prefer_china;
  addrs = v4 7 ∷ [];
  rcode = 0;
  soa = none;
  ttl = 5;
  complete = true;
  reports = [];
}

cacheable : (resolve (service_of config) answer).1 ≡ true
unfolding resolve from_engine
cacheable = refl

build-Lasts_example :
    ((is_empty answer.addrs ≡ false)
      × Lasts config.min_ttl config.max_ttl (resolve (service_of config) answer).0)
    ⊎ ((is_empty answer.addrs ≡ true)
        × Lasts config.neg_min_ttl config.neg_max_ttl (resolve (service_of config) answer).0)
build-Lasts_example = build-Lasts raw answer builds short cacheable
