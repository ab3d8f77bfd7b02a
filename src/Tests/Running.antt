-- ===== src/Tests/Running.antt =====
-- A whole start on a small system: its configuration, one prefix file, and a socket for UDP.
use chn_resolver_go.Prelude.{◌≡◌, refl, true, false, [], none, some, if◌then◌else◌}
use chn_resolver_go.Prelude.Result.{ok}
use chn_resolver_go.Text.{Text, Text-discrete, codes}
use chn_resolver_go.Text.Numbers.{span, digits_value}
use chn_resolver_go.Prelude.{elem, ℕ_discrete}
use chn_resolver_go.Prelude.Int.{pos, ltz}
use chn_resolver_go.Config.Duration.{unit_of, element, elements, unsigned, parse_duration}
use chn_resolver_go.Config.Build.{load, from_bytes}
use chn_resolver_go.Config.{defaults}
use chn_resolver_go.Startup.{classify_upstreams}
use chn_resolver_go.Startup.Main.{summary_printed, janitor_panics, has_janitor}
use chn_resolver_go.Engine.{Assets}
use chn_resolver_go.Overrides
use chn_resolver_go.Startup.Wiring.{load_config, service_of, start}
use chn_resolver_go.Startup.Main.{
  System, Process, serves, load_files, lift, open_listeners, open_tcp, serve, after_assets, main,
}
use chn_resolver_go.Startup.Serves.{IsServing, main-IsServing}
use chn_resolver_go.Startup.Checks.{with_file, main-check_panics}
use chn_resolver_go.Config.Sweep.{with_interval}
use chn_resolver_go.Tests.Configuring.{raw, config, builds}
use chn_resolver_go.Tests.Loading.{open_file, index_of_file, loads}

abbrev sys : System
sys = record {
  exists = λ path. false;
  decode_file = λ path. some raw;
  open_file = open_file;
  address = λ bind port. codes "127.0.0.1:8053";
  listen_udp = λ addr. some addr;
  listen_tcp = λ addr. none;
}

abbrev path : Text
path = codes "chn.toml"

abbrev assets : Assets
assets = record { china = index_of_file; overrides = Overrides.new [] [] }

abbrev process : Process
process = record {
  config = config;
  assets = assets;
  running = start config assets;
  service = service_of config;
  opened = record {
    udp = some (codes "127.0.0.1:8053");
    tcp = none;
    bound = some (codes "127.0.0.1:8053");
  };
}

reads : load_config sys.exists sys.decode_file path ≡ ok config
unfolding load_config load from_bytes
reads = builds

assets_load : load_files sys config ≡ ok assets
unfolding load_files lift defaults
assets_load = rw loads refl

serves_process : main sys path false false ≡ serves process
unfolding main after_assets serve has_janitor open_listeners open_tcp defaults ltz
serves_process = rw (reads, assets_load, after_assets) refl

main-IsServing_example : IsServing sys path process
main-IsServing_example = main-IsServing sys path false false process serves_process

still_parses : parse_duration (codes "0s") ≡ some (pos 0)
unfolding parse_duration unsigned elements element unit_of span digits_value elem ℕ_discrete
    Text-discrete
still_parses = refl

-- The same file with a sweep interval of "0s".
main-check_panics_example :
    (main (with_file (codes "0s") sys) path true false
      ≡ summary_printed
          (with_interval (pos 0) config)
          assets
          (classify_upstreams assets config.upstreams))
    × (main (with_file (codes "0s") sys) path false false ≡ (
        if ltz (pos 0) (pos 0)
        then serves (record process { config = with_interval (pos 0) config })
        else janitor_panics))
main-check_panics_example =
    main-check_panics sys path (codes "0s") (pos 0) process serves_process refl still_parses
