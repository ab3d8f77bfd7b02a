-- ===== src/Startup/Main.antt =====
-- `main` of cmd/chn-resolver/main.go up to the end of `ListenAndServe`, with `overrides.Load`; and the
-- listeners that `ListenAndServe` of internal/server/server.go opens. What the system finds, decodes and
-- opens is a parameter.
use mathlib.Core.Option
use chn_resolver_go.Prelude.{
  Bool, true, false, not, List, [], Option, none, some, if◌then◌else◌, is_empty,
}
use chn_resolver_go.Prelude.Int.{ℤ, pos, ltz}
use chn_resolver_go.Prelude.Result.{Result, ok, err, ◌>>=◌, or_fail}
use chn_resolver_go.Text.{Text}
use chn_resolver_go.Config.{Raw, Config}
use chn_resolver_go.Config.Build
use chn_resolver_go.China.Loader
use chn_resolver_go.Overrides
use chn_resolver_go.Overrides.{OverrideSet}
use chn_resolver_go.Engine.{Assets, Upstream}
use chn_resolver_go.Service.{Service}
use chn_resolver_go.Startup.{classify_upstreams, Running}
use chn_resolver_go.Startup.Wiring.{load_config, service_of, start}

-- Files, and the sockets of an address: the address that a socket is bound to, `none` for an error.
pub record System : Type 0 where
  pub exists : Text → Bool
  pub decode_file : Text → Option Raw
  pub open_file : Text → Option (List Text × Bool)
  pub address : Text → ℤ → Text
  pub listen_udp : Text → Option Text
  pub listen_tcp : Text → Option Text

pub data Fault : Type 0 where
  bad_config : Build.Error → Fault
  bad_prefixes : Loader.Error → Fault
  bad_overrides no_listener : Fault

-- `overrides.Load`
unfoldable pub load_overrides : (Text → Option (List Text × Bool)) → Text → Option OverrideSet
load_overrides open_file path =
    Option.bind (open_file path) (λ (lines, failed). Overrides.load_from lines failed)

unfoldable pub lift {ℓ} : {E F A : Type ℓ} → (E → F) → Result E A → Result F A
lift f (err e) = err (f e)
lift f (ok a) = ok a

-- `loadAssets`
unfoldable pub load_files : System → Config → Result Fault Assets
load_files sys c = do
  index ← lift bad_prefixes (Loader.load sys.open_file c.prefix_files)
  set ←
      if not (is_empty c.overrides_file)
      then or_fail (load_overrides sys.open_file c.overrides_file) bad_overrides
      else ok (Overrides.new [] [])
  ok (record { china = index; overrides = set })

-- The sockets that are open, and the address that `ready` gets.
pub record Opened : Type 0 where
  pub udp : Option Text
  pub tcp : Option Text
  pub bound : Option Text

abbrev pub nothing_open : Opened
nothing_open = record { udp = none; tcp = none; bound = none }

-- The listener for TCP, with the socket for UDP already open or not wanted; it is closed on an error.
unfoldable pub open_tcp : System → Config → Text → Option Text → Opened × Bool
open_tcp sys c addr udp =
    if c.tcp
    then elim (sys.listen_tcp (Option.get_or udp addr)) [
      | none ↦ (nothing_open, false)
      | some tcp ↦ (record { udp = udp; tcp = some tcp; bound = some tcp }, true)
    ]
    else (record { udp = udp; tcp = none; bound = udp }, true)

-- The start of `ListenAndServe`: what is open, and whether it goes on.
unfoldable pub open_listeners : System → Config → Text → Opened × Bool
open_listeners sys c addr =
    if c.udp
    then elim (sys.listen_udp addr) [
      | none ↦ (nothing_open, false)
      | some udp ↦ open_tcp sys c addr (some udp)
    ]
    else open_tcp sys c addr none

-- What serves, and how `main` ends.
pub record Process : Type 0 where
  pub config : Config
  pub assets : Assets
  pub running : Running
  pub service : Service
  pub opened : Opened

pub data Exit : Type 0 where
  version_printed : Exit
  summary_printed : Config → Assets → List Upstream → Exit
  serves : Process → Exit
  janitor_panics : Exit
  fatal : Fault → Exit

-- `RunJanitor` gets past `time.NewTicker`, which panics for an interval that is not positive.
unfoldable pub has_janitor : Config → Bool
has_janitor c = ltz (pos 0) c.sweep_interval

-- `main` behind the flags, without `-check`. The janitor is a goroutine of its own, whose panic ends the
-- process; if a listener fails as well, either of the two ends it.
unfoldable pub serve : System → Config → Assets → Exit
serve sys c assets =
    let (opened, up) = open_listeners sys c (sys.address c.bind c.port) in
    if not up
    then fatal no_listener
    else if not (has_janitor c)
    then janitor_panics
    else serves (record {
      config = c;
      assets = assets;
      running = start c assets;
      service = service_of c;
      opened = opened;
    })

unfoldable pub after_assets : System → Bool → Config → Exit
after_assets sys check c = elim (load_files sys c) [
  | err e ↦ fatal e
  | ok assets ↦
      if check
      then summary_printed c assets (classify_upstreams assets c.upstreams)
      else serve sys c assets
]

unfoldable pub main : System → Text → Bool → Bool → Exit
main sys path check version =
    if version then version_printed else elim (load_config sys.exists sys.decode_file path) [
      | err e ↦ fatal (bad_config e)
      | ok c ↦ after_assets sys check c
    ]
