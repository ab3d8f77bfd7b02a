-- ===== src/Startup.antt =====
-- cmd/chn-resolver/main.go: the assets, the class of each upstream, and the reloads. The files that are
-- loaded are what the loaders return; an error is `none`.
pub mod Reloads
pub mod Wiring
pub mod Started
pub mod Main
pub mod Serves
pub mod Checks
use chn_resolver_go.Prelude.{
  ℕ, ◌%◌, ◌^◌, Bool, true, false, not, List, [], ◌∷◌, map, Option, none, some, if◌then◌else◌,
  is_empty,
}
use chn_resolver_go.Prelude.Int.{wrap}
use chn_resolver_go.Config.{auto, china, foreign}
use chn_resolver_go.Config
use chn_resolver_go.Text.{Text}
use chn_resolver_go.China.{Index}
use chn_resolver_go.Overrides.{OverrideSet}
use chn_resolver_go.Overrides
use chn_resolver_go.Engine.{Assets, Upstream, Engine, update_assets, is_china}
use chn_resolver_go.Cache.{Cache, flush}

-- `loadAssets`, by what `china.Load` and `overrides.Load` return.
unfoldable pub load_assets : Option Index → Text → Option OverrideSet → Option Assets
load_assets none file set = none
load_assets (some index) file set =
    if not (is_empty file)
    then elim set [ none ↦ none | some s ↦ some (record { china = index; overrides = s }) ]
    else some (record { china = index; overrides = Overrides.new [] [] })

-- The body of the loop of `classifyUpstreams`, for an address without a zone.
unfoldable pub classify : Assets → Config.Upstream → Upstream
classify assets u = record {
  addr = u.addr;
  port = wrap 16 u.port;
  in_china = elim u.role [ auto ↦ is_china assets u.addr | china ↦ true | foreign ↦ false ];
}

-- `classifyUpstreams`
unfoldable pub classify_upstreams : Assets → List Config.Upstream → List Upstream
classify_upstreams assets servers = map (classify assets) servers

-- What a reload changes: the assets of the engine, and the cache.
pub record Running : Type 0 where
  pub engine : Engine
  pub cache : Cache

-- One round of `handleReloads`.
unfoldable pub reload : Running → Option Assets → Running
reload r none = r
reload r (some assets) = record { engine = update_assets r.engine assets; cache = flush r.cache }

-- `handleReloads`, over what each signal loads.
unfoldable pub handle_reloads : Running → List (Option Assets) → Running
handle_reloads r [] = r
handle_reloads r (loaded ∷ rest) = handle_reloads (reload r loaded) rest
