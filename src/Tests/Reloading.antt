-- ===== src/Tests/Reloading.antt =====
-- cmd/chn-resolver/main.go with one upstream, and two reloads of which the second fails.
use chn_resolver_go.Prelude.{◌≡◌, true, false, List, [], ◌∷◌, Option, none, some}
use chn_resolver_go.Prelude.Int.{pos}
use chn_resolver_go.Net.{v4}
use chn_resolver_go.China.{build}
use chn_resolver_go.Overrides.{OverrideSet}
use chn_resolver_go.Engine.{Assets}
use chn_resolver_go.Cache.{Key}
use chn_resolver_go.Cache.Index.{find_key}
use chn_resolver_go.Cache.Invariant.{IsValid}
use chn_resolver_go.Config.{auto, china, foreign}
use chn_resolver_go.Config
use chn_resolver_go.Startup.{Running, handle_reloads}
use chn_resolver_go.Startup.Reloads.{last_loaded, any_loaded, handle_reloads-last}
use chn_resolver_go.Tests.Caching.{full, full-IsValid}
use chn_resolver_go.Tests.Lists.{prefixes}

abbrev pub overrides : OverrideSet
overrides = record { exact = []; wildcard = [] }

abbrev pub assets : Assets
assets = record { china = build prefixes; overrides = overrides }

abbrev running : Running
running = record {
  engine = record {
    upstreams = [];
    attempt_timeout = pos 1;
    max_hops = pos 10;
    udp_size = 1232;
    assets = record { china = build []; overrides = overrides };
  };
  cache = full;
}

abbrev loads : List (Option Assets)
loads = some assets ∷ none ∷ []

handle_reloads-last_example :
    IsValid (handle_reloads running loads).cache
    × ((handle_reloads running loads).engine.assets ≡ last_loaded running.engine.assets loads)
    × (any_loaded loads ≡ true
        → (k : Key) → find_key k (handle_reloads running loads).cache.ll ≡ none)
    × (any_loaded loads ≡ false → (handle_reloads running loads).cache ≡ full)
handle_reloads-last_example = handle_reloads-last running loads full-IsValid

abbrev server : Config.Upstream
server = record { addr = v4 0x010002ff; zone = []; port = pos 53; role = auto }
