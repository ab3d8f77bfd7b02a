-- ===== src/Startup/Reloads.antt =====
-- The reloads of cmd/chn-resolver/main.go, and the classes of the upstreams.
use mathlib.Core.Option
use chn_resolver_go.Prelude.{
  ◌≡◌, refl, ap, Bool, true, false, List, [], ◌∷◌, Option, none, some, any, All,
}
use chn_resolver_go.Net.{Prefix, IsAddr, covers, unmap}
use chn_resolver_go.China.{build}
use chn_resolver_go.China.Lookup.{IsUsable, index_contains-build}
use chn_resolver_go.Overrides.{OverrideSet}
use chn_resolver_go.Engine.{Assets, update_assets, is_china}
use chn_resolver_go.Cache.{Cache, Key, flush}
use chn_resolver_go.Cache.Index.{find_key}
use chn_resolver_go.Cache.Invariant.{IsValid, flush-IsValid}
use chn_resolver_go.Config.{auto, china, foreign}
use chn_resolver_go.Config
use chn_resolver_go.Startup.{classify, Running, reload, handle_reloads}

-- The last assets that were loaded.
unfoldable pub last_loaded : Assets → List (Option Assets) → Assets
last_loaded assets [] = assets
last_loaded assets (none ∷ rest) = last_loaded assets rest
last_loaded assets (some a ∷ rest) = last_loaded a rest

-- Whether some load succeeded.
unfoldable pub any_loaded : List (Option Assets) → Bool
any_loaded [] = false
any_loaded (none ∷ rest) = any_loaded rest
any_loaded (some a ∷ rest) = true

emptied : (c : Cache) (k : Key) → find_key k (flush c).ll ≡ none
unfolding flush find_key
emptied c k = refl

stays_empty :
    (r : Running) (loads : List (Option Assets))
    → ((k : Key) → find_key k r.cache.ll ≡ none)
    → (k : Key) → find_key k (handle_reloads r loads).cache.ll ≡ none
unfolding handle_reloads reload update_assets
stays_empty r [] h = h
stays_empty r (none ∷ loads) h = stays_empty r loads h
stays_empty r (some a ∷ loads) h =
    stays_empty (record { engine = update_assets r.engine a; cache = flush r.cache }) loads
      (emptied r.cache)

-- After any reloads from a valid cache the cache is valid and the assets are the last ones loaded; when
-- some load succeeded, no entry of before is left, and when none did, the cache is as it was.
pub handle_reloads-last :
    (r : Running) (loads : List (Option Assets))
    → IsValid r.cache
    → IsValid (handle_reloads r loads).cache
      × ((handle_reloads r loads).engine.assets ≡ last_loaded r.engine.assets loads)
      × (any_loaded loads ≡ true → (k : Key) → find_key k (handle_reloads r loads).cache.ll ≡ none)
      × (any_loaded loads ≡ false → (handle_reloads r loads).cache ≡ r.cache)
unfolding handle_reloads reload update_assets last_loaded any_loaded
handle_reloads-last r [] v = (v, refl, λ e k. cc, λ e. refl)
handle_reloads-last r (none ∷ loads) v = handle_reloads-last r loads v
handle_reloads-last r (some a ∷ loads) v =
    let next : Running = record { engine = update_assets r.engine a; cache = flush r.cache } in
    let (valid, last, gone, same) = handle_reloads-last next loads (flush-IsValid r.cache v) in
    (valid, last, λ e. stays_empty next loads (emptied r.cache), λ e. cc)

-- Without a role, an upstream is in China exactly when a prefix of the index covers its address, over
-- masked prefixes of which no IPv6 one ends in an IPv4-mapped address; a role wins over that.
pub classify-covered :
    (ps : List Prefix) (overrides : OverrideSet) (u : Config.Upstream)
    → All IsUsable ps
    → IsAddr u.addr
    → (classify (record { china = build ps; overrides = overrides }) u).in_china ≡ (elim u.role [
      | auto ↦ any (λ p. covers p (unmap u.addr)) ps
      | china ↦ true
      | foreign ↦ false
    ])
unfolding classify is_china
classify-covered ps overrides u usable valid =
    ap (λ found. elim u.role [ auto ↦ Option.get_or found false | china ↦ true | foreign ↦ false ])
      (index_contains-build ps u.addr usable valid)
