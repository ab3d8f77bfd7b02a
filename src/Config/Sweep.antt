-- ===== src/Config/Sweep.antt =====
-- `build` of internal/config/config.go on a file in which only the sweep interval is another.
use chn_resolver_go.Prelude.{◌≡◌, refl, ap, ◌∙◌, false, some, is_empty}
use chn_resolver_go.Prelude.Int.{ℤ}
use chn_resolver_go.Prelude.Result.{Result, ok, err, >>=-eq-ok}
use chn_resolver_go.Text.{Text}
use chn_resolver_go.Config.{Raw, Config, defaults}
use chn_resolver_go.Config.Duration.{parse_duration}
use chn_resolver_go.Config.Build.{
  Error, build, set_listen, set_upstreams, set_china, set_timeouts, set_ttls, set_cache,
  set_forward, set_log, set_metrics, duration, choice, positive, is_level, is_format, bad_level,
  bad_format, bad_listen, forward, low_entries, sweep,
}
use chn_resolver_go.Net.Parse.{is_addr_port}

-- The file with this text for the interval, and the configuration with this interval.
abbrev pub with_text : Text → Raw → Raw
with_text s r = record r { cache = record r.cache { sweep_interval = s } }

abbrev pub with_interval : ℤ → Config → Config
with_interval d c = record c { sweep_interval = d }

abbrev keep_interval : ℤ → Result Error Config → Result Error Config
keep_interval d (err e) = err e
keep_interval d (ok c) = ok (with_interval d c)

module _ (r : Raw) (s : Text) (d : ℤ) where
  listen_same : (c : Config) → set_listen (with_text s r) c ≡ set_listen r c
  unfolding set_listen
  listen_same c = refl

  upstreams_same : (c : Config) → set_upstreams (with_text s r) c ≡ set_upstreams r c
  unfolding set_upstreams
  upstreams_same c = refl

  china_same : (c : Config) → set_china (with_text s r) c ≡ set_china r c
  unfolding set_china
  china_same c = refl

  timeouts_same : (c : Config) → set_timeouts (with_text s r) c ≡ set_timeouts r c
  unfolding set_timeouts
  timeouts_same c = refl

  ttls_same : (c : Config) → set_ttls (with_text s r) c ≡ set_ttls r c
  unfolding set_ttls
  ttls_same c = refl

  cache_with :
      (c : Config) {c' : Config}
      → is_empty s ≡ false
      → parse_duration s ≡ some d
      → set_cache r c ≡ ok c'
      → set_cache (with_text s r) c ≡ ok (with_interval d c')
  unfolding set_cache duration
  cache_with c full parsed h =
      let (entries, e, next) =
        >>=-eq-ok _ (positive low_entries r.cache.max_entries c.max_entries) h in
      let (interval, f, last) =
        >>=-eq-ok _ (duration sweep r.cache.sweep_interval c.sweep_interval) next in
      rw (e, full, parsed) (ap (keep_interval d) last)

  forward_with :
      (c : Config) {c' : Config}
      → set_forward r c ≡ ok c'
      → set_forward (with_text s r) (with_interval d c) ≡ ok (with_interval d c')
  unfolding set_forward
  forward_with c h =
      let (time, e, last) = >>=-eq-ok _ (duration forward r.forward_timeout c.forward_timeout) h in
      rw (e) (ap (keep_interval d) last)

  log_with :
      (c : Config) {c' : Config}
      → set_log r c ≡ ok c'
      → set_log (with_text s r) (with_interval d c) ≡ ok (with_interval d c')
  unfolding set_log
  log_with c h =
      let (level, e, next) =
        >>=-eq-ok _ (choice is_level (bad_level r.log_level) r.log_level c.log_level) h in
      let (format, f, last) =
        >>=-eq-ok _ (choice is_format (bad_format r.log_format) r.log_format c.log_format) next in
      rw (e, f) (ap (keep_interval d) last)

  metrics_with :
      (c : Config) {c' : Config}
      → set_metrics r c ≡ ok c'
      → set_metrics (with_text s r) (with_interval d c) ≡ ok (with_interval d c')
  unfolding set_metrics
  metrics_with c h =
      let (listen, e, last) =
        >>=-eq-ok _
          (choice is_addr_port (bad_listen r.metrics_listen) r.metrics_listen c.metrics_listen) h in
      rw (e) (ap (keep_interval d) last)

  -- An accepted file is accepted with any other interval that parses, of whatever sign.
  pub build-with_text :
      {c : Config}
      → is_empty s ≡ false
      → parse_duration s ≡ some d
      → build r ≡ ok c
      → build (with_text s r) ≡ ok (with_interval d c)
  unfolding build
  build-with_text full parsed h =
      let (c8, h8, e9) = >>=-eq-ok (set_metrics r) _ h in
      let (c7, h7, e8) = >>=-eq-ok (set_log r) _ h8 in
      let (c6, h6, e7) = >>=-eq-ok (set_forward r) _ h7 in
      let (c5, h5, e6) = >>=-eq-ok (set_cache r) _ h6 in
      let (c4, h4, e5) = >>=-eq-ok (set_ttls r) _ h5 in
      let (c3, h3, e4) = >>=-eq-ok (set_timeouts r) _ h4 in
      let (c2, h2, e3) = >>=-eq-ok (set_china r) _ h3 in
      let (c1, e1, e2) = >>=-eq-ok (set_upstreams r) (set_listen r defaults) h2 in
      rw
        (
          listen_same defaults ∙ e1,
          upstreams_same c1 ∙ e2,
          china_same c2 ∙ e3,
          timeouts_same c3 ∙ e4,
          ttls_same c4 ∙ e5,
          cache_with c5 full parsed e6,
          forward_with c6 e7,
          log_with c7 e8,
        )
        (metrics_with c8 e9)
