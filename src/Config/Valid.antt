-- ===== src/Config/Valid.antt =====
-- What internal/config/config.go accepts, step by step.
use chn_resolver_go.Prelude.{
  ◌≡◌, true, false, ◌||◌, [], map, none, is_empty, Distinct, All, arith, subst, sym, ap, ◌∙◌,
}
use chn_resolver_go.Prelude.Int.{pos, ltz, ◌≤ℤ◌}
use chn_resolver_go.Prelude.Result.{ok, >>=-eq-ok}
use chn_resolver_go.Config.{Raw, Config, defaults}
use chn_resolver_go.Config.Build.{
  bounded, positive, set_listen, parse_upstreams, host, Host-discrete, find_duplicate,
  check_duplicates, set_upstreams, set_china, set_timeouts, set_ttls, set_cache, set_forward,
  set_log, set_metrics, is_level, is_format, build,
}
use chn_resolver_go.Config.Steps.{
  Between, AllRead, AllRead-Between, parse_upstreams-AllRead, choice_lem, find_duplicate-Distinct,
}

-- What holds of the defaults and of every step after them.
pub record IsSound (c : Config) : Type 0 where
  pub port_between : Between 1 65535 c.port
  pub some_transport : (c.udp || c.tcp) ≡ true
  pub some_concurrency : pos 1 ≤ℤ c.max_concurrency
  pub attempt_within : c.attempt_timeout ≤ℤ c.overall_timeout
  pub hops_between : Between 1 64 c.max_cname_hops
  pub size_between : Between 512 4096 c.udp_payload_size
  pub ttls_ordered : c.min_ttl ≤ℤ c.max_ttl
  pub neg_ttls_ordered : c.neg_min_ttl ≤ℤ c.neg_max_ttl
  pub some_entries : pos 1 ≤ℤ c.max_entries
  pub level_known : is_level c.log_level ≡ true
  pub format_known : is_format c.log_format ≡ true

-- What the steps after the upstreams and the prefix files leave as it is.
record Kept (c c' : Config) : Type 0 where
  upstreams_same : c'.upstreams ≡ c.upstreams
  files_same : c'.prefix_files ≡ c.prefix_files
  overrides_same : c'.overrides_file ≡ c.overrides_file

Kept-trans : {a b c : Config} → Kept a b → Kept b c → Kept a c
Kept-trans h k = record {
  upstreams_same = k.upstreams_same ∙ h.upstreams_same;
  files_same = k.files_same ∙ h.files_same;
  overrides_same = k.overrides_same ∙ h.overrides_same;
}

defaults-IsSound : IsSound defaults
unfolding defaults ltz
defaults-IsSound = ground (arith)

set_listen-IsSound :
    (r : Raw) (c : Config) {c' : Config} → IsSound c → set_listen r c ≡ ok c' → IsSound c'
unfolding set_listen bounded positive
set_listen-IsSound r c s h = ground (arith, s, h)

set_timeouts-IsSound :
    (r : Raw) (c : Config) {c' : Config}
    → IsSound c
    → set_timeouts r c ≡ ok c'
    → IsSound c' × Kept c c'
unfolding set_timeouts bounded
set_timeouts-IsSound r c s h = ground (arith, s, h)

set_ttls-IsSound :
    (r : Raw) (c : Config) {c' : Config} → IsSound c → set_ttls r c ≡ ok c' → IsSound c' × Kept c c'
unfolding set_ttls
set_ttls-IsSound r c s h = ground (arith, s, h)

set_cache-IsSound :
    (r : Raw) (c : Config) {c' : Config}
    → IsSound c
    → set_cache r c ≡ ok c'
    → IsSound c' × Kept c c'
unfolding set_cache positive
set_cache-IsSound r c s h = ground (arith, s, h)

set_forward-IsSound :
    (r : Raw) (c : Config) {c' : Config}
    → IsSound c
    → set_forward r c ≡ ok c'
    → IsSound c' × Kept c c'
unfolding set_forward
set_forward-IsSound r c s h = ground (arith, s, h)

set_log-IsSound :
    (r : Raw) (c : Config) {c' : Config} → IsSound c → set_log r c ≡ ok c' → IsSound c' × Kept c c'
unfolding set_log
set_log-IsSound r c s h = grind (arith, s, h, choice_lem)

set_metrics-IsSound :
    (r : Raw) (c : Config) {c' : Config}
    → IsSound c
    → set_metrics r c ≡ ok c'
    → IsSound c' × Kept c c'
unfolding set_metrics
set_metrics-IsSound r c s h = ground (arith, s, h)

set_upstreams-IsSound :
    (r : Raw) (c : Config) {c' : Config}
    → IsSound c
    → set_upstreams r c ≡ ok c'
    → IsSound c'
      × (parse_upstreams 0 r.upstreams ≡ ok c'.upstreams)
      × (is_empty c'.upstreams ≡ false)
      × (find_duplicate [] c'.upstreams ≡ none)
unfolding set_upstreams check_duplicates
set_upstreams-IsSound r c s h = ground (arith, s, h)

set_china-IsSound :
    (r : Raw) (c : Config) {c' : Config}
    → IsSound c
    → set_china r c ≡ ok c'
    → IsSound c'
      × (c'.upstreams ≡ c.upstreams)
      × (c'.prefix_files ≡ r.china.prefix_files)
      × (is_empty c'.prefix_files ≡ false)
      × (c'.overrides_file ≡ r.china.overrides_file)
unfolding set_china
set_china-IsSound r c s h = ground (arith, s, h)

-- What a configuration has that `build` accepts.
pub record IsValid (c : Config) : Type 0 where
  pub sound : IsSound c
  pub some_upstream : is_empty c.upstreams ≡ false
  pub ports_between : All (λ u. Between 1 65535 u.port) c.upstreams
  pub addresses_distinct : Distinct Host-discrete (map host c.upstreams)
  pub some_prefix_file : is_empty c.prefix_files ≡ false

-- The parts of the file that `build` copies.
pub record IsFrom (r : Raw) (c : Config) : Type 0 where
  pub upstreams_read : AllRead r.upstreams c.upstreams
  pub prefix_files_kept : c.prefix_files ≡ r.china.prefix_files
  pub overrides_file_kept : c.overrides_file ≡ r.china.overrides_file

-- A configuration that `build` accepts has ports between 1 and 65535, a transport, limits within their
-- bounds, ordered timeouts and TTLs, a known level and format, and an upstream and a prefix file at
-- least; no two upstreams have the same address. Its upstreams are the entries of the file in their
-- order, with the port 53 for a missing one, and its prefix and override files are those of the file.
pub build-IsValid : (r : Raw) {c : Config} → build r ≡ ok c → IsValid c × IsFrom r c
unfolding build
build-IsValid r h =
    let (c8, h8, e9) = >>=-eq-ok (set_metrics r) _ h in
    let (c7, h7, e8) = >>=-eq-ok (set_log r) _ h8 in
    let (c6, h6, e7) = >>=-eq-ok (set_forward r) _ h7 in
    let (c5, h5, e6) = >>=-eq-ok (set_cache r) _ h6 in
    let (c4, h4, e5) = >>=-eq-ok (set_ttls r) _ h5 in
    let (c3, h3, e4) = >>=-eq-ok (set_timeouts r) _ h4 in
    let (c2, h2, e3) = >>=-eq-ok (set_china r) _ h3 in
    let (c1, e1, e2) = >>=-eq-ok (set_upstreams r) (set_listen r defaults) h2 in
    let s1 = set_listen-IsSound r defaults defaults-IsSound e1 in
    let (s2, read, some_up, once) = set_upstreams-IsSound r c1 s1 e2 in
    let (s3, ups, files, some_file, overrides) = set_china-IsSound r c2 s2 e3 in
    let (s4, k4) = set_timeouts-IsSound r c3 s3 e4 in
    let (s5, k5) = set_ttls-IsSound r c4 s4 e5 in
    let (s6, k6) = set_cache-IsSound r c5 s5 e6 in
    let (s7, k7) = set_forward-IsSound r c6 s6 e7 in
    let (s8, k8) = set_log-IsSound r c7 s7 e8 in
    let (s9, k9) = set_metrics-IsSound r c8 s8 e9 in
    let k = Kept-trans (Kept-trans (Kept-trans k4 k5) (Kept-trans k6 k7)) (Kept-trans k8 k9) in
    let same = k.upstreams_same ∙ ups in
    let all_read = parse_upstreams-AllRead 0 r.upstreams read in
    let distinct = (find_duplicate-Distinct [] c2.upstreams once).1 in
    (
      record {
        sound = s9;
        some_upstream = ap is_empty same ∙ some_up;
        ports_between =
            subst (All (λ u. Between 1 65535 u.port)) (sym same)
              (AllRead-Between r.upstreams c2.upstreams all_read);
        addresses_distinct = subst (λ us. Distinct Host-discrete (map host us)) (sym same) distinct;
        some_prefix_file = ap is_empty k.files_same ∙ some_file;
      },
      record {
        upstreams_read = subst (AllRead r.upstreams) (sym same) all_read;
        prefix_files_kept = k.files_same ∙ files;
        overrides_file_kept = k.overrides_same ∙ overrides;
      },
    )
