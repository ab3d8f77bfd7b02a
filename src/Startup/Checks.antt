-- ===== src/Startup/Checks.antt =====
-- `main` of cmd/chn-resolver/main.go with `-check`, and `loadAssets` as a reload meets it.
use mathlib.Core.Option
use chn_resolver_go.Prelude.{
  ◌≡◌, refl, ◌∙◌, subst, Bool, true, false, List, [], ◌∷◌, Option, none, some, arith, if◌then◌else◌,
  Bool-cases, is_empty, Option-cases, inl, inr,
}
use chn_resolver_go.Prelude.Int.{ℤ, pos, ltz}
use chn_resolver_go.Prelude.Result.{Result, ok, err, >>=-eq-ok, or_fail-eq-ok, Result-cases}
use chn_resolver_go.Text.{Text}
use chn_resolver_go.Config.{Raw, Config}
use chn_resolver_go.Config.Duration.{parse_duration}
use chn_resolver_go.Config.Build.{build, bad_file, load, from_bytes}
use chn_resolver_go.Config.Sweep.{with_text, with_interval, build-with_text}
use chn_resolver_go.Engine.{Assets}
use chn_resolver_go.China.Loader
use chn_resolver_go.Startup.{load_assets, classify_upstreams}
use chn_resolver_go.Startup.Wiring.{
  config_paths, load_config, load_first, start, service_of, engine_of,
}
use chn_resolver_go.Startup.Main.{
  System, Process, serves, summary_printed, janitor_panics, has_janitor, open_tcp, open_listeners,
  load_files, load_overrides, lift, serve, after_assets, main,
}
use chn_resolver_go.Startup.Serves.{main-IsServing, serves_inj}

-- The system whose files have this text for the sweep interval.
abbrev pub with_file : Text → System → System
with_file s sys = record sys {
  decode_file = λ path. Option.map (with_text s) (sys.decode_file path);
}

load-with_text :
    (decode_file : Text → Option Raw) (path s : Text) (d : ℤ) {c : Config}
    → is_empty s ≡ false
    → parse_duration s ≡ some d
    → load decode_file path ≡ ok c
    → load (λ q. Option.map (with_text s) (decode_file q)) path ≡ ok (with_interval d c)
unfolding load from_bytes
load-with_text decode_file path s d full parsed h =
    let (raw, e, built) = >>=-eq-ok build _ h in
    rw (or_fail-eq-ok (decode_file path) bad_file e) (build-with_text raw s d full parsed built)

load_first-with_text :
    (exists : Text → Bool) (decode_file : Text → Option Raw) (ps : List Text) (s : Text) (d : ℤ)
    {c : Config}
    → is_empty s ≡ false
    → parse_duration s ≡ some d
    → load_first exists decode_file ps ≡ ok c
    → load_first exists (λ q. Option.map (with_text s) (decode_file q)) ps ≡ ok (with_interval d c)
unfolding load_first
load_first-with_text exists decode_file [] s d full parsed h = cc h
load_first-with_text exists decode_file (p ∷ ps) s d full parsed h = elim (Bool-cases (exists p)) [
  | inl here ↦ rw here (load-with_text decode_file p s d full parsed (rw here at h))
  | inr gone ↦ rw gone (load_first-with_text exists decode_file ps s d full parsed (rw gone at h))
]

load_config-with_file :
    (sys : System) (path s : Text) (d : ℤ) {c : Config}
    → is_empty s ≡ false
    → parse_duration s ≡ some d
    → load_config sys.exists sys.decode_file path ≡ ok c
    → load_config sys.exists (with_file s sys).decode_file path ≡ ok (with_interval d c)
unfolding load_config
load_config-with_file sys path s d full parsed h = elim (Bool-cases (is_empty path)) [
  | inl none_given ↦ rw none_given (
      load_first-with_text sys.exists sys.decode_file config_paths s d full parsed
        (rw none_given at h))
  | inr given ↦ rw given (load-with_text sys.decode_file path s d full parsed (rw given at h))
]

load_files-with_file :
    (sys : System) (s : Text) (d : ℤ) (c : Config)
    → load_files (with_file s sys) (with_interval d c) ≡ load_files sys c
unfolding load_files
load_files-with_file sys s d c = refl

serve-with_file :
    (sys : System) (s : Text) (d : ℤ) (c : Config) (assets : Assets) (p : Process)
    → serve sys c assets ≡ serves p
    → serve (with_file s sys) (with_interval d c) assets ≡ (
        if ltz (pos 0) d
        then serves (record p { config = with_interval d p.config })
        else janitor_panics)
unfolding serve has_janitor open_listeners open_tcp start service_of engine_of
serve-with_file sys s d c assets p h =
    elim (Bool-cases (open_listeners sys c (sys.address c.bind c.port)).1) [
      | inr down ↦ absurd (ground (arith, down, h))
      | inl up ↦ elim (Bool-cases (ltz (pos 0) c.sweep_interval)) [
        | inr stopped ↦ absurd (ground (arith, up, stopped, h))
        | inl sweeps ↦
            let q : Process = record {
              config = c;
              assets = assets;
              running = start c assets;
              service = service_of c;
              opened = (open_listeners sys c (sys.address c.bind c.port)).0;
            } in
            let same : serves q ≡ serves p = ground (arith, up, sweeps, h) in
            subst
              (λ p'. serve (with_file s sys) (with_interval d c) assets ≡ (
                if ltz (pos 0) d
                then serves (record p' { config = with_interval d p'.config })
                else janitor_panics))
              (serves_inj same)
              (elim (Bool-cases (ltz (pos 0) d)) [
                | inl on ↦ rw (up, on) refl
                | inr off ↦ rw (up, off) refl
              ])
      ]
    ]

-- When the process comes to serve, and the same files are read with another text for the sweep interval
-- that parses: `main` with `-check` prints the summary of the new configuration, whatever the interval,
-- but without `-check` it serves, with nothing else changed, only for a positive interval, and for one of
-- zero or below the janitor panics.
pub main-check_panics :
    (sys : System) (path s : Text) (d : ℤ) (p : Process)
    → main sys path false false ≡ serves p
    → is_empty s ≡ false
    → parse_duration s ≡ some d
    → (main (with_file s sys) path true false
        ≡ summary_printed
            (with_interval d p.config)
            p.assets
            (classify_upstreams p.assets p.config.upstreams))
      × (main (with_file s sys) path false false ≡ (
          if ltz (pos 0) d
          then serves (record p { config = with_interval d p.config })
          else janitor_panics))
unfolding main after_assets serve has_janitor
main-check_panics sys path s d p h full parsed =
    let served = main-IsServing sys path false false p h in
    let again = load_config-with_file sys path s d full parsed served.read_from in
    let loaded : load_files (with_file s sys) (with_interval d p.config) ≡ ok p.assets =
      load_files-with_file sys s d p.config ∙ served.loaded in
    (
      ground (arith, again, loaded),
      rw (again, after_assets, loaded)
          (serve-with_file sys s d p.config p.assets p
            (ground (arith, served.read_from, served.loaded, h))),
    )

abbrev pub found {ℓ} : {E A : Type ℓ} → Result E A → Option A
found r = elim r [ err e ↦ none | ok a ↦ some a ]

-- A reload loads what a start loads.
pub found-load_files :
    (sys : System) (c : Config)
    → found (load_files sys c)
      ≡ load_assets
          (found (Loader.load sys.open_file c.prefix_files))
          c.overrides_file
          (load_overrides sys.open_file c.overrides_file)
unfolding load_files load_assets lift
found-load_files sys c = elim (Result-cases (Loader.load sys.open_file c.prefix_files)) [
  | inl (e, bad) ↦ rw (bad, load_files, load_assets, lift) refl
  | inr (index, good) ↦ elim (Bool-cases (is_empty c.overrides_file)) [
    | inl unset ↦ ground (arith, good, unset)
    | inr set ↦ elim (Option-cases (load_overrides sys.open_file c.overrides_file)) [
      | inl bad ↦ ground (arith, good, set, bad)
      | inr (entries, read) ↦ ground (arith, good, set, read)
    ]
  ]
]
