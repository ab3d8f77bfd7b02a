-- ===== src/Startup/Serves.antt =====
-- What runs when `main` of cmd/chn-resolver/main.go has come to `ListenAndServe`.
use mathlib.Core.Option
use chn_resolver_go.Prelude.{
  ◌≡◌, sym, subst, Bool, true, false, ◌||◌, List, [], ◌∷◌, Option, none, some, arith, Bool-cases,
  is_empty, Option-cases, inl, inr,
}
use chn_resolver_go.Prelude.Int.{pos, ltz}
use chn_resolver_go.Prelude.Result.{ok, >>=-eq-ok, Result-cases}
use chn_resolver_go.Text.{Text}
use chn_resolver_go.Config.{Raw, Config}
use chn_resolver_go.Config.Build.{build, load, from_bytes}
use chn_resolver_go.Config.Valid.{build-IsValid}
use chn_resolver_go.Engine.{Assets}
use chn_resolver_go.Startup.Wiring.{config_paths, load_config, load_first, start, service_of}
use chn_resolver_go.Startup.Started.{IsStarted, start-IsStarted}
use chn_resolver_go.Startup.Main.{
  System, Opened, Process, serves, load_files, open_tcp, open_listeners, serve, has_janitor,
  after_assets, main,
}

abbrev pub is_open : Option Text → Bool
is_open none = false
is_open (some a) = true

-- The sockets of a configuration.
pub record HasSockets (sys : System) (c : Config) (o : Opened) : Type 0 where
  pub udp_open : is_open o.udp ≡ c.udp
  pub tcp_open : is_open o.tcp ≡ c.tcp
  pub bound : is_open o.bound ≡ true
  pub same_address : c.tcp ≡ true → (u : Text) → o.udp ≡ some u → o.tcp ≡ sys.listen_tcp u

open_tcp-HasSockets :
    (sys : System) (c : Config) (addr : Text) (udp : Option Text)
    → is_open udp ≡ c.udp
    → (c.udp || c.tcp) ≡ true
    → (open_tcp sys c addr udp).1 ≡ true
    → HasSockets sys c (open_tcp sys c addr udp).0
unfolding open_tcp
open_tcp-HasSockets sys c addr udp e any up = elim (Bool-cases c.tcp) [
  | inr off ↦ record {
    udp_open = ground (arith, off, e);
    tcp_open = ground (arith, off);
    bound = ground (arith, off, e, any);
    same_address = λ t u f. cc (t, off);
  }
  | inl on ↦ elim (Option-cases (sys.listen_tcp (Option.get_or udp addr))) [
    | inl bad ↦ absurd (ground (arith, on, bad, up))
    | inr (t, f) ↦ record {
      udp_open = ground (arith, on, f, e);
      tcp_open = ground (arith, on, f);
      bound = ground (arith, on, f);
      same_address = λ y u g. ground (arith, on, f, g);
    }
  ]
]

open_listeners-HasSockets :
    (sys : System) (c : Config) (addr : Text)
    → (c.udp || c.tcp) ≡ true
    → (open_listeners sys c addr).1 ≡ true
    → HasSockets sys c (open_listeners sys c addr).0
unfolding open_listeners
open_listeners-HasSockets sys c addr any up = elim (Bool-cases c.udp) [
  | inr off ↦
      let e : open_listeners sys c addr ≡ open_tcp sys c addr none = ground (arith, off) in
      rw e (open_tcp-HasSockets sys c addr none (sym off) any (rw e at up))
  | inl on ↦ elim (Option-cases (sys.listen_udp addr)) [
    | inl bad ↦ absurd (ground (arith, on, bad, up))
    | inr (u, f) ↦
        let e : open_listeners sys c addr ≡ open_tcp sys c addr (some u) = ground (arith, on, f) in
        rw e (open_tcp-HasSockets sys c addr (some u) (sym on) any (rw e at up))
  ]
]

-- A configuration that loads was built.
load-built :
    (decode_file : Text → Option Raw) (path : Text) {c : Config}
    → load decode_file path ≡ ok c
    → (raw : Raw) × (build raw ≡ ok c)
unfolding load from_bytes
load-built decode_file path h = let (raw, _, e) = >>=-eq-ok build _ h in (raw, e)

load_first-built :
    (exists : Text → Bool) (decode_file : Text → Option Raw) (ps : List Text) {c : Config}
    → load_first exists decode_file ps ≡ ok c
    → (raw : Raw) × (build raw ≡ ok c)
unfolding load_first
load_first-built exists decode_file [] h = cc h
load_first-built exists decode_file (p ∷ ps) h = elim (Bool-cases (exists p)) [
  | inl here ↦ load-built decode_file p (rw here at h)
  | inr gone ↦ load_first-built exists decode_file ps (rw gone at h)
]

load_config-built :
    (sys : System) (path : Text) {c : Config}
    → load_config sys.exists sys.decode_file path ≡ ok c
    → (raw : Raw) × (build raw ≡ ok c)
unfolding load_config
load_config-built sys path h = elim (Bool-cases (is_empty path)) [
  | inl none_given ↦ load_first-built sys.exists sys.decode_file config_paths (rw none_given at h)
  | inr given ↦ load-built sys.decode_file path (rw given at h)
]

-- The configuration was accepted, and everything that serves comes from it.
pub record IsServing (sys : System) (path : Text) (p : Process) : Type 0 where
  pub raw : Raw
  pub built : build raw ≡ ok p.config
  pub read_from : load_config sys.exists sys.decode_file path ≡ ok p.config
  pub loaded : load_files sys p.config ≡ ok p.assets
  pub started : IsStarted p.config p.running
  pub sockets : HasSockets sys p.config p.opened
  pub sweeps : ltz (pos 0) p.config.sweep_interval ≡ true

pub serves_inj : {p q : Process} → serves p ≡ serves q → p ≡ q
serves_inj e = cc e

serve-IsServing :
    (sys : System) (path : Text) (c : Config) (assets : Assets) (p : Process)
    → load_config sys.exists sys.decode_file path ≡ ok c
    → load_files sys c ≡ ok assets
    → serve sys c assets ≡ serves p
    → IsServing sys path p
unfolding serve has_janitor
serve-IsServing sys path c assets p read_from loaded h =
    let opening = open_listeners sys c (sys.address c.bind c.port) in
    let (raw, built) = load_config-built sys path read_from in
    elim (Bool-cases opening.1) [
      | inr down ↦ absurd (ground (arith, down, h))
      | inl up ↦ elim (Bool-cases (ltz (pos 0) c.sweep_interval)) [
        | inr stopped ↦ absurd (ground (arith, up, stopped, h))
        | inl sweeps ↦
            let q : Process = record {
              config = c;
              assets = assets;
              running = start c assets;
              service = service_of c;
              opened = opening.0;
            } in
            let same : serves q ≡ serves p = ground (arith, up, sweeps, h) in
            subst (IsServing sys path) (serves_inj same) (record {
              raw = raw;
              built = built;
              read_from = read_from;
              loaded = loaded;
              started = start-IsStarted raw assets built;
              sockets =
                  open_listeners-HasSockets sys c (sys.address c.bind c.port)
                    (build-IsValid raw built).0.sound.some_transport up;
              sweeps = sweeps;
            })
      ]
    ]

-- When `main` comes to serve, the configuration is one that `build` accepted and the assets are those of
-- its files; the engine and the cache are started from it within its bounds; and exactly the transports it
-- asks for are open, at least one, so that there is an address to report, with TCP at the address that
-- UDP is bound to; and the janitor has an interval that its ticker accepts.
pub main-IsServing :
    (sys : System) (path : Text) (check version : Bool) (p : Process)
    → main sys path check version ≡ serves p
    → IsServing sys path p
unfolding main after_assets
main-IsServing sys path true true p h = cc h
main-IsServing sys path false true p h = cc h
main-IsServing sys path check false p h =
    elim (Result-cases (load_config sys.exists sys.decode_file path)) [
      | inl (e, bad) ↦ absurd (ground (arith, bad, h))
      | inr (c, read_from) ↦ elim (Result-cases (load_files sys c)) [
        | inl (e, bad) ↦ absurd (ground (arith, read_from, bad, h))
        | inr (assets, loaded) ↦ elim (Bool-cases check) [
          | inl on ↦ absurd (ground (arith, read_from, loaded, on, h))
          | inr off ↦
              serve-IsServing sys path c assets p read_from loaded
                (ground (arith, read_from, loaded, off, h))
        ]
      ]
    ]
