-- ===== src/Server/Reads.antt =====
-- The reads of `handleTCPConn` in internal/server/server.go, against the frames that are written.
use mathlib.Core.Option
use chn_resolver_go.Prelude.{
  ℕ, zero, suc, ◌+◌, ◌*◌, ◌/◌, ◌%◌, ◌^◌, ◌<◌, ◌≡◌, refl, sym, ap, ◌∙◌, List, [], ◌∷◌, ◌++◌, arith,
  Option, none, some, length, Option-cases, All, subst, some_inj, inl, inr, length-append,
}
use chn_resolver_go.Server.Frames.{read_full, big_endian, read_frame, make_frame}

read_full-append :
    (data_sent rest : List ℕ)
    → read_full (length data_sent) (data_sent ++ rest) ≡ some (data_sent, rest)
unfolding read_full
read_full-append [] rest = refl
read_full-append (b ∷ bytes) rest = rw (read_full-append bytes rest) refl

read_frame-eq :
    (hi lo : ℕ) (bytes : List ℕ) → read_frame (hi ∷ lo ∷ bytes) ≡ read_full (hi * 256 + lo) bytes
unfolding read_frame read_full big_endian Option.bind
read_frame-eq hi lo bytes = refl

-- A message behind its length, in two bytes.
abbrev pub framed : List ℕ → List ℕ
framed wire = length wire / 256 ∷ length wire % 256 ∷ wire

pub make_frame-framed : (wire : List ℕ) → length wire < 2 ^ 16 → make_frame wire ≡ framed wire
unfolding make_frame
make_frame-framed wire small =
    ap (λ n. n / 256 ∷ n % 256 ∷ wire)
      (let kept : length wire % 2 ^ 16 ≡ length wire = omega (arith, small) in kept)

-- A frame comes out as it went in.
pub read_frame-framed : (wire rest : List ℕ) → read_frame (framed wire ++ rest) ≡ some (wire, rest)
read_frame-framed wire rest =
    let size = length wire in
    let whole : size / 256 * 256 + size % 256 ≡ size = omega arith in
    read_frame-eq (size / 256) (size % 256) (wire ++ rest)
    ∙ ap (λ n. read_full n (wire ++ rest)) whole
    ∙ read_full-append wire rest

pub length-framed :
    (wire rest : List ℕ) → length (framed wire ++ rest) ≡ 2 + length wire + length rest
length-framed wire rest = omega (arith, length-append wire rest)

read_full_shorter :
    (n : ℕ) (bytes got rest : List ℕ)
    → read_full n bytes ≡ some (got, rest)
    → length bytes ≡ n + length rest
unfolding read_full
read_full_shorter zero bytes got rest e =
    omega (arith, ap (λ (p : List ℕ × List ℕ). length p.1) (some_inj e))
read_full_shorter (suc n) [] got rest e = cc e
read_full_shorter (suc n) (b ∷ bytes) got rest e = elim (Option-cases (read_full n bytes)) [
  | inl short ↦ ground (arith, e, short)
  | inr ((got', rest'), full) ↦
      let same : rest' ≡ rest =
        ap (λ (p : List ℕ × List ℕ). p.1) (some_inj (ap (Option.map _) (sym full) ∙ e)) in
      omega (arith, read_full_shorter n bytes got' rest' full, ap length same)
]

abbrev second_read : List ℕ × List ℕ → Option (List ℕ × List ℕ)
second_read (lb, rest) = read_full (big_endian lb) rest

pub read_frame_shorter :
    (bytes query rest : List ℕ) → read_frame bytes ≡ some (query, rest) → length rest < length bytes
unfolding read_frame Option.bind
read_frame_shorter bytes query rest e = elim (Option-cases (read_full 2 bytes)) [
  | inl short ↦
      let gone : none ≡ some (query, rest) = ap (λ o. Option.bind o second_read) (sym short) ∙ e in
      cc gone
  | inr ((lb, behind), first) ↦ omega (
    arith,
    read_full_shorter 2 bytes lb behind first,
    read_full_shorter (big_endian lb) behind query rest
        (ap (λ o. Option.bind o second_read) (sym first) ∙ e),
  )
]

read_full_split :
    (n : ℕ) (bytes got rest : List ℕ)
    → read_full n bytes ≡ some (got, rest)
    → (bytes ≡ got ++ rest) × (length got ≡ n)
unfolding read_full
read_full_split zero bytes got rest e = ground (arith, e)
read_full_split (suc n) [] got rest e = cc e
read_full_split (suc n) (b ∷ bytes) got rest e = elim (Option-cases (read_full n bytes)) [
  | inl short ↦ ground (arith, e, short)
  | inr ((got', rest'), full) ↦
      let same : (b ∷ got', rest') ≡ (got, rest) = some_inj (ap (Option.map _) (sym full) ∙ e) in
      let (parts, count) = read_full_split n bytes got' rest' full in
      subst (λ (p : List ℕ × List ℕ). (b ∷ bytes ≡ p.0 ++ p.1) × (length p.0 ≡ suc n)) same
        (ap (◌∷◌ b) parts, omega (arith, count))
]

-- Whatever is read from bytes is a message that stands behind its length.
pub read_frame_split :
    (bytes query rest : List ℕ)
    → All (λ b. b < 256) bytes
    → read_frame bytes ≡ some (query, rest)
    → (bytes ≡ framed query ++ rest) × (length query < 2 ^ 16)
unfolding read_frame read_full Option.bind
read_frame_split [] query rest h e = cc e
read_frame_split (hi ∷ []) query rest h e = cc e
read_frame_split (hi ∷ lo ∷ behind) query rest (big, (little, _)) e =
    let (parts, count) =
      read_full_split (hi * 256 + lo) behind query rest (sym (read_frame-eq hi lo behind) ∙ e) in
    let high : length query / 256 ≡ hi = omega (arith, count, little) in
    let low : length query % 256 ≡ lo = omega (arith, count, little) in
    (rw (high, low, parts) refl, omega (arith, count, big, little))
