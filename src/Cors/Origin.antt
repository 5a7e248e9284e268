-- ===== src/Cors/Origin.antt =====
-- Which origins validOrigin accepts.
use Prim.Native.Char.{Char}
use text.Mathlib.TextLemmas.{nil-append, cons-append}
use elephantine.Prelude.{
  ◌≡◌, refl, sym, ◌∙◌, ap, ◌⊎◌, ◌↔◌, inl, inr, String, true, Option, some, arith, eq_iff, str_eq,
  has_suffix, ◌+++◌, Bool-cases, Option-cases,
}
use elephantine.Prelude.Lists.{Exists, any, any_iff}
use elephantine.Cors.{Url, CorsOptions, valid_origin, is_host}

-- `s` ends in `t`.
abbrev pub EndsIn : String → String → Type 0
EndsIn s t = (before : String) × (s ≡ before +++ t)

pub has_suffix_sound : (s t : String) → has_suffix s t ≡ true → EndsIn s t
unfolding has_suffix
has_suffix_sound String.[] t h = ("", (eq_iff "" t).0 h ∙ sym (nil-append t))
has_suffix_sound (String.◌∷◌ c s) t h = elim (Bool-cases (str_eq (String.◌∷◌ c s) t)) [
  | inl whole ↦ ("", (eq_iff _ t).0 whole ∙ sym (nil-append t))
  | inr part ↦
      let (before, e) = has_suffix_sound s t (ground arith) in
      (String.◌∷◌ c before, ap (String.◌∷◌ c) e ∙ sym (cons-append c before t))
]

has_suffix_self : (t : String) → has_suffix t t ≡ true
unfolding has_suffix
has_suffix_self String.[] = (eq_iff "" "").1 refl
has_suffix_self (String.◌∷◌ c t) = rw ((eq_iff (String.◌∷◌ c t) (String.◌∷◌ c t)).1 refl)

has_suffix-cons :
    (c : Char) (s t : String) → has_suffix s t ≡ true → has_suffix (String.◌∷◌ c s) t ≡ true
unfolding has_suffix
has_suffix-cons c s t h = ground arith

pub has_suffix_complete : (before t : String) → has_suffix (before +++ t) t ≡ true
has_suffix_complete String.[] t = rw (nil-append t) (has_suffix_self t)
has_suffix_complete (String.◌∷◌ c s) t =
    rw (cons-append c s t) (has_suffix-cons c (s +++ t) t (has_suffix_complete s t))

-- A host that an allowed name covers: the name itself, or one below it.
abbrev pub IsCovered : String → String → Type 0
IsCovered host h = (host ≡ h) ⊎ EndsIn host ("." +++ h)

is_host_iff : (host h : String) → (is_host host h ≡ true) ↔ IsCovered host h
is_host_iff host h = (
  λ e. elim (Bool-cases (str_eq host h)) [
    | inl same ↦ inl ((eq_iff host h).0 same)
    | inr other ↦ inr (has_suffix_sound host ("." +++ h) (ground arith))
  ],
  elim [
    | inl same ↦ rw ((eq_iff host h).1 same)
    | inr (before, e) ↦ rw (e, has_suffix_complete before ("." +++ h)) (ground arith)
  ],
)

-- Whether the options let an origin do without https.
abbrev pub MayBeInsecure : Url → CorsOptions → Type 0
MayBeInsecure url opts =
    (opts.allow_insecure ≡ true)
    ⊎ ((url.hostname ≡ "localhost") × (opts.allow_insecure_localhost ≡ true))

-- What an origin must be to be allowed.
abbrev pub IsAllowed : (String → Option Url) → String → CorsOptions → Type 0
IsAllowed parse origin opts =
    (url : Url) × (parse origin ≡ some url)
    × ((url.scheme ≡ "https") ⊎ MayBeInsecure url opts)
    × Exists (IsCovered url.hostname) opts.hosts

-- An origin is accepted exactly when it parses as a URL, is https or excused from that by the
-- options, and has a host that is one of the allowed hosts or ends in a dot and one of them.
pub valid_origin_iff :
    (parse : String → Option Url) (origin : String) (opts : CorsOptions)
    → (valid_origin parse origin opts ≡ true) ↔ IsAllowed parse origin opts
unfolding valid_origin
valid_origin_iff parse origin opts = (
  λ h. elim (Option-cases (parse origin)) [
    | inl bad ↦ absurd (ground arith)
    | inr (url, parsed) ↦ (
      url,
      parsed,
      ground (arith, eq_iff url.scheme "https", eq_iff url.hostname "localhost"),
      (hosts_iff url).0 (ground arith),
    )
  ],
  λ (url, parsed, secure, covered). ground (
    arith,
    eq_iff url.scheme "https",
    eq_iff url.hostname "localhost",
    (hosts_iff url).1 covered,
  ),
)
  where
    hosts_iff :
        (url : Url)
        → (any (is_host url.hostname) opts.hosts ≡ true)
          ↔ Exists (IsCovered url.hostname) opts.hosts
    hosts_iff url =
        any_iff (is_host url.hostname) (IsCovered url.hostname) (is_host_iff url.hostname)
          opts.hosts
