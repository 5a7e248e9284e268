-- ===== src/Auth/Parser/Verified.antt =====
-- Whatever the parser hands out, from the cache too, comes of a token that was verified.
use elephantine.Prelude.{
  ℕ, ◌≡◌, sym, ap, ◌∙◌, ◌⊎◌, inl, inr, String, Bool, false, Option, none, some, arith, eq_iff, cut,
  Option-cases,
}
use mathlib.Core.Path.{subst}
use elephantine.Duration
use elephantine.Fault.{Fault, Result, ok, err, Result-cases}
use elephantine.Claims.{JwtClaims}
use elephantine.LogContext.{AuthInfo}
use elephantine.Auth.Parser.{ParserDeps, normalise, check_token, auth_info_from_header}

module _ (deps : ParserDeps) where
  open deps use {parse_with_claims, validate, Cache, get, set, to_lower}

  -- What the jwt package made of a token gives the information: it was valid, and so were its claims.
  abbrev pub Gives : Result JwtClaims → JwtClaims → Type 0
  Gives (err e) normal = ⊥
  Gives (ok claims) normal = (validate claims ≡ none) × (normalise deps claims ≡ ok normal)

  abbrev pub IsVerified : AuthInfo → Type 0
  IsVerified info = Gives (parse_with_claims info.token) info.claims

  -- A view of what the cache has for a token.
  abbrev pub View : Type 0
  View = Cache → String → Option (AuthInfo × Bool)

  -- The entries of the cache are kept under their tokens, and have a property.
  abbrev pub Keeps : View → (AuthInfo → Type 0) → Cache → Type 0
  Keeps view Has cache =
      (token : String) (info : AuthInfo) (expired : Bool)
      → view cache token ≡ some (info, expired)
      → (info.token ≡ token) × Has info

  abbrev pub IsSoundCache : Cache → Type 0
  IsSoundCache cache = Keeps get IsVerified cache

  -- A cache answers with what was set for a token, or with what it had before.
  abbrev pub IsCacheLikeIn : View → Type 0
  IsCacheLikeIn view =
      (cache : Cache) (token other : String) (info found : AuthInfo) (ttl : ℕ) (expired : Bool)
      → view (set cache token info ttl) other ≡ some (found, expired)
      → ((other ≡ token) × (found ≡ info)) ⊎ (view cache other ≡ some (found, expired))

  abbrev pub IsCacheLike : Type 0
  IsCacheLike = IsCacheLikeIn get

  check_token-IsVerified :
      (now : ℕ) (cache : Cache) (token : String) (info : AuthInfo)
      → (check_token deps now cache token).0 ≡ ok info
      → (info.token ≡ token) × IsVerified info
  unfolding check_token
  check_token-IsVerified now cache token info h = ground arith

  -- What a check leaves in the cache.
  abbrev Remembers : ℕ → Cache → String → AuthInfo → Option ℕ → Cache → Type 0
  Remembers now cache token info none after = after ≡ cache
  Remembers now cache token info (some t) after =
      after ≡ set cache token info (Duration.since t now)

  check_token-cache :
      (now : ℕ) (cache : Cache) (token : String)
      → ((e : Fault)
          → (check_token deps now cache token).0 ≡ err e
          → (check_token deps now cache token).1 ≡ cache)
        × ((info : AuthInfo)
            → (check_token deps now cache token).0 ≡ ok info
            → Remembers now cache token info info.claims.expires_at
                (check_token deps now cache token).1)
  unfolding check_token
  check_token-cache now cache token = (λ e h. ground arith, λ info h. ground arith)

  -- For a property of what is verified, in a view that has all that Get answers with.
  module _ (view : View) (like : IsCacheLikeIn view)
      (shown : (cache : Cache) (token : String) (info : AuthInfo) (expired : Bool)
        → get cache token ≡ some (info, expired)
        → (flag : Bool) × (view cache token ≡ some (info, flag)))
      (Has : AuthInfo → Type 0) (enough : (info : AuthInfo) → IsVerified info → Has info) where
    same-Keeps : (c d : Cache) → d ≡ c → Keeps view Has c → Keeps view Has d
    same-Keeps c d e sound = subst (Keeps view Has) (sym e) sound

    set-Keeps :
        (cache : Cache) (token : String) (info : AuthInfo) (ttl : ℕ)
        → info.token ≡ token
        → Has info
        → Keeps view Has cache
        → Keeps view Has (set cache token info ttl)
    set-Keeps cache token info ttl own has sound other found expired h =
        elim (like cache token other info found ttl expired h) [
          | inl (same, set_now) ↦
              (ap (λ (a : AuthInfo). a.token) set_now ∙ own ∙ sym same, subst Has (sym set_now) has)
          | inr before ↦ sound other found expired before
        ]

    check_token-Keeps :
        (now : ℕ) (cache : Cache) (token : String)
        → Keeps view Has cache
        → Keeps view Has (check_token deps now cache token).1
    check_token-Keeps now cache token sound =
        elim (Result-cases (check_token deps now cache token).0) [
          | inr (e, failed) ↦
              same-Keeps cache _ ((check_token-cache now cache token).0 e failed) sound
          | inl (info, passed) ↦ elim (Option-cases info.claims.expires_at) [
            | inl never ↦
                same-Keeps cache _ (rw never at ((check_token-cache now cache token).1 info passed))
                  sound
            | inr (t, expires) ↦
                let (own, verified) = check_token-IsVerified now cache token info passed in
                same-Keeps (set cache token info (Duration.since t now)) _
                  (subst
                    (λ o. Remembers now cache token info o (check_token deps now cache token).1)
                    expires ((check_token-cache now cache token).1 info passed))
                  (set-Keeps cache token info (Duration.since t now) own (enough info verified)
                    sound)
          ]
        ]

    -- What one call hands out, and leaves in the cache.
    pub auth_info_from_header-Keeps :
        (now : ℕ) (cache : Cache) (authorization : String)
        → Keeps view Has cache
        → let result = auth_info_from_header deps now cache authorization in
          Keeps view Has result.1
          × ((info : AuthInfo)
              → result.0 ≡ ok info
              → (to_lower (cut "" b' ' authorization).0 ≡ "bearer")
                × (info.token ≡ (cut "" b' ' authorization).1)
                × Has info)
    unfolding auth_info_from_header
    auth_info_from_header-Keeps now cache authorization sound = (
      ground (arith, check_token-Keeps now cache (cut "" b' ' authorization).1 sound),
      λ info h. ground (
        arith,
        check_token-IsVerified now cache (cut "" b' ' authorization).1 info,
        enough info,
        eq_iff (to_lower (cut "" b' ' authorization).0) "bearer",
        λ (h' : get cache (cut "" b' ' authorization).1 ≡ some (info, false)).
            let (flag, there) = shown cache (cut "" b' ' authorization).1 info false h' in
            sound (cut "" b' ' authorization).1 info flag there,
      ),
    )

  -- With a cache that answers only with what was set for a token, and that holds verified entries:
  -- information that is handed out for a header belongs to the token behind "Bearer ", whose
  -- signature and claims were found valid, and the cache after the call holds verified entries again.
  pub auth_info_from_header-IsVerified :
      (now : ℕ) (cache : Cache) (authorization : String)
      → IsCacheLike
      → IsSoundCache cache
      → let result = auth_info_from_header deps now cache authorization in
        IsSoundCache result.1
        × ((info : AuthInfo)
            → result.0 ≡ ok info
            → (to_lower (cut "" b' ' authorization).0 ≡ "bearer")
              × (info.token ≡ (cut "" b' ' authorization).1)
              × IsVerified info)
  auth_info_from_header-IsVerified now cache authorization like sound =
      auth_info_from_header-Keeps get like (λ c token info expired there. (expired, there))
        IsVerified (λ info verified. verified) now cache authorization sound
