-- ===== src/Cors/Middleware.antt =====
-- What CORSMiddleware answers itself, and what it lets through.
use elephantine.Prelude.{
  ℕ, ◌≡◌, refl, ◌≢◌, ◌⊎◌, String, true, Option, none, some, arith, eq_iff, str_eq, if◌then◌else◌,
  join, not, ◌&&◌, Bool-cases, inl, inr,
}
use elephantine.Prelude.Lists.{lookup, lookup-insert}
use elephantine.Cors.{
  Url, CorsOptions, Request, Response, Handler, valid_origin, preflight, cors_middleware, max_age,
  set_header,
}

module _ (parse : String → Option Url) (print : ℕ → String) (opts : CorsOptions) where
  preflight-lookup :
      (origin k : String) (w : Response)
      → w.status ≡ none
      → valid_origin parse origin opts ≡ true
      → (lookup k (preflight parse print opts origin w).header ≡ (
          if str_eq "Access-Control-Max-Age" k
          then some (print (max_age opts))
          else if str_eq "Access-Control-Allow-Origin" k
          then some origin
          else if str_eq "Access-Control-Allow-Headers" k
          then some (join opts.allowed_headers ",")
          else if str_eq "Access-Control-Allow-Methods" k
          then some (join opts.allowed_methods ",")
          else lookup k w.header))
        × ((preflight parse print opts origin w).status ≡ some 204)
  unfolding preflight
  preflight-lookup origin k w fresh valid = rw (valid, fresh, preflight) (simp lookup-insert, refl)

  preflight-answer :
      (origin : String) (w : Response)
      → w.status ≡ none
      → let answer = preflight parse print opts origin w in
        if valid_origin parse origin opts
        then (answer.status ≡ some 204)
          × (lookup "Access-Control-Allow-Origin" answer.header ≡ some origin)
          × (lookup "Access-Control-Allow-Methods" answer.header
              ≡ some (join opts.allowed_methods ","))
          × (lookup "Access-Control-Allow-Headers" answer.header
              ≡ some (join opts.allowed_headers ","))
          × (lookup "Access-Control-Max-Age" answer.header ≡ some (print (max_age opts)))
        else (answer.status ≡ some 405) × (answer.header ≡ w.header)
  preflight-answer origin w fresh = elim (Bool-cases (valid_origin parse origin opts)) [
    | inl valid ↦ rw valid (
      (preflight-lookup origin "" w fresh valid).1,
      (preflight-lookup origin "Access-Control-Allow-Origin" w fresh valid).0,
      (preflight-lookup origin "Access-Control-Allow-Methods" w fresh valid).0,
      (preflight-lookup origin "Access-Control-Allow-Headers" w fresh valid).0,
      (preflight-lookup origin "Access-Control-Max-Age" w fresh valid).0,
    )
    | inr invalid ↦ rw invalid (unfold preflight in rw (invalid, fresh, preflight) (refl, refl))
  ]

  -- A preflight request is answered whatever the handler behind the middleware does: with 204 and
  -- the four CORS headers if its origin is valid, and otherwise with 405 and no header added. The
  -- response has had no status yet.
  pub cors_middleware-preflight :
      (handler : Handler) (r : Request) (w : Response)
      → r.method ≡ "OPTIONS"
      → r.access_control_request_method ≢ ""
      → w.status ≡ none
      → let answer = cors_middleware parse print opts handler r w in
        if valid_origin parse r.origin opts
        then (answer.status ≡ some 204)
          × (lookup "Access-Control-Allow-Origin" answer.header ≡ some r.origin)
          × (lookup "Access-Control-Allow-Methods" answer.header
              ≡ some (join opts.allowed_methods ","))
          × (lookup "Access-Control-Allow-Headers" answer.header
              ≡ some (join opts.allowed_headers ","))
          × (lookup "Access-Control-Max-Age" answer.header ≡ some (print (max_age opts)))
        else (answer.status ≡ some 405) × (answer.header ≡ w.header)
  unfolding cors_middleware
  cors_middleware-preflight handler r w method wants fresh =
      let routed : cors_middleware parse print opts handler r w
          ≡ preflight parse print opts r.origin w =
        ground (arith, eq_iff r.method "OPTIONS", eq_iff r.access_control_request_method "") in
      rw routed (preflight-answer r.origin w fresh)

  -- Any other request reaches the handler, once the header has been set: an origin is allowed there
  -- exactly if it is given and valid, no other header but Vary changes, and no status is written.
  pub cors_middleware-request :
      (handler : Handler) (r : Request) (w : Response)
      → (r.method ≢ "OPTIONS") ⊎ (r.access_control_request_method ≡ "")
      → lookup "Access-Control-Allow-Origin" w.header ≡ none
      → (seen : Response) × (cors_middleware parse print opts handler r w ≡ handler r seen)
        × (seen.status ≡ w.status)
        × (lookup "Access-Control-Allow-Origin" seen.header ≡ (
            if not (str_eq r.origin "") && valid_origin parse r.origin opts
            then some r.origin
            else none))
        × ((name : String)
            → name ≢ "Access-Control-Allow-Origin"
            → name ≢ "Vary"
            → lookup name seen.header ≡ lookup name w.header)
  unfolding cors_middleware
  cors_middleware-request handler r w plain unset =
      elim (Bool-cases (not (str_eq r.origin "") && valid_origin parse r.origin opts)) [
        | inl valid ↦ (
          set_header "Vary" "Origin" (set_header "Access-Control-Allow-Origin" r.origin w),
          ground (arith, eq_iff r.method "OPTIONS", eq_iff r.access_control_request_method ""),
          refl,
          rw valid (simp lookup-insert),
          λ name a v.
              rw (lookup-insert, lookup-insert)
                (ground (arith, eq_iff "Vary" name, eq_iff "Access-Control-Allow-Origin" name)),
        )
        | inr invalid ↦ (
          w,
          ground (arith, eq_iff r.method "OPTIONS", eq_iff r.access_control_request_method ""),
          refl,
          rw invalid unset,
          λ name _ _. refl,
        )
      ]
