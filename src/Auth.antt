-- ===== src/Auth.antt =====
-- Authentication: JWTAuthInfoParser.AuthInfoFromHeader and RequireAnyScope (jwt.go), and the hook of
-- ServiceOptions.SetAuthInfoValidation (api_server.go). `Verified` holds what the parser promises.
pub mod Parser
pub mod Hook
mod Tests
