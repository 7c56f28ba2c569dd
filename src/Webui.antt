-- ===== src/Webui.antt =====
-- webui/cookie.go and the handlers of webui/api.go that do not only pass on what another package says:
-- the cookies of the login, the login itself, and the middleware's table of requests.
pub mod Cookie
pub mod Login
pub mod Routes
