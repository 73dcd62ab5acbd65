-- ===== src/Http.antt =====
-- src/protocol/http: the response parser (http_parser.h, .cpp), the request builder and its URLs
-- (http_request_builder.h, .cpp) redirects
-- (http_redirect.h, .cpp) and the client (software_http_client.h, .cpp).
pub mod Parser
pub mod Url
pub mod Headers
pub mod Request
pub mod Redirect
pub mod Client
mod Tests
