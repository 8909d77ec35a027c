-- ===== src/Nginx.antt =====
-- internal/nginx: from bindings to the policy of an endpoint.
pub mod Patterns
pub mod Types
pub mod Sizes
pub mod Policies
pub mod Generator
