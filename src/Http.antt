-- ===== src/Http.antt =====
-- Errors, responses and handlers: internal/errors, internal/utils, internal/handler and
-- pkg/pagination.
pub mod Errors
pub mod Responses
pub mod Pagination
pub mod Handlers
pub mod Reachable
pub mod Served
