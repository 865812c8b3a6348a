-- ===== src/Runtime.antt =====
-- The state that a service call works on, the errors that it may return, and the facade of the
-- services (internal/service/service.go, errors.go, guard.go, tenant_context.go).
pub mod Rows
pub mod World
pub mod Errors
pub mod Facade
pub mod Holds
