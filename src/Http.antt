-- ===== src/Http.antt =====
-- internal/infra/http: what decides before and around a handler.
pub mod BodyShape
