-- ===== src/Enroll.antt =====
-- internal/security/enroll: the enrollment token store and the limiter of enrollment attempts.
mod Examples
pub mod Token
pub mod Store
pub mod RateLimit
pub mod Sans
pub mod Service
pub mod Handler
pub mod Recorder
