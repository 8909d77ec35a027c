-- ===== src/Cert/Renew.antt =====
-- internal/cert/renew: the tasks of the renewal, which scanner.go finds and worker.go works off.
pub mod Scanner
pub mod Worker
pub mod System
