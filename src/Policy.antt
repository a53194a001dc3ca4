-- ===== src/Policy.antt =====
-- src/lib/policy: the access policy of the tailnet.
pub mod Tokens
pub mod Model
pub mod Eval
pub mod Hujson
pub mod Document
pub mod Lint
