-- ===== src/Policy.antt =====
-- internal/policy/policy.go: choosing a tag.
pub mod Natural
pub mod Stable
pub mod Select
