-- ===== src/GitWriteback.antt =====
-- internal/gitwriteback: image references edited in the YAML files of a Git working tree.
pub mod Yaml
pub mod Path
pub mod Image
pub mod Document
pub mod Helm
pub mod Target
pub mod Kustomize
pub mod Manifest
pub mod Apply
pub mod Auth
pub mod Repo
