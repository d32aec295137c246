-- ===== src/Profiles.antt =====
-- api/internal/profiles: the homelab profile's images.
pub mod Images
