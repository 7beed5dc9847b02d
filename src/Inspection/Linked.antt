-- ===== src/Inspection/Linked.antt =====
-- When the source is proven to be what was built (`source_to_build_link` of
-- src/kratos_guard/core/artifacts.py).
use kratos_agent_guard.Prelude.{◌≡◌, ◌≢◌, ◌↔◌, true, arith, eq_iff}
use kratos_agent_guard.Text.{starts_with}
use kratos_agent_guard.Gate.Qualified.{proven}
use kratos_agent_guard.Inspection.Provenance.{
  SourceIdentity, ArtifactIdentity, hash_contradicts, head_contradicts, both_match, link_verdict,
  source_to_build_link,
}

-- The link is proven exactly when the artifact names the source's manifest hash and a non-empty prefix
-- of the source's Git head.
pub source_to_build_link-proven_iff :
    (s : SourceIdentity) (a : ArtifactIdentity)
    → ((source_to_build_link s a).verdict ≡ proven) ↔ (
        (a.embedded_source_hash ≡ s.manifest_sha256)
        × (a.embedded_git_head ≢ "")
        × (starts_with a.embedded_git_head s.head ≡ true))
unfolding source_to_build_link link_verdict hash_contradicts head_contradicts both_match
source_to_build_link-proven_iff s a = (
  λ h. ground (
    arith,
    h,
    eq_iff a.embedded_source_hash s.manifest_sha256,
    eq_iff a.embedded_git_head "",
    eq_iff a.embedded_source_hash "",
  ),
  λ h. ground (
    arith,
    h.0,
    h.1,
    h.2,
    eq_iff a.embedded_source_hash s.manifest_sha256,
    eq_iff a.embedded_git_head "",
    eq_iff a.embedded_source_hash "",
  ),
)
