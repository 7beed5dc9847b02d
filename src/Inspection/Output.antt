-- ===== src/Inspection/Output.antt =====
-- What `SafeOutputPolicy.require_safe` (src/kratos_guard/core/path_security.py) lets through.
use kratos_agent_guard.Prelude.{String, ◌≡◌, true, false, List, All}
use kratos_agent_guard.Configuration.Folders.{PathContext, contains}
use kratos_agent_guard.Inspection.Policy.{ProtectedPath, SafeOutputPolicy, is_authorised}

module _ (x : PathContext) (canonical_path : String → String) where
  -- The output lies under no protected path, and under the verifier's root or another authorised one.
  pub record IsSafeOutput (s : SafeOutputPolicy) (candidate : String) : Type 0 where
    pub unprotected :
        All (λ (q : ProtectedPath). contains x q.path candidate ≡ false) s.protected_paths
    pub authorised : is_authorised x canonical_path s candidate ≡ true

  Unprotected : String → List ProtectedPath → Type 0
  Unprotected candidate qs = All (λ (q : ProtectedPath). contains x q.path candidate ≡ false) qs
