-- ===== src/Signing/Permanence.antt =====
-- What the methods of the key store leave behind for good: every file of the trust directory.
use kratos_agent_guard.Prelude.{
  ℕ, String, ◌≡◌, Bool, true, false, arith, Option-cases, inl, inr, List, [], ◌∷◌,
}
use kratos_agent_guard.Failure.{Kind, ok}
use kratos_agent_guard.Models.{KeyRotationRecord, KeyRevocationRecord}
use kratos_agent_guard.Primitives.{Primitives, Stored, written}
use kratos_agent_guard.Signing.Store.{
  KeyStore, ◌>>=◌, ◌>>◌, modify, gets, raise_if, restrict_key_directory, generate, create_key,
  initialise_key, is_some,
}
use kratos_agent_guard.Signing.Lifecycle.{
  export_trust_bundle, export_if, publish_rotation, publish_revocation, replace_private,
  rotate_locked, rotate_from, rotate_key, revoke_key, verify_local_payload_signature, put_rotation,
}
use kratos_agent_guard.Signing.Growth.{
  Grows, Grows-refl, Grows-trans, GrowsTrust, GrowsTrust-same, GrowsTrust-bind, GrowsTrust-if,
  GrowsTrust-lift, GrowsTrust-gets, GrowsTrust-reads, GrowsTrust-raise_if, GrowsTrust-while_locked,
  put_rotation-Grows, put_revocation-Grows, write_local-GrowsTrust,
}

GrowsTrust-modify :
    (f : KeyStore → KeyStore) → ((s : KeyStore) → (f s).trust ≡ s.trust) → GrowsTrust (modify f)
GrowsTrust-modify f same = GrowsTrust-same (modify f) same

ruleset growth_rules = (
  GrowsTrust-bind, GrowsTrust-if, GrowsTrust-lift, GrowsTrust-gets, GrowsTrust-reads,
  GrowsTrust-raise_if, GrowsTrust-while_locked, GrowsTrust-modify, write_local-GrowsTrust,
)

generate-GrowsTrust : GrowsTrust generate
unfolding generate
generate-GrowsTrust = record { at = λ s. Grows-refl s.trust }

restrict-GrowsTrust : GrowsTrust restrict_key_directory
unfolding restrict_key_directory
restrict-GrowsTrust = GrowsTrust-same restrict_key_directory (λ s. ground arith)

-- `open("x")`: a record is only added where there is no file.
fresh_rotation-GrowsTrust :
    (j k : String) (t : Stored KeyRotationRecord) (c : Kind) (m : String)
    → GrowsTrust (do
      exists ← gets (λ s. is_some (s.trust.rotation j k))
      raise_if exists c m
      modify (λ s. record s { trust = put_rotation j k t s.trust }))
fresh_rotation-GrowsTrust j k t c m = record {
  at = λ s. elim (Option-cases (s.trust.rotation j k)) [
    | inl free ↦ rw free (put_rotation-Grows j k t s.trust free)
    | inr (u, there) ↦ rw there (Grows-refl s.trust)
  ];
}

module _ (p : Primitives) where
  create-GrowsTrust : GrowsTrust (create_key p)
  unfolding create_key
  create-GrowsTrust = search (growth_rules, generate-GrowsTrust, restrict-GrowsTrust) depth 12

  initialise-GrowsTrust : GrowsTrust (initialise_key p)
  unfolding initialise_key
  initialise-GrowsTrust = search (growth_rules, create-GrowsTrust) depth 12

  export-GrowsTrust : GrowsTrust (export_trust_bundle p)
  unfolding export_trust_bundle
  export-GrowsTrust = search (growth_rules, initialise-GrowsTrust) depth 12

  pub export_if-GrowsTrust : (export : Bool) → GrowsTrust (export_if p export)
  unfolding export_if
  export_if-GrowsTrust true = export-GrowsTrust
  export_if-GrowsTrust false = GrowsTrust-lift (ok tt)

  publish-GrowsTrust :
      (old new : String) (r : KeyRotationRecord) → GrowsTrust (publish_rotation p old new r)
  unfolding publish_rotation
  publish-GrowsTrust old new r = search (growth_rules, fresh_rotation-GrowsTrust) depth 12

  replace-GrowsTrust : (key_id new : String) → GrowsTrust (replace_private p key_id new)
  unfolding replace_private
  replace-GrowsTrust key_id new = search growth_rules depth 12

  rotate_locked-GrowsTrust :
      (key_id old reason : String) (export : Bool) (now : ℕ)
      → GrowsTrust (rotate_locked p key_id old reason export now)
  unfolding rotate_locked
  rotate_locked-GrowsTrust key_id old reason export now =
      search
        (
          growth_rules, generate-GrowsTrust, publish-GrowsTrust, replace-GrowsTrust,
          export_if-GrowsTrust,
        )
        depth 14

  rotate-GrowsTrust :
      (reason : String) (export : Bool) (now : ℕ) → GrowsTrust (rotate_key p reason export now)
  unfolding rotate_key rotate_from
  rotate-GrowsTrust reason export now =
      search (growth_rules, initialise-GrowsTrust, rotate_locked-GrowsTrust) depth 14

  publish_revocation-GrowsTrust :
      (k : String) (r : KeyRevocationRecord) → GrowsTrust (publish_revocation p k r)
  unfolding publish_revocation
  publish_revocation-GrowsTrust k r = record {
    at = λ s. elim (Option-cases (s.trust.revocation k)) [
      | inl free ↦ rw free (put_revocation-Grows k (written r) s.trust free)
      | inr (u, there) ↦ rw there (Grows-refl s.trust)
    ];
  }

  revoke-GrowsTrust :
      (key_id reason : String) (export : Bool) (now : ℕ)
      → GrowsTrust (revoke_key p key_id reason export now)
  unfolding revoke_key
  revoke-GrowsTrust key_id reason export now =
      search
        (growth_rules, initialise-GrowsTrust, publish_revocation-GrowsTrust, export_if-GrowsTrust)
        depth 14

  verify_local-GrowsTrust :
      (payload signature key_id : String)
      → GrowsTrust (verify_local_payload_signature p payload signature key_id)
  unfolding verify_local_payload_signature
  verify_local-GrowsTrust payload signature key_id =
      search (growth_rules, initialise-GrowsTrust) depth 12

-- A call of a method of the key store, whose result or exception is dropped.
pub data KeyOperation : Type 0 where
  initialise : KeyOperation
  rotate : String → Bool → ℕ → KeyOperation
  revoke : String → String → Bool → ℕ → KeyOperation
  verify_local : String → String → String → KeyOperation

module _ (p : Primitives) where
  pub apply : KeyOperation → KeyStore → KeyStore
  apply initialise s = (initialise_key p s).1
  apply (rotate reason export now) s = (rotate_key p reason export now s).1
  apply (revoke key_id reason export now) s = (revoke_key p key_id reason export now s).1
  apply (verify_local payload signature key_id) s =
      (verify_local_payload_signature p payload signature key_id s).1

  pub apply_all : List KeyOperation → KeyStore → KeyStore
  apply_all [] s = s
  apply_all (o ∷ os) s = apply_all os (apply o s)

  apply-Grows : (o : KeyOperation) (s : KeyStore) → Grows s.trust (apply o s).trust
  unfolding apply
  apply-Grows initialise s = (initialise-GrowsTrust p).at s
  apply-Grows (rotate reason export now) s = (rotate-GrowsTrust p reason export now).at s
  apply-Grows (revoke key_id reason export now) s =
      (revoke-GrowsTrust p key_id reason export now).at s
  apply-Grows (verify_local payload signature key_id) s =
      (verify_local-GrowsTrust p payload signature key_id).at s

  -- Whatever methods of the key store are called, and whether each returns or raises, no file of
  -- the local trust directory is changed or removed.
  pub apply_all-Grows :
      (os : List KeyOperation) (s : KeyStore) → Grows s.trust (apply_all os s).trust
  unfolding apply_all
  apply_all-Grows [] s = Grows-refl s.trust
  apply_all-Grows (o ∷ os) s = Grows-trans (apply-Grows o s) (apply_all-Grows os (apply o s))
