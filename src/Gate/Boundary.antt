-- ===== src/Gate/Boundary.antt =====
-- What the gates of src/kratos_guard/core/authority_gate.py say of an inspection report.
use kratos_agent_guard.Prelude.{
  String, ◌≡◌, ◌≢◌, ◌↔◌, refl, sym, ap, ◌∙◌, inl, inr, true, false, ◌==◌, Bool-cases,
}
use kratos_agent_guard.Failure.{ok, Result-cases, ok-injective}
use kratos_agent_guard.Gate.Qualified.{
  EvidenceState, proven, contradicted, unproven, not_applicable, inspection_failed, is_proven,
  InspectionReport, GateResult, Chain, Gate, chain_of, gate_at, chain_boundary, level_boundary,
  boundary_of, gate_result, qualified_result, qualified_gate,
}

qualified_gate-parts :
    (r : InspectionReport) (level : String) (g : GateResult)
    → qualified_gate r level ≡ ok g
    → (c : Chain) × (x : Gate) × (chain_of r ≡ ok c)
      × (gate_at c level ≡ ok x)
      × (qualified_result r c level x ≡ g)
unfolding qualified_gate
qualified_gate-parts r level g h = elim (Result-cases (chain_of r)) [
  | inr (e, failed) ↦ cc (rw (failed, qualified_gate) at h)
  | inl (c, found) ↦ elim (Result-cases (gate_at c level)) [
    | inr (e, failed) ↦ cc (rw (found, failed, qualified_gate) at h)
    | inl (x, chosen) ↦
        (c, x, found, chosen, ok-injective (rw (found, chosen, qualified_gate) at h))
  ]
]

gate_at-level : (c : Chain) (level : String) (x : Gate) → gate_at c level ≡ ok x → level ≢ ""
unfolding gate_at
gate_at-level c level x h empty = cc (rw (empty, gate_at) at h)

chain_boundary-ne-empty : (c : Chain) → chain_boundary c ≢ ""
unfolding chain_boundary
chain_boundary-ne-empty c h = elim (Bool-cases (is_proven c.source)) [
  | inr failed ↦ cc (rw (failed, chain_boundary) at h)
  | inl source ↦ elim (Bool-cases (is_proven c.build)) [
    | inr failed ↦ cc (rw (source, failed, chain_boundary) at h)
    | inl build ↦ elim (Bool-cases (is_proven c.runtime)) [
      | inr failed ↦ cc (rw (source, build, failed, chain_boundary) at h)
      | inl runtime ↦ cc (rw (source, build, runtime, chain_boundary) at h)
    ]
  ]
]

level_boundary-ne-empty : (level : String) → level ≢ "" → level_boundary level ≢ ""
level_boundary-ne-empty level named h = elim (Bool-cases (level == "source")) [
  | inl source ↦ cc (rw source at h)
  | inr a ↦ elim (Bool-cases (level == "build")) [
    | inl build ↦ cc (rw (a, build) at h)
    | inr b ↦ elim (Bool-cases (level == "runtime")) [
      | inl runtime ↦ cc (rw (a, b, runtime) at h)
      | inr c ↦ named (rw (a, b, c) at h)
    ]
  ]
]

is_proven-true : (s : EvidenceState) → is_proven s ≡ true → s ≡ proven
is_proven-true proven h = refl
is_proven-true contradicted h = cc h
is_proven-true unproven h = cc h
is_proven-true not_applicable h = cc h
is_proven-true inspection_failed h = cc h

boundary_of-empty :
    (c : Chain) (level : String) (s : EvidenceState)
    → level ≢ ""
    → boundary_of c level s ≡ ""
    → s ≡ proven
unfolding boundary_of
boundary_of-empty c level s named h = elim (Bool-cases (is_proven s)) [
  | inl holds ↦ is_proven-true s holds
  | inr failed ↦ elim (Bool-cases (level == "identity-chain")) [
    | inl chain ↦ absurd (chain_boundary-ne-empty c (rw (failed, chain, boundary_of) at h))
    | inr other ↦
        absurd (level_boundary-ne-empty level named (rw (failed, other, boundary_of) at h))
  ]
]

boundary_of-proven :
    (c : Chain) (level : String) (s : EvidenceState) → s ≡ proven → boundary_of c level s ≡ ""
unfolding boundary_of
boundary_of-proven c level s h = rw h refl

-- A gate names no failing boundary exactly when its verdict is PROVEN.
pub qualified_gate-boundary_iff :
    (r : InspectionReport) (level : String) (g : GateResult)
    → qualified_gate r level ≡ ok g
    → (g.first_failing_boundary ≡ "") ↔ (g.verdict ≡ proven)
unfolding qualified_result gate_result
qualified_gate-boundary_iff r level g h =
    let (c, x, found, chosen, same) = qualified_gate-parts r level g h in
    let boundary = ap (λ (y : GateResult). y.first_failing_boundary) same in
    let verdict = ap (λ (y : GateResult). y.verdict) same in
    (
      λ empty.
          sym verdict
          ∙ boundary_of-empty c level x.state (gate_at-level c level x chosen) (boundary ∙ empty),
      λ is_proven. sym boundary ∙ boundary_of-proven c level x.state (verdict ∙ is_proven),
    )

-- The states that a chain's boundary leaves behind it are proven, and the one at it is not.
pub data FailsAt (c : Chain) : String → Type 0 where
  at_source : is_proven c.source ≡ false → FailsAt c "target-source"
  at_build : is_proven c.source ≡ true → is_proven c.build ≡ false → FailsAt c "source-to-build"
  at_runtime :
      is_proven c.source ≡ true
      → is_proven c.build ≡ true
      → is_proven c.runtime ≡ false
      → FailsAt c "build-to-runtime"
  at_client :
      is_proven c.source ≡ true
      → is_proven c.build ≡ true
      → is_proven c.runtime ≡ true
      → is_proven c.loaded ≡ false
      → FailsAt c "loaded-client"
