-- ===== src/Tests/Gate.antt =====
-- Runs of the gates (src/kratos_guard/core/authority_gate.py).
use kratos_agent_guard.Prelude.{◌≡◌, refl, some, [], ◌∷◌}
use kratos_agent_guard.Gate.Qualified.{
  proven, unproven, contradicted, InspectionReport, GateResult, Chain, best_link, any_proven,
  any_contradicted, chain_of, is_complete, chain_state, gate_at, chain_boundary, boundary_of,
  summary_of, exit_code_of, gate_result, drop_empty, qualified_result, qualified_gate,
}

-- A complete chain.
abbrev report : InspectionReport
report = record {
  target_source = proven;
  source_to_build_links = unproven ∷ proven ∷ [];
  build_to_runtime_links = proven ∷ [];
  target_loaded_clients = proven ∷ [];
  contradictions = [];
  uncertainties = [];
  source_manifest = some "m";
  build_artifacts = "" ∷ "a" ∷ [];
}

unfoldable gate_steps : Unit {0}
unfolding best_link any_proven any_contradicted chain_of is_complete chain_state gate_at
    chain_boundary boundary_of summary_of exit_code_of gate_result drop_empty qualified_result
    qualified_gate
gate_steps = tt

abbrev complete : GateResult
complete = record {
  gate_id = "COMPLETE_IDENTITY_CHAIN_PROVEN";
  scope = "identity-chain";
  claim = "complete source-build-runtime-loaded identity chain";
  verdict = proven;
  exit_code = 0;
  summary = "SOURCE_AUTHORITY_PROVEN_IDENTITY_CHAIN_INCOMPLETE";
  evidence_references = "m" ∷ "a" ∷ [];
  blockers = [];
  uncertainties = [];
  first_failing_boundary = "";
}

abbrev chain : Chain
chain = record { source = proven; build = proven; runtime = proven; loaded = proven }

contradicted_run : best_link (proven ∷ contradicted ∷ []) ≡ contradicted
unfolding gate_steps
contradicted_run = refl
