-- ===== src/Gate/Qualified.antt =====
-- `gate_result`, `qualified_gate` and `_best_link` of src/kratos_guard/core/authority_gate.py, on the
-- parts of an inspection report that they read.
use Prim.Native.String.{◌++◌}
use kratos_agent_guard.Prelude.{
  ℕ, String, Bool, true, false, not, ◌&&◌, ◌||◌, Option, none, some, List, [], ◌∷◌, ◌==◌,
  if◌then◌else◌,
}
use kratos_agent_guard.Failure.{Kind, Result, ok, fail, ◌>>=◌}

pub data EvidenceState : Type 0 where
  proven contradicted unproven not_applicable inspection_failed : EvidenceState

-- `EXIT_CODES`
unfoldable pub exit_code_of : EvidenceState → ℕ
exit_code_of proven = 0
exit_code_of not_applicable = 0
exit_code_of unproven = 2
exit_code_of contradicted = 3
exit_code_of inspection_failed = 4

-- `str(state)`
abbrev pub state_text : EvidenceState → String
state_text proven = "PROVEN"
state_text contradicted = "CONTRADICTED"
state_text unproven = "UNPROVEN"
state_text not_applicable = "NOT_APPLICABLE"
state_text inspection_failed = "INSPECTION_FAILED"

abbrev pub is_proven : EvidenceState → Bool
is_proven proven = true
is_proven contradicted = false
is_proven unproven = false
is_proven not_applicable = false
is_proven inspection_failed = false

abbrev pub is_contradicted : EvidenceState → Bool
is_contradicted contradicted = true
is_contradicted proven = false
is_contradicted unproven = false
is_contradicted not_applicable = false
is_contradicted inspection_failed = false

-- A provenance link counts by its verdict; a loaded client by its state; a manifest by its digest.
pub record InspectionReport : Type 0 where
  pub target_source : EvidenceState
  pub source_to_build_links : List EvidenceState
  pub build_to_runtime_links : List EvidenceState
  pub target_loaded_clients : List EvidenceState
  pub contradictions : List String
  pub uncertainties : List String
  pub source_manifest : Option String
  pub build_artifacts : List String

pub record GateResult : Type 0 where
  pub gate_id : String
  pub scope : String
  pub claim : String
  pub verdict : EvidenceState
  pub exit_code : ℕ
  pub summary : String
  pub evidence_references : List String
  pub blockers : List String
  pub uncertainties : List String
  pub first_failing_boundary : String

abbrev pub text_or : String → String → String
text_or text other = if text == "" then other else text

-- `gate_result(state, summary, ...)`
unfoldable pub gate_result :
    EvidenceState → String → String → String → String → String → List String → GateResult
unfolding exit_code_of
gate_result state summary gate_id scope claim boundary blockers = record {
  gate_id = gate_id;
  scope = scope;
  claim = text_or claim summary;
  verdict = state;
  exit_code = exit_code_of state;
  summary = summary;
  evidence_references = [];
  blockers = blockers;
  uncertainties = [];
  first_failing_boundary = boundary;
}

unfoldable pub any_contradicted : List EvidenceState → Bool
any_contradicted [] = false
any_contradicted (s ∷ ss) = is_contradicted s || any_contradicted ss

unfoldable pub any_proven : List EvidenceState → Bool
any_proven [] = false
any_proven (s ∷ ss) = is_proven s || any_proven ss

-- `_best_link(links)`
unfoldable pub best_link : List EvidenceState → EvidenceState
best_link links =
    if any_contradicted links then contradicted else if any_proven links then proven else unproven

-- `report.target_loaded_clients[0].state`
abbrev pub first_client : List EvidenceState → Result EvidenceState
first_client [] = fail Kind.index "list index out of range"
first_client (s ∷ ss) = ok s

-- The four states that the gates read.
pub record Chain : Type 0 where
  pub source : EvidenceState
  pub build : EvidenceState
  pub runtime : EvidenceState
  pub loaded : EvidenceState

unfoldable pub chain_of : InspectionReport → Result Chain
chain_of r = do
  client ← first_client r.target_loaded_clients
  ok (record {
    source = r.target_source;
    build = best_link r.source_to_build_links;
    runtime = best_link r.build_to_runtime_links;
    loaded = client;
  })

unfoldable pub is_complete : Chain → Bool
is_complete c = is_proven c.source && is_proven c.build && is_proven c.runtime && is_proven c.loaded

unfoldable pub chain_state : Chain → EvidenceState
unfolding is_complete
chain_state c = if is_complete c then proven else unproven

-- An entry of `states`.
pub record Gate : Type 0 where
  pub state : EvidenceState
  pub gate_id : String
  pub claim : String

abbrev gate : EvidenceState → String → String → Gate
gate state gate_id claim = record { state = state; gate_id = gate_id; claim = claim }

-- `states[level]`, or the error for a level that is not there.
unfoldable pub gate_at : Chain → String → Result Gate
gate_at c level =
    if level == "source"
    then ok (gate c.source "TARGET_SOURCE_AUTHORITY_PROVEN" "target source repository identity")
    else if level == "build"
    then ok (gate c.build "SOURCE_TO_BUILD_LINK_PROVEN" "source-to-build provenance")
    else if level == "runtime"
    then ok (gate c.runtime "BUILD_TO_RUNTIME_LINK_PROVEN" "build-to-runtime provenance")
    else if level == "loaded-client"
    then ok (gate c.loaded "TARGET_LOADED_CLIENT_PROVEN" "live loaded-client identity")
    else if level == "identity-chain"
    then ok (
        gate (chain_state c) "COMPLETE_IDENTITY_CHAIN_PROVEN"
          "complete source-build-runtime-loaded identity chain")
    else fail Kind.value "unknown gate level"

abbrev not_proven : EvidenceState → Bool
not_proven s = not (is_proven s)

-- The boundary of the identity chain: its first state that is not proven.
unfoldable pub chain_boundary : Chain → String
chain_boundary c =
    if not_proven c.source
    then "target-source"
    else if not_proven c.build
    then "source-to-build"
    else if not_proven c.runtime
    then "build-to-runtime"
    else "loaded-client"

-- `boundaries.get(level, level)`
abbrev pub level_boundary : String → String
level_boundary level =
    if level == "source"
    then "target-source"
    else if level == "build"
    then "source-to-build"
    else if level == "runtime"
    then "build-to-runtime"
    else level

unfoldable pub boundary_of : Chain → String → EvidenceState → String
boundary_of c level state =
    if is_proven state
    then ""
    else if level == "identity-chain"
    then chain_boundary c
    else level_boundary level

unfoldable pub summary_of : Chain → String → Gate → String
summary_of c level g =
    if level == "identity-chain" && is_proven c.source
    then "SOURCE_AUTHORITY_PROVEN_IDENTITY_CHAIN_INCOMPLETE"
    else if is_proven g.state
    then g.gate_id
    else g.gate_id ++ "_" ++ state_text g.state

unfoldable pub drop_empty : List String → List String
drop_empty [] = []
drop_empty (s ∷ ss) = let rest = drop_empty ss in if s == "" then rest else s ∷ rest

abbrev manifest_text : Option String → String
manifest_text none = ""
manifest_text (some hash) = hash

unfoldable pub qualified_result : InspectionReport → Chain → String → Gate → GateResult
qualified_result r c level g =
    record (gate_result g.state (summary_of c level g) g.gate_id level g.claim
      (boundary_of c level g.state) (if is_contradicted g.state then r.contradictions else [])) {
        uncertainties = r.uncertainties;
        evidence_references = drop_empty (manifest_text r.source_manifest ∷ r.build_artifacts);
      }

-- `qualified_gate(report, level)`
unfoldable pub qualified_gate : InspectionReport → String → Result GateResult
qualified_gate r level = do c ← chain_of r; g ← gate_at c level; ok (qualified_result r c level g)
