-- ===== src/Inspection/Policy.antt =====
-- The policies of src/kratos_guard/core/policy.py and src/kratos_guard/core/path_security.py, and the
-- verdict of src/kratos_guard/core/bootstrap_gate.py.
use Prim.Native.String.{compare}
use text.Mathlib.Text.{is_le}
use kratos_agent_guard.Prelude.{
  ℕ, zero, suc, String, Bool, true, false, not, ◌&&◌, ◌||◌, Option, none, some, List, [], ◌∷◌, eqb,
  ◌==◌, if◌then◌else◌,
}
use kratos_agent_guard.Failure.{Kind, Result, ok, fail}
use kratos_agent_guard.Configuration.Folders.{PathContext, contains}

-- `name in names`
unfoldable pub is_one_of : String → List String → Bool
is_one_of name [] = false
is_one_of name (n ∷ ns) = name == n || is_one_of name ns

-- `READ_ONLY_GIT_SUBCOMMANDS`
abbrev pub read_only_git_subcommands : List String
read_only_git_subcommands = "branch" ∷ "diff" ∷ "ls-files" ∷ "remote" ∷ "rev-parse" ∷ "status" ∷ []

-- `assert_read_only_git(argv)`
unfoldable pub assert_read_only_git : List String → Result (Unit {0})
unfolding is_one_of
assert_read_only_git [] = fail Kind.permission "Git subcommand is not read-only allowlisted: []"
assert_read_only_git (command ∷ arguments) =
    if is_one_of command read_only_git_subcommands
    then ok tt
    else fail Kind.permission "Git subcommand is not read-only allowlisted: "

-- A child of the target: its name and resolved path, its size and the time of its last change.
pub record Child : Type 0 where
  pub name : String
  pub path : String
  pub size : ℕ
  pub modified_at : ℕ

-- The target: nothing, a file, or a folder with its children.
pub data Target : Type 0 where
  absent : Target
  file : Child → Target
  folder : List Child → Target

-- `result`, as the list of the items in the order in which they are put.
abbrev pub TargetSnapshot : Type 0
TargetSnapshot = List Child

unfoldable pub insert_child : Child → List Child → List Child
insert_child c [] = c ∷ []
insert_child c (d ∷ ds) =
    let rest = insert_child c ds in if is_le (compare c.name d.name) then c ∷ d ∷ ds else d ∷ rest

-- `sorted(children, key=lambda item: item.name)`, without `.git`
unfoldable pub sorted_children : List Child → List Child
unfolding insert_child
sorted_children [] = []
sorted_children (c ∷ cs) =
    let rest = sorted_children cs in if c.name == ".git" then rest else insert_child c rest

unfoldable pub first_children : ℕ → List Child → List Child
first_children zero cs = []
first_children (suc n) [] = []
first_children (suc n) (c ∷ cs) = c ∷ first_children n cs

-- `filesystem_snapshot(target)`
unfoldable pub filesystem_snapshot : Target → TargetSnapshot
unfolding sorted_children first_children
filesystem_snapshot absent = []
filesystem_snapshot (file c) = c ∷ []
filesystem_snapshot (folder cs) = first_children 500 (sorted_children cs)

-- The value under a path: the last child with that resolved path.
unfoldable pub value_at : String → TargetSnapshot → Option Child
value_at path [] = none
value_at path (c ∷ cs) = elim (value_at path cs) [
  | none ↦ if c.path == path then some c else none
  | some later ↦ some later
]

abbrev same_value : Option Child → Option Child → Bool
same_value none none = true
same_value none (some d) = false
same_value (some c) none = false
same_value (some c) (some d) = eqb c.size d.size && eqb c.modified_at d.modified_at

-- The two dicts have one value under every path of the list.
unfoldable pub agree_on : List Child → TargetSnapshot → TargetSnapshot → Bool
unfolding value_at
agree_on [] before after = true
agree_on (c ∷ cs) before after =
    same_value (value_at c.path before) (value_at c.path after) && agree_on cs before after

-- `assert_target_unchanged(before, target)`
unfoldable pub assert_target_unchanged : TargetSnapshot → Target → Result (Unit {0})
unfolding agree_on filesystem_snapshot
assert_target_unchanged before target =
    let after = filesystem_snapshot target in
    if agree_on before before after && agree_on after before after
    then ok tt
    else fail Kind.runtime "target filesystem changed during read-only inspection"

pub record ProtectedPath : Type 0 where
  pub path : String
  pub reason : String

pub record PathContainmentResult : Type 0 where
  pub candidate : String
  pub protected_path : String
  pub contained : Bool
  pub reason : String

pub record SafeOutputPolicy : Type 0 where
  pub verifier_root : String
  pub authorised_external_roots : List String
  pub protected_paths : List ProtectedPath

-- The verdicts of `bootstrap_verdict`.
pub data BootstrapVerdict : Type 0 where
  blocked_remote_authority blocked_standalone_boundary blocked_local_path_ownership :
      BootstrapVerdict
  pass_to_bootstrap : BootstrapVerdict

-- The fields of `BootstrapFacts` that the verdict reads.
pub record BootstrapFacts : Type 0 where
  pub remote_matches : Bool
  pub remote_empty : Bool
  pub local_entries : List String
  pub inside_target_worktree : Bool

unfoldable pub any_unauthorised : List String → Bool
any_unauthorised [] = false
any_unauthorised (e ∷ es) = not (e == "evidence") || any_unauthorised es

-- `bootstrap_verdict(facts)`
unfoldable pub bootstrap_verdict : BootstrapFacts → BootstrapVerdict
unfolding any_unauthorised
bootstrap_verdict f =
    if not f.remote_matches || not f.remote_empty
    then blocked_remote_authority
    else if f.inside_target_worktree
    then blocked_standalone_boundary
    else if any_unauthorised f.local_entries
    then blocked_local_path_ownership
    else pass_to_bootstrap

-- `canonical_path` is a parameter beside the path functions of the context.
module _ (x : PathContext) (canonical_path : String → String) where
  unfoldable pub any_contains : List String → String → Bool
  unfolding contains
  any_contains [] candidate = false
  any_contains (root ∷ roots) candidate = contains x root candidate || any_contains roots candidate

  unfoldable pub is_authorised : SafeOutputPolicy → String → Bool
  unfolding any_contains
  is_authorised s candidate =
      contains x s.verifier_root candidate || any_contains s.authorised_external_roots candidate

  -- The loop over the protected paths, and what comes after it.
  unfoldable pub evaluate_from :
      SafeOutputPolicy → String → List ProtectedPath → PathContainmentResult
  unfolding is_authorised
  evaluate_from s candidate [] = record {
    candidate = candidate;
    protected_path = "";
    contained = false;
    reason =
        if is_authorised s candidate
        then "authorised output root"
        else "outside authorised output roots";
  }
  evaluate_from s candidate (q ∷ qs) =
      let rest = evaluate_from s candidate qs in
      if contains x q.path candidate
      then record {
        candidate = candidate;
        protected_path = canonical_path q.path;
        contained = true;
        reason = q.reason;
      }
      else rest

  -- `SafeOutputPolicy.evaluate(output)`
  unfoldable pub evaluate : SafeOutputPolicy → String → PathContainmentResult
  evaluate s output = evaluate_from s (canonical_path output) s.protected_paths

  -- `SafeOutputPolicy.require_safe(output)`
  unfoldable pub require_safe : SafeOutputPolicy → String → Result String
  unfolding evaluate
  require_safe s output =
      let result = evaluate s output in
      if result.contained || not (result.reason == "authorised output root")
      then fail Kind.value "unsafe output path: "
      else ok result.candidate
