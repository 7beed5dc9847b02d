-- ===== src/Tests/Initialising.antt =====
-- Runs of `initialise_configuration` and `write_service_template` (src/kratos_guard/core/operations.py).
use Prim.Native.String.{◌++◌}
use kratos_agent_guard.Prelude.{String, ◌≡◌, refl, some, none}
use kratos_agent_guard.Failure.{Kind, Result, ok, fail}
use kratos_agent_guard.Stateful.{stateful_steps}
use kratos_agent_guard.Signing.Store.{restrict_key_directory}
use kratos_agent_guard.Signing.Lifecycle.{export_trust_bundle, copy_over}
use kratos_agent_guard.Configuration.Folders.{GuardConfiguration, PathContext}
use kratos_agent_guard.Configuration.Initialise.{
  SetupWorld, Join, default_configuration, accept_default, create_configuration,
  initialise_configuration, unix_newlines, write_service_template,
}
use kratos_agent_guard.Tests.Toy.{toy}
use kratos_agent_guard.Tests.Appending
use kratos_agent_guard.Tests.Appending.{store, append_steps}
use kratos_agent_guard.Tests.Configuration
use kratos_agent_guard.Tests.Configuration.{configuration_steps}

unfoldable setup_steps : Unit {0}
unfolding stateful_steps append_steps configuration_steps restrict_key_directory export_trust_bundle
    copy_over default_configuration accept_default create_configuration initialise_configuration
    unix_newlines write_service_template
setup_steps = tt

-- Every path is taken to lie below every other.
abbrev paths : PathContext
paths = record Configuration.context { commonpath = λ a b. some a }

abbrev slash : Join
slash = λ path name. path ++ "/" ++ name

abbrev empty : SetupWorld
empty = record { store = store; file = none; lock = none }

abbrev made : GuardConfiguration
made = default_configuration slash "/a"

abbrev ready : SetupWorld
ready = (initialise_configuration toy paths slash Appending.context none "/a/config.json" empty).1

-- A second call finds the file.
again_run :
    initialise_configuration toy paths slash Appending.context none "/a/config.json" ready
    ≡ (ok made, ready)
unfolding setup_steps
again_run = refl

abbrev template : String → Result String
template = λ name. ok "[Unit]\r\nA\rB\r\n"

template_run :
    write_service_template template template "systemd" none ≡ (ok tt, some "[Unit]\nA\rB\n")
unfolding setup_steps
template_run = refl

kind_run :
    write_service_template template template "launchd" none
    ≡ (fail Kind.value "SERVICE_TEMPLATE_KIND_INVALID", none)
unfolding setup_steps
kind_run = refl
