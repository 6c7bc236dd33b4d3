-- ===== src/Entry/Samples.antt =====
-- Processes of the one binary, and the end of a boot.
use asterkube.Prelude.{true, false, [], ◌∷◌, none, ◌≡◌, ◌↔◌, refl, if◌then◌else◌}
use asterkube.Prelude.Text.{str_eq}
use asterkube.Join.{starts, reads_file, fine, text, number, JoinSystem, Environ}
use asterkube.Join.Paths.{Boot}
use asterkube.Join.Persist.{Node}
use asterkube.Entry.{container, Process, guards, role_of}
use asterkube.Entry.Roles.{is_init, IsInit, role_of-IsInit_iff}

abbrev in_a_container : Environ
in_a_container name = if str_eq name "ASTERKUBE_CONTAINER" then "1" else ""

-- A pod's process: it has the pid 1 in its namespace.
abbrev pod_process : Process
pod_process = record { args = "/usr/bin/kubelet" ∷ []; env = in_a_container; pid = 1 }

pod_process_runs : role_of pod_process ≡ container
unfolding role_of guards
pod_process_runs = refl

role_of-IsInit_iff_example : (is_init (role_of pod_process) ≡ true) ↔ IsInit pod_process
role_of-IsInit_iff_example = role_of-IsInit_iff pod_process

-- A system with a join bundle, on which the kubelet registers at once.
abbrev registering : JoinSystem
registering h (starts program args) = number 200
registering h (reads_file path) = text "Successfully registered node"
registering h _ = fine

abbrev boot : Boot
boot = record {
  env = λ name. "";
  discovery = record {
    get = λ url. none;
    find_ca = λ body. none;
    decode = λ ca. none;
    pem_block = λ pem. none;
    public_key = λ der. none;
    sha256 = λ key. "";
  };
  conflist = "{}";
  executable = none;
  network_configured = true;
}

abbrev new_node : Node
new_node = record { live_procs = []; cluster_joined = false }
