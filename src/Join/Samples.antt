-- ===== src/Join/Samples.antt =====
-- Joins on small inputs, and their theorems there.
use asterkube.Prelude.{
  ◌≤◌, ℕ, zero, suc, ◌+◌, ◌==◌, Bool, true, false, List, [], ◌∷◌, Option, none, some, String, ◌≡◌,
  refl, arith, if◌then◌else◌,
}
use asterkube.Prelude.Words.{Bytes}
use asterkube.Prelude.Text.{str_eq, codes}
use asterkube.Prelude.Prog.{run}
use asterkube.Join.{
  JoinCall, starts, mounts, stats, tells_time, sleeps, reads_file, JoinAnswer, failed, fine, text,
  number, names, JoinHistory, JoinSystem, Environ, Settings, env_lines, env_line, setting,
}
use asterkube.Mount.Fstab.{trim_space}
use asterkube.Prelude.Text.{cut_at}
use asterkube.Join.Bundle.{find_join_bundle, Found, find_join_bundle-found}
use asterkube.Join.Trust.{Discovery, write_bootstrap_kubeconfig}
use asterkube.Join.Kubelet.{started_cmd, watch_registration, watch_fuel, time_of}
use asterkube.Join.Kubelet.Watching.{Shows, slept, slept, Clock, watch_registration-Ends}
use asterkube.Join.Persist.{Node, graceful_shutdown}
use asterkube.Join.Persist.Stopping.{Stopped, graceful_shutdown-Stopped}

-- A system on which the kubelet never registers: its clock goes by the pauses, and every process has the next pid.
abbrev asleep : JoinSystem
asleep h tells_time = number (slept h + 0)
asleep h (starts program args) = number 300
asleep h (stats path) = if str_eq path "/dev/vda" then fine else failed
asleep h _ = fine

abbrev asleep_clock : Clock asleep
asleep_clock = record { lag = λ h. 0; tells = λ h. refl; goes_on = λ c r h. omega arith }

find_join_bundle-found_example :
    Found 0 (run asleep find_join_bundle []).0 (run asleep find_join_bundle []).1
find_join_bundle-found_example = find_join_bundle-found asleep (λ h dir. refl) []

abbrev apiserver : String
apiserver = "https://10.0.2.2:6443"

-- A cluster whose one CA has the hash `AB`, which the command line writes in small letters.
abbrev discovery : Discovery
discovery = record {
  get = λ url. some "certificate-authority-data: Q0E=";
  find_ca = λ body. some "Q0E=";
  decode = λ ca. some (67 ∷ 65 ∷ []);
  pem_block = λ pem. some pem;
  public_key = λ der. some der;
  sha256 = λ key. "AB";
}

abbrev hashed : Environ
hashed name = if str_eq name "ASTERKUBE_CA_HASH" then "sha256:ab" else ""

abbrev config_path : String
config_path = "/run/bootstrap.kubeconfig"

written :
    (run asleep (write_bootstrap_kubeconfig hashed discovery config_path apiserver "t") []).0 ≡ true
unfolding write_bootstrap_kubeconfig asterkube.Join.Trust.cluster_fields trim_space
    asterkube.Mount.Fstab.is_space asterkube.Join.Trust.fetch_and_verify_cluster_ca
    asterkube.Join.Trust.fingerprint asterkube.Join.Trust.equal_fold
    asterkube.Prelude.Words.bytes_eq
written = refl

watch_registration-Ends_example :
    let now = asleep [] tells_time in
    let after =
      run asleep
        (watch_registration watch_fuel (time_of now + 75000) (started_cmd 300) "/run/k.log")
        ((tells_time, now) ∷ []) in
    (b : Bool) × (after.0 ≡ some b)
    × (slept after.1 ≤ slept [] + 75000)
    × Shows (time_of now + 75000) (started_cmd 300) "/run/k.log" b after.1
watch_registration-Ends_example =
    watch_registration-Ends asleep asleep_clock (started_cmd 300) "/run/k.log" []

abbrev containerd_runs : JoinHistory
containerd_runs = (starts "/usr/bin/containerd" [], number 200) ∷ []

abbrev node : Node
node = record { live_procs = started_cmd 200 ∷ started_cmd 300 ∷ []; cluster_joined = true }

graceful_shutdown-Stopped_example :
    Stopped 300 tt (run asleep (graceful_shutdown node) containerd_runs).1
graceful_shutdown-Stopped_example = graceful_shutdown-Stopped asleep node 300 containerd_runs refl

-- The last line of a key counts; comments and lines without a key are passed over.
node_env_read :
    setting "NODE_NAME"
      (env_lines ("NODE_NAME=a" ∷ "# NODE_NAME=b" ∷ "=c" ∷ " NODE_NAME = d " ∷ []) [])
    ≡ "d"
unfolding env_lines env_line cut_at trim_space asterkube.Mount.Fstab.is_space
    asterkube.Prelude.Text.has_prefix
node_env_read = refl
