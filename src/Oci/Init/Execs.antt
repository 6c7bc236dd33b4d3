-- ===== src/Oci/Init/Execs.antt =====
-- When a container's program runs.
use asterkube.Prelude.{none, some, ◌≡◌, String}
use asterkube.Oci.Spec.{OciSpec, OciProcess, join_namespaces}
use asterkube.Oci.Rootfs.{setup_rootfs}
use asterkube.Oci.Containers.{rootfs_of}
use asterkube.Oci.Init.{Execve, InitEnv}

-- What has happened when a container's program runs.
pub record Ready (env : InitEnv) (bundle : String) (x : Execve) : Type 0 where
  pub spec : OciSpec
  pub process : OciProcess
  pub has_spec : env.spec ≡ some spec
  pub all_joined : (join_namespaces env.join spec).err ≡ none
  pub fifo_open : env.open_fifo ≡ none
  pub root_set : (setup_rootfs env.root (rootfs_of bundle spec) spec).err ≡ none
  pub started : env.reopen ≡ none
  pub signalled : env.signal ≡ none
  pub has_process : spec.process ≡ some process
  pub command : x.args ≡ process.args
  pub environment : x.env ≡ process.env
