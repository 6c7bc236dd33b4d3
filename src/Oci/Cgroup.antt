-- ===== src/Oci/Cgroup.antt =====
-- The container's limits: applyCgroup of cmd/asterkube-init/ociruntime_linux.go.
use asterkube.Prelude.{ℕ, List, [], ◌∷◌, ◌++◌, Option, none, some, if◌then◌else◌, String, ◌==◌}
use asterkube.Prelude.Int.{ℤ, pos}
use Prim.Native.Char.{code}
use asterkube.Prelude.Text.{str_eq, str_append}
use asterkube.Oci.Paths.{path_join}
use asterkube.Oci.Spec.{OciSpec, OciLinux, OciResources, OciCpu}

-- What is written into a file.
pub data Content : Type 0 where
  number : ℤ → Content
  quota_period : ℤ → ℕ → Content

pub record Write : Type 0 where
  pub file : String
  pub content : Content

-- The cgroup's path, "" where there is none, and the files written.
pub record CgroupRun : Type 0 where
  pub path : String
  pub writes : List Write

-- `strings.ReplaceAll(rel, ":", "/")`
unfoldable pub colons_to_slashes : String → String
colons_to_slashes String.[] = String.[]
colons_to_slashes (String.◌∷◌ c s) =
    let rest = colons_to_slashes s in
    if code c == 58 then String.◌∷◌ "/" rest else String.◌∷◌ c rest

-- A limit counts if it is there and positive.
unfoldable pub positive : Option ℤ → Option ℤ
positive (some (pos n)) = if n == 0 then none else some (pos n)
positive _ = none

unfoldable pub period_of : OciCpu → ℕ
period_of cpu = elim cpu.period [ none ↦ 100000 | some p ↦ if p == 0 then 100000 else p ]

unfoldable pub memory_writes : String → OciResources → List Write
memory_writes cg r = elim r.memory [
  | none ↦ []
  | some limit ↦ elim (positive limit) [
    | none ↦ []
    | some n ↦ record { file = path_join (cg ∷ "memory.max" ∷ []); content = number n } ∷ []
  ]
]

unfoldable pub cpu_writes : String → OciResources → List Write
cpu_writes cg r = elim r.cpu [
  | none ↦ []
  | some cpu ↦ elim (positive cpu.quota) [
    | none ↦ []
    | some q ↦
        record { file = path_join (cg ∷ "cpu.max" ∷ []); content = quota_period q (period_of cpu) }
        ∷ []
  ]
]

abbrev limit_writes : String → Option OciResources → List Write
limit_writes cg none = []
limit_writes cg (some r) = memory_writes cg r ++ cpu_writes cg r

unfoldable pub cgroup_path : OciLinux → String → String
cgroup_path linux id =
    let rel =
      if str_eq linux.cgroups_path "" then str_append "/asterkube/" id else linux.cgroups_path in
    path_join ("/sys/fs/cgroup" ∷ colons_to_slashes rel ∷ [])

-- With the error of `os.MkdirAll`. The limits are written before the process enters the cgroup.
unfoldable pub apply_cgroup : Option ℕ → OciSpec → String → ℕ → CgroupRun
unfolding memory_writes cpu_writes
apply_cgroup mkdir_errno spec id pid = elim spec.linux [
  | none ↦ record { path = ""; writes = [] }
  | some linux ↦
      let cg = cgroup_path linux id in
      elim mkdir_errno [
        | some e ↦ record { path = ""; writes = [] }
        | none ↦ record {
          path = cg;
          writes =
              limit_writes cg linux.resources
              ++ record { file = path_join (cg ∷ "cgroup.procs" ∷ []); content = number (pos pid) }
                ∷ [];
        }
      ]
]
