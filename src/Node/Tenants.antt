-- ===== src/Node/Tenants.antt =====
-- The tenants of pods: cmd/asterkube-init/tenant_adapter_linux.go, with labelIP and prctlMacMode of the
-- files socket_mac_probe_linux.go and mac_probe_linux.go as calls.

pub mod Labels
use asterkube.Prelude.{
  ℕ, Bool, true, false, ◌||◌, not, ◌==◌, List, [], ◌∷◌, Option, none, some, or_else, String,
  if◌then◌else◌,
}
use asterkube.Prelude.Int.{ℤ, pos}
use asterkube.Prelude.Text.{str_eq, codes, has_prefix, cut_prefix}
use asterkube.Prelude.Decimal.{atoi}
use asterkube.Prelude.Prog.{Prog, ret, ask, bind, ◌>>=◌, ◌>>◌}
use asterkube.Inet.{parse_ip4, pack_ip4}
use asterkube.Node.{PodSpec, labels_ip, sets_mode, NodeProg, is_refused}

unfoldable pub ip_to_be : String → ℕ
ip_to_be s = elim (parse_ip4 s) [ none ↦ 0 | some v4 ↦ pack_ip4 v4 ]

abbrev pub mac_mode_permissive : ℕ
mac_mode_permissive = 1

abbrev pub mac_mode_enforcing : ℕ
mac_mode_enforcing = 2

-- The address that is labelled for a pod.
unfoldable pub tenant_ip : PodSpec → Option String
tenant_ip s = if s.tenant == 0 then none else elim s.network [
  | none ↦ none
  | some n ↦ if str_eq n.pod_ip "" then none else some n.pod_ip
]

-- The loop of applyTenantLabels: whether any label was taken.
unfoldable pub label_pods : List PodSpec → Bool → NodeProg Bool
label_pods [] labeled = ret labeled
label_pods (s ∷ specs) labeled = elim (tenant_ip s) [
  | none ↦ label_pods specs labeled
  | some ip ↦ ask (labels_ip (ip_to_be ip) s.tenant) >>= λ r.
      label_pods specs (labeled || not (is_refused r))
]

unfoldable pub apply_tenant_labels : List PodSpec → NodeProg (Unit {0})
apply_tenant_labels specs = label_pods specs false >>= λ labeled.
    if labeled then ask (sets_mode mac_mode_enforcing) >> ret tt else ret tt

unfoldable pub unlabel_pods : List PodSpec → NodeProg (Unit {0})
unlabel_pods [] = ret tt
unlabel_pods (s ∷ specs) = elim (tenant_ip s) [
  | none ↦ unlabel_pods specs
  | some ip ↦ ask (labels_ip (ip_to_be ip) 0) >> unlabel_pods specs
]

unfoldable pub cleanup_tenant_labels : List PodSpec → NodeProg (Unit {0})
cleanup_tenant_labels specs = do
  _ ← unlabel_pods specs
  _ ← ask (sets_mode mac_mode_permissive)
  ret tt

abbrev tenant_of : Option ℤ → Option ℕ
tenant_of (some (pos n)) = if n == 0 then none else some n
tenant_of _ = none

-- The tenant that containerSetTenant asks prctl(2) for, by the variable it reads.
unfoldable pub container_set_tenant : String → Option ℕ
container_set_tenant t = if str_eq t "" then none else tenant_of (atoi (codes t))

-- The value that a process finds under a name (its prefix `NAME=`), when it is started with a list of entries:
-- os/exec passes the last entry of each name on.
unfoldable pub last_value : String → List String → Option String
last_value p [] = none
last_value p (e ∷ es) = elim (last_value p es) [
  | some v ↦ some v
  | none ↦ if has_prefix e p then some (cut_prefix e p) else none
]

abbrev pub tenant_prefix : String
tenant_prefix = "ASTERKUBE_POD_TENANT="

-- os.Getenv: the empty text for a name that is not set.
unfoldable pub tenant_variable : List String → String
tenant_variable env = or_else (last_value tenant_prefix env) ""
