-- ===== src/Node/Bridged/Environment.antt =====
-- The tenant that the container of a bridged pod finds in its environment.
use asterkube.Prelude.{
  ◌<◌, true, false, List, [], ◌∷◌, ◌++◌, none, some, ◌≡◌, ◌≢◌, refl, sym, append_assoc, ap, ◌∙◌,
  if_both, if_cases, ◌==◌, arith, String, if◌then◌else◌, ℕ, Option, or_else,
}
use asterkube.Prelude.Text.{
  str_append, str_eq, has_prefix, cut_prefix, has_prefix-str_append, cut_prefix-str_append,
  str_append_assoc, apart, apart-has_prefix,
}
use asterkube.Prelude.Decimal.{itoa, atoi-itoa, str_eq-itoa, print_int}
use asterkube.Node.{PodSpec, PodNetwork, env_entry}
use asterkube.Node.Start.{container_env, tenant_entry}
use asterkube.Node.Tenants.{last_value, tenant_prefix, tenant_variable, container_set_tenant}
use asterkube.Node.Bridged.{bridged_env, when_set, masq_entries, service_entries, vport_of, vip_of}

last_value-behind :
    (p : String) (xs ys : List String) (v : String)
    → last_value p ys ≡ some v
    → last_value p (xs ++ ys) ≡ some v
unfolding last_value
last_value-behind p [] ys v h = h
last_value-behind p (x ∷ xs) ys v h = ground (arith, last_value-behind p xs ys v h)

-- Entries of other names.
data NoEntry (p : String) : List String → Type 0 where
  no_more : NoEntry p []
  other :
      {e : String} {env : List String}
      → has_prefix e p ≡ false
      → NoEntry p env
      → NoEntry p (e ∷ env)

NoEntry-last_value : (p : String) (env : List String) → NoEntry p env → last_value p env ≡ none
unfolding last_value
NoEntry-last_value p [] no_more = refl
NoEntry-last_value p (e ∷ env) (other h n) = ground (arith, h, NoEntry-last_value p env n)

NoEntry-append :
    {p : String} {xs ys : List String} → NoEntry p xs → NoEntry p ys → NoEntry p (xs ++ ys)
NoEntry-append no_more k = k
NoEntry-append (other h n) k = other h (NoEntry-append n k)

-- The entries of a name that is not the tenant's.
module _ (name value : String) (a : apart name tenant_prefix ≡ true) where
  told :
      {env : List String}
      → NoEntry tenant_prefix env
      → NoEntry tenant_prefix (env_entry name value ∷ env)
  told n = other (apart-has_prefix name tenant_prefix (str_append "=" value) a) n

  told_if_set : NoEntry tenant_prefix (when_set value (env_entry name value ∷ []))
  told_if_set = if_both (NoEntry tenant_prefix) (str_eq value "") no_more (told no_more)

masq_entries-NoEntry : (n : PodNetwork) → NoEntry tenant_prefix (masq_entries n)
unfolding apart
masq_entries-NoEntry n = if_both (NoEntry tenant_prefix) (str_eq n.masq_role "") no_more (
    told "ASTERKUBE_MASQ_ROLE" n.masq_role refl (
      told "ASTERKUBE_MASQ_UPLINK_GW" n.gateway_ip refl
        (told "ASTERKUBE_MASQ_TARGET" n.masq_target refl no_more)))

service_entries-NoEntry : (n : PodNetwork) → NoEntry tenant_prefix (service_entries n)
unfolding apart
service_entries-NoEntry n = if_both (NoEntry tenant_prefix) (str_eq n.service_role "") no_more (
    told "ASTERKUBE_SVC_ROLE" n.service_role refl (
      told "ASTERKUBE_SVC_VIP" (vip_of n) refl (
        told "ASTERKUBE_SVC_VPORT" (print_int (vport_of n.service_port)) refl
          (told "ASTERKUBE_SVC_BACKEND_PORT" (print_int n.backend_port) refl no_more))))

bridged_env-NoEntry : (n : PodNetwork) → NoEntry tenant_prefix (bridged_env n)
unfolding bridged_env apart
bridged_env-NoEntry n =
    let first = told "ASTERKUBE_POD_IP" n.pod_ip refl (
      told "ASTERKUBE_HOST_IP" n.gateway_ip refl
        (told "ASTERKUBE_VETH_PREFIX" (print_int n.prefix) refl no_more)) in
    NoEntry-append
      (NoEntry-append
        (NoEntry-append
          (NoEntry-append (NoEntry-append first (told_if_set "ASTERKUBE_PEER_IP" n.peer_ip refl))
            (told_if_set "ASTERKUBE_TENANT_PROBE_IP" n.tenant_probe_ip refl))
          (told_if_set "ASTERKUBE_CROSS_PING" n.cross_ping_ip refl))
        (masq_entries-NoEntry n))
      (service_entries-NoEntry n)

tenant_entry-text : (x : String) → env_entry "ASTERKUBE_POD_TENANT" x ≡ str_append tenant_prefix x
tenant_entry-text x = sym (str_append_assoc "ASTERKUBE_POD_TENANT" "=" x)

tenant_entry-last_value :
    (spec : PodSpec) (env : List String)
    → spec.tenant ≢ 0
    → last_value tenant_prefix env ≡ none
    → last_value tenant_prefix (tenant_entry spec ++ env) ≡ some (itoa spec.tenant)
unfolding last_value
tenant_entry-last_value spec env t h =
    let x = itoa spec.tenant in
    let e = tenant_entry-text x in
    let has : has_prefix (env_entry "ASTERKUBE_POD_TENANT" x) tenant_prefix ≡ true =
      ap (λ s. has_prefix s tenant_prefix) e ∙ has_prefix-str_append tenant_prefix x in
    let cut : cut_prefix (env_entry "ASTERKUBE_POD_TENANT" x) tenant_prefix ≡ x =
      ap (λ s. cut_prefix s tenant_prefix) e ∙ cut_prefix-str_append tenant_prefix x in
    if_cases (λ (l : List String). last_value tenant_prefix (l ++ env) ≡ some x) (spec.tenant == 0)
      (λ z. absurd (t (ground (arith, z)))) (λ z. ground (arith, h, has, cut))

-- The entries of other names at the end do not count.
last_value-before :
    (p : String) (xs ys : List String) → NoEntry p ys → last_value p (xs ++ ys) ≡ last_value p xs
unfolding last_value
last_value-before p [] ys n = NoEntry-last_value p ys n
last_value-before p (x ∷ xs) ys n = ground (arith, last_value-before p xs ys n)

tenant_entry-NoEntry :
    (spec : PodSpec) → spec.tenant ≡ 0 → NoEntry tenant_prefix (tenant_entry spec)
tenant_entry-NoEntry spec z =
    if_cases (NoEntry tenant_prefix) (spec.tenant == 0) (λ e. no_more)
      (λ e. absurd (ground (arith, z, e)))

with_tenant :
    (spec : PodSpec) (n : PodNetwork)
    → spec.tenant ≢ 0
    → spec.tenant < 4294967296
    → container_set_tenant (tenant_variable (container_env spec (bridged_env n))) ≡ some spec.tenant
unfolding container_set_tenant tenant_variable container_env
with_tenant spec n t lt =
    let front = spec.env ++ (env_entry "ASTERKUBE_POD_HOSTNAME" spec.hostname ∷ []) in
    let found : last_value tenant_prefix (front ++ tenant_entry spec ++ bridged_env n)
        ≡ some (itoa spec.tenant) =
      rw (append_assoc front (tenant_entry spec) (bridged_env n)) (
        last_value-behind tenant_prefix front (tenant_entry spec ++ bridged_env n)
          (itoa spec.tenant)
          (tenant_entry-last_value spec (bridged_env n) t
            (NoEntry-last_value tenant_prefix (bridged_env n) (bridged_env-NoEntry n)))) in
    rw (found, atoi-itoa spec.tenant (omega (arith, lt)))
      (ground (arith, t, str_eq-itoa spec.tenant))

without_tenant :
    (spec : PodSpec) (n : PodNetwork)
    → spec.tenant ≡ 0
    → tenant_variable (container_env spec (bridged_env n)) ≡ tenant_variable spec.env
unfolding tenant_variable container_env apart
without_tenant spec n z =
    let host = env_entry "ASTERKUBE_POD_HOSTNAME" spec.hostname ∷ [] in
    let front =
      last_value-before tenant_prefix spec.env host
        (told "ASTERKUBE_POD_HOSTNAME" spec.hostname refl no_more) in
    let own =
      last_value-before tenant_prefix (spec.env ++ host) (tenant_entry spec)
        (tenant_entry-NoEntry spec z) in
    let net =
      last_value-before tenant_prefix (spec.env ++ host ++ tenant_entry spec) (bridged_env n)
        (bridged_env-NoEntry n) in
    ap (λ o. or_else o "") (net ∙ own ∙ front)

-- The container of a bridged pod that has a tenant, one of 32 bits that is not 0, labels itself with that tenant,
-- whatever environment the spec asks for, another tenant in it included; that of a pod without one labels itself by
-- what the environment of the spec says alone.
pub bridged_env-container_set_tenant :
    (spec : PodSpec) (n : PodNetwork)
    → spec.tenant < 4294967296
    → container_set_tenant (tenant_variable (container_env spec (bridged_env n))) ≡ (
        if spec.tenant == 0
        then container_set_tenant (tenant_variable spec.env)
        else some spec.tenant)
bridged_env-container_set_tenant spec n lt =
    let labels = container_set_tenant (tenant_variable (container_env spec (bridged_env n))) in
    if_cases (λ (o : Option ℕ). labels ≡ o) (spec.tenant == 0)
      (λ z. ap container_set_tenant (without_tenant spec n (ground (arith, z))))
      (λ z. with_tenant spec n (λ e. absurd (ground (arith, z, e))) lt)
