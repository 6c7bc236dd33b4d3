-- ===== src/Join/Trust.antt =====
-- The trust in the apiserver: writeBootstrapKubeconfig and fetchAndVerifyClusterCA of
-- cmd/asterkube-init/boot_args_join_linux.go.
use asterkube.Prelude.{
  ℕ, ◌+◌, Bool, true, false, not, ◌&&◌, ◌∷◌, Option, none, some, String, ◌≡◌, ◌⊎◌, if◌then◌else◌,
  map, leb,
}
use asterkube.Prelude.{bind_option}
use asterkube.Prelude.Words.{Bytes, bytes_eq}
use asterkube.Prelude.Text.{str_eq, str_append, codes}
use asterkube.Prelude.Prog.{ret, ask, ◌>>=◌}
use asterkube.Mount.Fstab.{trim_space}
use asterkube.Join.{JoinAnswer, JoinProg, JoinHistory, writes_file, is_failed, Environ}

-- What the Go library is asked: an HTTP body by its URL, the text that the regular expression finds in one, base64,
-- the DER bytes of the first PEM block, the public key of a certificate in DER, and its SHA-256 in hexadecimal.
pub record Discovery : Type 0 where
  pub get : String → Option String
  pub find_ca : String → Option String
  pub decode : String → Option Bytes
  pub pem_block : Bytes → Option Bytes
  pub public_key : Bytes → Option Bytes
  pub sha256 : Bytes → String

abbrev lower : ℕ → ℕ
lower c = if leb 65 c && leb c 90 then c + 32 else c

-- `strings.EqualFold` of ASCII texts.
unfoldable pub equal_fold : String → String → Bool
equal_fold a b = bytes_eq (map lower (codes a)) (map lower (codes b))

-- The fingerprint of a CA in base64: `sha256:` and the hash of its public key.
unfoldable pub fingerprint : Discovery → String → Option String
fingerprint d ca = bind_option (d.decode ca) (λ pem.
    bind_option (d.pem_block pem)
      (λ der. bind_option (d.public_key der) (λ key. some (str_append "sha256:" (d.sha256 key)))))

-- `strings.TrimRight(s, "/")`
unfoldable pub trim_slash : String → String
trim_slash String.[] = String.[]
trim_slash (String.◌∷◌ c s) =
    let rest = trim_slash s in
    if str_eq rest "" && str_eq (String.◌∷◌ c String.[]) "/" then "" else String.◌∷◌ c rest

abbrev cluster_info_path : String
cluster_info_path = "/api/v1/namespaces/kube-public/configmaps/cluster-info"

-- A CA by its fingerprint.
abbrev checked_ca : Discovery → String → String → Option String
checked_ca d ca_hash ca =
    bind_option (fingerprint d ca) (λ got. if equal_fold got ca_hash then some ca else none)

abbrev told_ca : Discovery → String → String → Option String
told_ca d ca_hash body = bind_option (d.find_ca body) (checked_ca d ca_hash)

-- The CA that the apiserver tells, if it is the one whose hash is given.
unfoldable pub fetch_and_verify_cluster_ca : Discovery → String → String → Option String
fetch_and_verify_cluster_ca d apiserver ca_hash =
    bind_option (d.get (str_append (trim_slash apiserver) cluster_info_path)) (told_ca d ca_hash)

abbrev pub is_insecure : Environ → Bool
is_insecure env = not (str_eq (trim_space (env "ASTERKUBE_INSECURE")) "")

abbrev pub ca_hash_of : Environ → String
ca_hash_of env = trim_space (env "ASTERKUBE_CA_HASH")

abbrev pub insecure_fields : String
insecure_fields = "    insecure-skip-tls-verify: true"

abbrev pub ca_fields : String → String
ca_fields ca = str_append "    certificate-authority-data: " ca

-- How the cluster is trusted; nothing without a reason to.
unfoldable pub cluster_fields : Environ → Discovery → String → Option String
cluster_fields env d apiserver =
    if is_insecure env
    then some insecure_fields
    else if not (str_eq (ca_hash_of env) "")
    then elim (fetch_and_verify_cluster_ca d apiserver (ca_hash_of env)) [
      | none ↦ none
      | some ca ↦ some (ca_fields ca)
    ]
    else none

abbrev after : String → String → String
after a b = str_append a b

unfoldable pub bootstrap_config : String → String → String → String
bootstrap_config apiserver fields token =
    after "apiVersion: v1\nkind: Config\nclusters:\n- name: c\n  cluster:\n    server: " (
      after apiserver (
        after "\n" (
          after fields (
            after "\nusers:\n- name: tls-bootstrap-token-user\n  user:\n    token: " (
              after token
                "\ncontexts:\n- name: ctx\n  context:\n    cluster: c\n    user: tls-bootstrap-token-user\ncurrent-context: ctx\n")))))

-- Whether the kubeconfig was written.
unfoldable pub write_bootstrap_kubeconfig :
    Environ → Discovery → String → String → String → JoinProg Bool
write_bootstrap_kubeconfig env d path apiserver token = elim (cluster_fields env d apiserver) [
  | none ↦ ret false
  | some fields ↦ ask (writes_file path (bootstrap_config apiserver fields token)) >>= λ r.
      ret (not (is_failed r))
]

-- A CA whose public key has the hash that was given on the command line.
abbrev pub IsVerified : Environ → Discovery → String → Type 0
IsVerified env d ca =
    (got : String) × (fingerprint d ca ≡ some got) × (equal_fold got (ca_hash_of env) ≡ true)

-- The command line asked for no verification, or the fields name a CA that was verified.
abbrev pub IsTrusted : Environ → Discovery → String → Type 0
IsTrusted env d fields =
    ((is_insecure env ≡ true) × (fields ≡ insecure_fields))
    ⊎ ((ca : String) × (fields ≡ ca_fields ca) × IsVerified env d ca)

-- The configuration that was written, with the trust that it holds.
abbrev pub WritesTrusted :
    Environ → Discovery → String → String → String → JoinHistory → JoinHistory → Type 0
WritesTrusted env d path apiserver token h g =
    (fields : String) × (r : JoinAnswer) × IsTrusted env d fields
    × (g ≡ (writes_file path (bootstrap_config apiserver fields token), r) ∷ h)

-- Either nothing was asked of the system and the answer is that nothing was written, or one file was written.
abbrev pub WritesAtMost :
    Environ → Discovery → String → String → String → JoinHistory → Bool × JoinHistory → Type 0
WritesAtMost env d path apiserver token h after =
    ((after.0 ≡ false) × (after.1 ≡ h)) ⊎ WritesTrusted env d path apiserver token h after.1
