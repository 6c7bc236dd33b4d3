-- ===== src/Join/Files.antt =====
-- The files of a joining node: prepareKubeletNodeFiles of join_bundle_linux.go, setupCNI and copyExecutable of
-- cni_setup_linux.go, installClusterHosts and installCABundle of ca_bundle_linux.go, linkRunc and
-- configureEth0BestEffort of boot_args_join_linux.go.
use asterkube.Prelude.{
  Bool, true, false, not, List, [], ◌∷◌, Option, none, some, String, if◌then◌else◌,
}
use asterkube.Prelude.Text.{str_eq, str_append, contains_text}
use asterkube.Prelude.Prog.{ret, ask, ◌>>=◌, ◌>>◌}
use asterkube.Mount.Fstab.{trim_space}
use asterkube.Join.{
  JoinAnswer, JoinProg, reads_file, writes_file, makes_executable, makes_dir, lists_dir, removes,
  links, opens_netlink, closes_netlink, finds_link, adds_addr, adds_default_route, is_failed,
  number, names, text_of, exists, read_file_string,
}

unfoldable pub write_if_absent : String → String → JoinProg (Unit {0})
unfolding exists
write_if_absent path content =
    exists path >>= λ b. if b then ret tt else ask (writes_file path content) >> ret tt

unfoldable pub prepare_kubelet_node_files : JoinProg (Unit {0})
prepare_kubelet_node_files = do
  _ ← ask (links "/dev/null" "/dev/kmsg")
  _ ← ask (writes_file "/etc/machine-id" "0a57e1b1a5f34c0e9b00000000000001\n")
  _ ←
      write_if_absent "/etc/passwd"
        "root:x:0:0:root:/root:/bin/sh\nnobody:x:65534:65534:nobody:/:/sbin/nologin\n"
  _ ← write_if_absent "/etc/group" "root:x:0:\nnobody:x:65534:\n"
  _ ← write_if_absent "/etc/subuid" "root:100000:65536\n"
  write_if_absent "/etc/subgid" "root:100000:65536\n"

-- Nothing is appended that is there already.
abbrev pub append_hosts : String → String → JoinProg (Unit {0})
append_hosts extra hosts =
    if contains_text hosts (trim_space extra)
    then ret tt
    else ask (writes_file "/etc/hosts" (str_append hosts extra)) >> ret tt

unfoldable pub install_cluster_hosts : String → JoinProg (Unit {0})
unfolding read_file_string
install_cluster_hosts src = read_file_string src >>= λ extra.
    if str_eq extra ""
    then ret tt
    else read_file_string "/etc/hosts" >>= λ hosts. append_hosts extra hosts

-- Whether the copy was made.
unfoldable pub copy_executable : String → String → JoinProg Bool
copy_executable src dst = ask (reads_file src) >>= λ r. elim (text_of r) [
  | none ↦ ret false
  | some data_text ↦ ask (writes_file dst data_text) >>= λ q.
      if is_failed q then ret false else ask (makes_executable dst) >>= λ c. ret (not (is_failed c))
]

-- A plugin that cannot be copied is passed over.
unfoldable pub copy_plugins : String → List String → JoinProg (Unit {0})
copy_plugins dir [] = ret tt
copy_plugins dir (name ∷ more) =
    copy_executable (str_append dir (str_append "/" name)) (str_append "/opt/cni/bin/" name)
    >> copy_plugins dir more

abbrev pub names_of : JoinAnswer → List String
names_of (names l) = l
names_of _ = []

-- The directories, one after the other, until one fails.
unfoldable pub make_all : List String → JoinProg Bool
make_all [] = ret true
make_all (d ∷ ds) = ask (makes_dir d) >>= λ r. if is_failed r then ret false else make_all ds

-- The files of a directory are named without its subdirectories.
unfoldable pub setup_cni : String → String → JoinProg (Unit {0})
setup_cni conflist dir =
    make_all ("/opt/cni/bin" ∷ "/etc/cni/net.d" ∷ "/run/cni-ipam-state" ∷ []) >>= λ b.
    if not b
    then ret tt
    else ask (lists_dir dir) >>= λ r.
        copy_plugins dir (names_of r)
        >> ask (writes_file "/etc/cni/net.d/10-asterkube.conflist" conflist)
        >> ret tt

-- One of the places where Go looks for the CA bundle.
unfoldable pub install_ca_at : List (String × String) → String → JoinProg (Unit {0})
install_ca_at [] data_text = ret tt
install_ca_at (t ∷ ts) data_text = ask (makes_dir t.0) >>= λ r.
    if is_failed r
    then install_ca_at ts data_text
    else ask (writes_file t.1 data_text) >> install_ca_at ts data_text

abbrev ca_targets : List (String × String)
ca_targets =
    ("/etc/ssl/certs", "/etc/ssl/certs/ca-certificates.crt")
    ∷ ("/etc/pki/tls/certs", "/etc/pki/tls/certs/ca-bundle.crt")
    ∷ ("/etc/pki/ca-trust/extracted/pem", "/etc/pki/ca-trust/extracted/pem/tls-ca-bundle.pem")
    ∷ []

unfoldable pub install_ca_bundle : String → JoinProg (Unit {0})
install_ca_bundle src = ask (reads_file src) >>= λ r. elim (text_of r) [
  | none ↦ ret tt
  | some data_text ↦ install_ca_at ca_targets data_text
]

-- The path of the program, which may be unknown.
abbrev own_path : Option String → String
own_path none = "/usr/bin/kubelet"
own_path (some s) = if str_eq s "" then "/usr/bin/kubelet" else s

-- The program itself is the runtime.
unfoldable pub link_runc : Option String → JoinProg (Unit {0})
link_runc self =
    ask (removes "/usr/bin/runc") >> ask (links (own_path self) "/usr/bin/runc") >> ret tt

abbrev eth0_found : JoinAnswer → JoinProg (Unit {0})
eth0_found (number idx) =
    ask (adds_addr idx "10.0.2.15" 24)
    >> ask (adds_default_route "10.0.2.2" idx)
    >> ask closes_netlink
    >> ret tt
eth0_found _ = ask closes_netlink >> ret tt

-- The static address, unless DHCP has brought the interface up.
unfoldable pub configure_eth0_best_effort : Bool → JoinProg (Unit {0})
configure_eth0_best_effort network_configured =
    if network_configured
    then ret tt
    else ask opens_netlink >>= λ r.
        if is_failed r then ret tt else ask (finds_link "eth0") >>= λ q. eth0_found q
