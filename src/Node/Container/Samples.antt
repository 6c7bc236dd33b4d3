-- ===== src/Node/Container/Samples.antt =====
-- Pods of one bridge on a kernel: the container's side of cmd/asterkube-init/node.go.
use asterkube.Prelude.{
  String, ◌==◌, ℕ, suc, [], ◌∷◌, ◌≡◌, ◌⊎◌, refl, ap, if◌then◌else◌, get_or, arith,
}
use asterkube.Prelude.Text.{str_eq}
use asterkube.Prelude.Prog.{run}
use asterkube.Prelude.Words.{bytes_eq}
use asterkube.Inet.{parse_ip4, parse_ip}
use asterkube.Node.Container.{
  signals_byte, looks_up, pings, failed, succeeded, sender, index, receives, ContainerHistory,
  ContainerKernel, Env,
}
use asterkube.Node.Container.Peers.{container_peer_test}
use asterkube.Node.Container.Peers.Roles.{container_peer_test-SendsTo, Listens, SendsTo}
use asterkube.Node.Container.Service.{
  reverse_nat_failed, replies_from_vip, service_client, client_sends, try_send,
  service_client_send_once,
}
use asterkube.Node.Container.Service.Replies.{service_client-Concludes, Concludes, from_vip}
use asterkube.Node.Container.Ready.{container_veth_test-ReadyAfter, ReadyAfter}
use asterkube.Node.Container.Veth.{cross_ns_ok, container_veth_test, veth_prefix, with_eth0}

-- A pod with a gateway and a prefix of 28.
abbrev bridged_pod : Env
bridged_pod name =
    if str_eq name "ASTERKUBE_HOST_IP"
    then "10.0.0.1"
    else if str_eq name "ASTERKUBE_VETH_PREFIX"
    then "28"
    else ""

-- Everything succeeds, but for the pings.
abbrev answering : ContainerKernel
answering h (looks_up name) = index 2
answering h (pings ip) = failed
answering h c = succeeded

abbrev without_eth0 : ContainerKernel
without_eth0 h (looks_up name) = failed
without_eth0 h c = succeeded

abbrev told : ContainerHistory → ℕ
told [] = 0
told ((signals_byte fd, r) ∷ h) = suc (told h)
told (x ∷ h) = told h

tells_once : told (run answering (container_veth_test bridged_pod "10.0.0.2") []).1 ≡ 1
unfolding container_veth_test with_eth0
tells_once = refl

goes_well : (run answering (container_veth_test bridged_pod "10.0.0.2") []).0 ≡ cross_ns_ok
unfolding container_veth_test with_eth0
goes_well = refl

tells_nothing : told (run without_eth0 (container_veth_test bridged_pod "10.0.0.2") []).1 ≡ 0
unfolding container_veth_test with_eth0
tells_nothing = refl

container_veth_test-ReadyAfter_example :
    ReadyAfter "10.0.0.2"
      (veth_prefix bridged_pod)
      (run answering (container_veth_test bridged_pod "10.0.0.2") []).1
container_veth_test-ReadyAfter_example =
    container_veth_test-ReadyAfter bridged_pod "10.0.0.2" answering

-- 10.0.0.2 and 10.0.0.10: the order is that of the bytes, not of the texts.
container_peer_test-SendsTo_example :
    (Listens "10.0.0.2" (container_peer_test "10.0.0.2" "10.0.0.10")
      × SendsTo "10.0.0.2" (container_peer_test "10.0.0.10" "10.0.0.2"))
    ⊎ (SendsTo "10.0.0.10" (container_peer_test "10.0.0.2" "10.0.0.10")
        × Listens "10.0.0.10" (container_peer_test "10.0.0.10" "10.0.0.2"))
unfolding parse_ip4
container_peer_test-SendsTo_example =
    container_peer_test-SendsTo "10.0.0.2" "10.0.0.10" (10 ∷ 0 ∷ 0 ∷ 2 ∷ []) (10 ∷ 0 ∷ 0 ∷ 10 ∷ [])
      refl refl (λ e. let third = ap (λ l. get_or l 3 0) e in omega (arith, third))

abbrev service_address : String
service_address = "10.96.0.10"

abbrev service_pod : Env
service_pod name = if str_eq name "ASTERKUBE_SVC_VIP" then service_address else ""

abbrev vip_answers : ContainerKernel
vip_answers h (receives w) = sender service_address
vip_answers h c = succeeded

-- The third reply comes from another address than the service's.
abbrev third_astray : ContainerKernel
third_astray h (receives w) =
    if from_vip service_address h == 2 then sender "10.0.0.9" else sender service_address
third_astray h c = succeeded

stops_at_third : (run third_astray (service_client service_pod) []).0 ≡ reverse_nat_failed
unfolding service_client client_sends try_send service_client_send_once parse_ip parse_ip4 bytes_eq
stops_at_third = refl

-- An IPv6 address of a service is dialled as well.
abbrev six_pod : Env
six_pod name = if str_eq name "ASTERKUBE_SVC_VIP" then "fd00::a60:a" else ""

abbrev six_answers : ContainerKernel
six_answers h (receives w) = sender "fd00:0:0:0:0:0:0a60:000A"
six_answers h c = succeeded

six_answered : (run six_answers (service_client six_pod) []).0 ≡ replies_from_vip 8
unfolding service_client client_sends try_send service_client_send_once parse_ip bytes_eq
six_answered = refl

all_answered : (run vip_answers (service_client service_pod) []).0 ≡ replies_from_vip 8
unfolding service_client client_sends try_send service_client_send_once parse_ip parse_ip4 bytes_eq
all_answered = refl

service_client-Concludes_example :
    Concludes "10.96.0.10"
      (run third_astray (service_client service_pod) []).0
      (run third_astray (service_client service_pod) []).1
service_client-Concludes_example = service_client-Concludes third_astray service_pod
