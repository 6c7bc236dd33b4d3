-- ===== src/Node/Container/Service.antt =====
-- The clients of a service: containerServiceTest, serviceClient, serviceClientTCP and kpClient of
-- cmd/asterkube-init/service_linux.go. The halves of the backends are a call.
pub mod Replies
use asterkube.Prelude.{
  ℕ, zero, suc, ◌+◌, ◌-◌, Bool, true, false, ◌||◌, List, [], ◌∷◌, Option, none, some, ◌==◌,
  if◌then◌else◌, String,
}
use asterkube.Prelude.Int.{ℤ, pos}
use asterkube.Prelude.Text.{str_eq, str_append, codes}
use asterkube.Prelude.Decimal.{atoi, itoa, print_int, is_positive}
use asterkube.Prelude.Words.{Bytes, bytes_eq}
use asterkube.Prelude.Prog.{ret, ask, bind, ◌>>=◌, ◌>>◌}
use asterkube.Inet.{parse_ip}
use asterkube.Node.Container.{
  receives, dials, sends_text, hangs_up, sleeps, serves, ContainerAnswer, failed, sender,
  ContainerProg, Env, has_failed,
}

-- The port of a variable, where it is a positive number.
unfoldable pub port_or : Env → String → ℤ → ℤ
unfolding atoi
port_or env name default = elim (atoi (codes (env name))) [
  | none ↦ default
  | some p ↦ if is_positive p then p else default
]

-- A reply from the address of the service, one from another address, and none.
pub data SendOutcome : Type 0 where
  got_reply wrong_source lost : SendOutcome

abbrev pub same_ip : Option Bytes → Option Bytes → Bool
same_ip (some a) (some b) = bytes_eq a b
same_ip _ _ = false

abbrev pub judged : String → ContainerAnswer → SendOutcome
judged vip (sender ip) = if same_ip (parse_ip ip) (parse_ip vip) then got_reply else wrong_source
judged vip _ = lost

-- One datagram over a socket of its own.
unfoldable pub service_client_send_once : String → String → ℕ → ContainerProg SendOutcome
service_client_send_once vip port seq = ask (dials vip port) >>= λ d.
    if has_failed d
    then ret lost
    else ask (sends_text (str_append "svc-hello-" (itoa seq))) >>= λ w.
        if has_failed w
        then ask hangs_up >> ret lost
        else ask (receives 2000) >>= λ r. ask hangs_up >> ret (judged vip r)

-- What comes after an attempt that may be made again.
abbrev pub again : SendOutcome → ContainerProg SendOutcome → ContainerProg SendOutcome
again lost p = ask (sleeps 1000) >> p
again outcome p = ret outcome

unfoldable pub try_send : ℕ → String → String → ℕ → ContainerProg SendOutcome
unfolding service_client_send_once
try_send zero vip port seq = ret lost
try_send (suc zero) vip port seq = service_client_send_once vip port seq
try_send (suc (suc tries)) vip port seq =
    let rest = try_send (suc tries) vip port seq in
    service_client_send_once vip port seq >>= λ outcome. again outcome rest

-- The end of serviceClient: with so many replies of the eight.
pub data ClientResult : Type 0 where
  bad_vip reverse_nat_failed : ClientResult
  replies_from_vip : ℕ → ClientResult

-- After a datagram: what comes behind a reply and what comes without one.
abbrev pub go_on :
    SendOutcome
    → ContainerProg ClientResult
    → ContainerProg ClientResult
    → ContainerProg ClientResult
go_on wrong_source more same = ret reverse_nat_failed
go_on got_reply more same = more
go_on lost more same = same

-- The datagrams that are left; the first one of the eight has five tries.
unfoldable pub client_sends : ℕ → String → String → ℕ → ContainerProg ClientResult
unfolding try_send
client_sends zero vip port ok = ret (replies_from_vip ok)
client_sends (suc left) vip port ok =
    let more = client_sends left vip port (suc ok) in
    let same = client_sends left vip port ok in
    try_send (if left == 7 then 5 else 1) vip port (7 - left) >>= λ outcome. go_on outcome more same

abbrev pub service_port : Env → String
service_port env = print_int (port_or env "ASTERKUBE_SVC_VPORT" (pos 80))

unfoldable pub service_client : Env → ContainerProg ClientResult
unfolding client_sends parse_ip
service_client env =
    let vip = env "ASTERKUBE_SVC_VIP" in
    elim (parse_ip vip) [ none ↦ ret bad_vip | some ip ↦ client_sends 8 vip (service_port env) 0 ]

-- A dial, a text and an answer within three seconds.
unfoldable pub tcp_exchange : String → String → String → ContainerProg ContainerAnswer
tcp_exchange vip port text = ask (dials vip port) >>= λ d.
    if has_failed d
    then ret d
    else ask (sends_text text) >>= λ w.
        if has_failed w
        then ask hangs_up >> ret w
        else ask (receives 3000) >>= λ r. ask hangs_up >> ret r

-- Attempts with a second between them, until one is answered or so many are made.
unfoldable pub tcp_attempts : ℕ → String → String → String → ContainerProg ContainerAnswer
unfolding tcp_exchange
tcp_attempts zero vip port text = ret failed
tcp_attempts (suc zero) vip port text = tcp_exchange vip port text
tcp_attempts (suc (suc more)) vip port text =
    let rest = tcp_attempts (suc more) vip port text in
    tcp_exchange vip port text >>= λ r. if has_failed r then ask (sleeps 1000) >> rest else ret r

unfoldable pub service_client_tcp : Env → ContainerProg (Unit {0})
unfolding tcp_attempts parse_ip
service_client_tcp env =
    let vip = env "ASTERKUBE_SVC_VIP" in
    elim (parse_ip vip) [
      | none ↦ ret tt
      | some ip ↦ tcp_attempts 6 vip (service_port env) "svc-tcp-hello" >> ret tt
    ]

-- `kpClient` counts its answers by the name that each gives, which it prints at the end.
unfoldable pub kp_sends : ℕ → String → String → ContainerProg (Unit {0})
unfolding tcp_attempts
kp_sends zero vip port = ret tt
kp_sends (suc left) vip port =
    let rest = kp_sends left vip port in
    tcp_attempts (if left == 9 then 6 else 1) vip port "kp-hello" >> rest

unfoldable pub kp_client : Env → ContainerProg (Unit {0})
unfolding kp_sends parse_ip
kp_client env =
    let vip = env "ASTERKUBE_SVC_VIP" in
    elim (parse_ip vip) [
      | none ↦ ret tt
      | some ip ↦ kp_sends 10 vip (print_int (port_or env "ASTERKUBE_SVC_VPORT" (pos 53)))
    ]

unfoldable pub container_service_test : Env → String → ContainerProg (Unit {0})
unfolding service_client service_client_tcp kp_client
container_service_test env pod_ip =
    let role = env "ASTERKUBE_SVC_ROLE" in
    if str_eq role "backend" || str_eq role "kpbackend"
    then ask (serves pod_ip) >> ret tt
    else if str_eq role "client"
    then service_client env >> service_client_tcp env
    else if str_eq role "kpclient"
    then kp_client env
    else ret tt
