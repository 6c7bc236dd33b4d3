-- ===== src/Node/Container/Masquerade.antt =====
-- Source addresses behind an uplink: containerMasqTest, masqServer and masqClient of
-- cmd/asterkube-init/masq_linux.go.
use asterkube.Prelude.{ℕ, zero, suc, none, some, ◌==◌, if◌then◌else◌, String}
use asterkube.Prelude.Text.{str_eq}
use asterkube.Prelude.Prog.{ret, ask, ◌>>=◌, ◌>>◌}
use asterkube.Inet.{parse_ip}
use asterkube.Node.Container.{
  binds, unbinds, receives, replies, dials, sends_text, hangs_up, sleeps, ContainerAnswer,
  ContainerProg, Env, has_failed,
}

abbrev pub masq_port : String
masq_port = "9200"

-- The reply is sent before the source is looked at, which is only printed.
unfoldable pub masq_server : String → ContainerProg (Unit {0})
masq_server pod_ip = ask (binds pod_ip masq_port) >>= λ b.
    if has_failed b
    then ret tt
    else ask (receives 20000) >>= λ r.
        if has_failed r
        then ask (unbinds pod_ip masq_port) >> ret tt
        else ask (replies "masq-reply") >> ask (unbinds pod_ip masq_port) >> ret tt

-- One attempt after the dial: whether a reply came.
unfoldable pub masq_exchange : ContainerProg ContainerAnswer
masq_exchange = ask (sends_text "masq-hello") >>= λ w.
    if has_failed w
    then ask hangs_up >> ret w
    else ask (receives 2000) >>= λ r. ask hangs_up >> ret r

unfoldable pub masq_attempts : ℕ → String → ContainerProg (Unit {0})
unfolding masq_exchange
masq_attempts zero target = ret tt
masq_attempts (suc more) target =
    let rest = masq_attempts more target in
    let paused = if more == 0 then ret tt else ask (sleeps 1000) >> rest in
    ask (dials target masq_port) >>= λ d.
    if has_failed d then paused else masq_exchange >>= λ r. if has_failed r then paused else ret tt

unfoldable pub masq_client : Env → ContainerProg (Unit {0})
unfolding masq_attempts parse_ip
masq_client env = elim (parse_ip (env "ASTERKUBE_MASQ_TARGET")) [
  | none ↦ ret tt
  | some ip ↦ masq_attempts 8 (env "ASTERKUBE_MASQ_TARGET")
]

unfoldable pub container_masq_test : Env → String → ContainerProg (Unit {0})
unfolding masq_server masq_client
container_masq_test env pod_ip =
    if str_eq (env "ASTERKUBE_MASQ_ROLE") "server"
    then masq_server pod_ip
    else if str_eq (env "ASTERKUBE_MASQ_ROLE") "client"
    then masq_client env
    else ret tt
