-- ===== src/Node/Container.antt =====
-- What the process of a pod asks of the kernel: the container's side of cmd/asterkube-init/node.go. The
-- halves of the backends of services, and the round trip over the loopback, are one call each.
pub mod Peers
pub mod Masquerade
pub mod Service
pub mod Veth
pub mod Quiet
pub mod Ready
mod Samples
use asterkube.Prelude.{ℕ, Bool, true, false, String}
use asterkube.Prelude.Int.{ℤ}
use asterkube.Prelude.Prog.{Prog, History, System}

pub data ContainerCall : Type 0 where
  -- A byte on a descriptor that the process was started with, which is then closed.
  awaits_byte : ℕ → ContainerCall
  signals_byte : ℕ → ContainerCall
  takes_tenant : ℕ → ContainerCall
  sets_hostname : String → ContainerCall
  opens_rtnl : ContainerCall
  closes_rtnl : ContainerCall
  looks_up : String → ContainerCall
  assigns : ℕ → String → ℤ → ContainerCall
  routes_via : String → ℕ → ContainerCall
  reads_route : ContainerCall
  -- icmpPingTest: done where its text starts with "ok".
  pings : String → ContainerCall
  binds : String → String → ContainerCall
  unbinds : String → String → ContainerCall
  -- A datagram on the socket that is bound or dialled, within so many milliseconds.
  receives : ℕ → ContainerCall
  replies : String → ContainerCall
  -- A socket for the address and port, which a datagram is written to.
  dials : String → String → ContainerCall
  sends_text : String → ContainerCall
  hangs_up : ContainerCall
  sleeps : ℕ → ContainerCall
  loops_back : ContainerCall
  serves : String → ContainerCall
  probes_tenant : String → ContainerCall
  works : ContainerCall

-- An error or a time that is over, none, none with an index, and a datagram with the address it is from.
pub data ContainerAnswer : Type 0 where
  failed succeeded : ContainerAnswer
  index : ℕ → ContainerAnswer
  sender : String → ContainerAnswer

abbrev pub ContainerProg : Type 0 → Type 0
ContainerProg A = Prog ContainerCall ContainerAnswer A

abbrev pub ContainerHistory : Type 0
ContainerHistory = History ContainerCall ContainerAnswer

abbrev pub ContainerKernel : Type 0
ContainerKernel = System ContainerCall ContainerAnswer

-- os.Getenv: the empty text for a name that is not set.
abbrev pub Env : Type 0
Env = String → String

abbrev pub has_failed : ContainerAnswer → Bool
has_failed failed = true
has_failed _ = false
