-- ===== src/Dhcp/Loop.antt =====
-- dhcpRenewLoop of cmd/asterkube-init/dhcp_linux.go, one round at a time.
pub mod Timing
pub mod Keeping
use asterkube.Prelude.{
  ℕ, zero, suc, ◌+◌, ◌*◌, ◌≡◌, Bool, true, false, List, [], ◌∷◌, ◌++◌, Option, none, some, map,
  if◌then◌else◌,
}
use asterkube.Prelude.Int.{ℤ, pos, negsuc, i64, add64, sub64, mul64, div64}
use asterkube.Prelude.Words.{Bytes}
use asterkube.Dhcp.Options.{DhcpLease}
use asterkube.Dhcp.Receive.{DhcpResult, ok, failed}
use asterkube.Dhcp.Client.{Sent, Trace, AcquireEnv, RenewEnv, dhcp_acquire, dhcp_renew}

-- Nanoseconds.
abbrev pub second : ℕ
second = 1000000000

pub record Timers : Type 0 where
  pub t1 : ℤ
  pub t2 : ℤ

-- `if dur <= 0 { dur = time.Hour }`
abbrev pub or_hour : ℤ → ℤ
or_hour (pos zero) = pos 3600000000000
or_hour (pos (suc n)) = pos (suc n)
or_hour (negsuc n) = pos 3600000000000

-- T1 and T2 from the environment's number of seconds, where that is positive.
abbrev pub overridden : Timers → Option ℤ → Timers
overridden t none = t
overridden t (some (pos zero)) = t
overridden t (some (pos (suc n))) =
    let t1 = mul64 (pos (suc n)) (pos second) in record { t1 = t1; t2 = add64 t1 (div64 t1 2) }
overridden t (some (negsuc n)) = t

-- `override` is what `strconv.Atoi` makes of ASTERKUBE_DHCP_RENEW_SEC, if that is set and a number.
unfoldable pub timers : DhcpLease → Option ℤ → Timers
timers lease override =
    let dur = or_hour (mul64 (pos lease.lease_sec) (pos second)) in
    overridden (record { t1 = div64 dur 2; t2 = div64 (mul64 dur (pos 7)) 8 }) override

-- What the loop does, in order.
pub data Action : Type 0 where
  sleep : ℤ → Action
  send : Sent → Action
  apply_lease : DhcpLease → Action

-- What one round meets.
pub record RoundEnv : Type 0 where
  pub override : Option ℤ
  pub renew_xid : ℕ
  pub renew : RenewEnv
  pub rebind_xid : ℕ
  pub rebind : RenewEnv
  pub acquire_xid : ℕ
  pub acquire : AcquireEnv

pub record Round : Type 0 where
  pub lease : DhcpLease
  pub actions : List Action

abbrev pub sends : List Sent → List Action
sends = map send

-- `lease = nl; applyLeaseDelta(idx, lease)`, or what comes next.
abbrev pub lease_or : DhcpResult DhcpLease → List Action → Round → Round
lease_or (ok new) before other = record { lease = new; actions = before ++ apply_lease new ∷ [] }
lease_or (failed e) before other = record other { actions = before ++ other.actions }

unfoldable pub renew_round : Bytes → DhcpLease → RoundEnv → Round
renew_round mac lease env =
    let t = timers lease env.override in
    let renewing = dhcp_renew mac env.renew_xid lease false env.renew in
    let rebinding = dhcp_renew mac env.rebind_xid lease true env.rebind in
    let acquiring = dhcp_acquire mac env.acquire_xid env.acquire in
    lease_or renewing.result (sleep t.t1 ∷ sends renewing.sent) (
      lease_or rebinding.result (sleep (sub64 t.t2 t.t1) ∷ sends rebinding.sent) (
        lease_or acquiring.result (sends acquiring.sent)
          (record { lease = lease; actions = sleep (pos 30000000000) ∷ [] })))

-- The check before the loop: RENEWING, then REBINDING; a lease is kept and not applied.
abbrev pub result_or : DhcpResult DhcpLease → DhcpLease → DhcpLease
result_or (ok new) other = new
result_or (failed e) other = other

unfoldable pub first_check : Bytes → DhcpLease → ℕ → RenewEnv → ℕ → RenewEnv → DhcpLease
first_check mac lease renew_xid renew rebind_xid rebind =
    result_or (dhcp_renew mac renew_xid lease false renew).result
      (result_or (dhcp_renew mac rebind_xid lease true rebind).result lease)

-- The loop over the rounds that the node lives through.
unfoldable pub renew_loop : Bytes → DhcpLease → List RoundEnv → Round
renew_loop mac lease [] = record { lease = lease; actions = [] }
renew_loop mac lease (env ∷ envs) =
    let now = renew_round mac lease env in
    let later = renew_loop mac now.lease envs in
    record { lease = later.lease; actions = now.actions ++ later.actions }
