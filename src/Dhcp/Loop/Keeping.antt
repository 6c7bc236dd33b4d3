-- ===== src/Dhcp/Loop/Keeping.antt =====
-- What dhcpRenewLoop of cmd/asterkube-init/dhcp_linux.go keeps, and how its rounds end.
use asterkube.Prelude.{ℕ, ◌≡◌, refl, true, false, List, [], ◌∷◌, ◌++◌, Bool, All}
use asterkube.Prelude.Int.{pos, sub64}
use asterkube.Prelude.Words.{Bytes}
use asterkube.Inet.{is_unspecified}
use asterkube.Dhcp.Options.{DhcpLease}
use asterkube.Dhcp.Receive.{DhcpResult, DhcpError, ok, failed}
use asterkube.Dhcp.Client.{Sent, RenewEnv, dhcp_renew, dhcp_acquire}
use asterkube.Dhcp.Client.Renew.{
  IsComplete, dhcp_renew-IsComplete, dhcp_renew-is_unspecified, dhcp_acquire-IsComplete,
}
use asterkube.Dhcp.Loop.{
  Action, sleep, send, apply_lease, Round, RoundEnv, timers, sends, lease_or, result_or,
  renew_round, renew_loop, first_check,
}

-- A lease that the interface can be configured from: complete, and with an address other than 0.0.0.0.
abbrev pub IsUsable : DhcpLease → Type 0
IsUsable lease = IsComplete lease × (is_unspecified lease.ip ≡ false)

-- A round in which no server gives 0.0.0.0 to a client that asks for a new lease.
abbrev pub AcquiresReal : Bytes → RoundEnv → Type 0
AcquiresReal mac env =
    (new : DhcpLease)
    → (dhcp_acquire mac env.acquire_xid env.acquire).result ≡ ok new
    → is_unspecified new.ip ≡ false

renewed-IsUsable :
    (mac : Bytes) (xid : ℕ) (lease : DhcpLease) (rebind : Bool) (env : RenewEnv) (new : DhcpLease)
    → IsUsable lease
    → (dhcp_renew mac xid lease rebind env).result ≡ ok new
    → IsUsable new
renewed-IsUsable mac xid lease rebind env new u e = (
  dhcp_renew-IsComplete mac xid lease rebind env new u.0 e,
  dhcp_renew-is_unspecified mac xid lease rebind env new u.1 e,
)

-- Every lease that is applied is usable.
abbrev pub AppliesUsable : List Action → Type 0
AppliesUsable [] = Unit
AppliesUsable (sleep d ∷ more) = AppliesUsable more
AppliesUsable (send s ∷ more) = AppliesUsable more
AppliesUsable (apply_lease l ∷ more) = IsUsable l × AppliesUsable more

abbrev pub RoundUsable : Round → Type 0
RoundUsable r = IsUsable r.lease × AppliesUsable r.actions

Applies-append :
    (xs ys : List Action) → AppliesUsable xs → AppliesUsable ys → AppliesUsable (xs ++ ys)
Applies-append [] ys h k = k
Applies-append (sleep d ∷ xs) ys h k = Applies-append xs ys h k
Applies-append (send s ∷ xs) ys h k = Applies-append xs ys h k
Applies-append (apply_lease l ∷ xs) ys (u, h) k = (u, Applies-append xs ys h k)

Applies-sends : (ss : List Sent) → AppliesUsable (sends ss)
Applies-sends [] = tt
Applies-sends (s ∷ ss) = Applies-sends ss

lease_or-usable :
    (r : DhcpResult DhcpLease) (before : List Action) (other : Round)
    → ((new : DhcpLease) → r ≡ ok new → IsUsable new)
    → AppliesUsable before
    → RoundUsable other
    → RoundUsable (lease_or r before other)
lease_or-usable (ok new) before other h b o =
    (h new refl, Applies-append before (apply_lease new ∷ []) b (h new refl, tt))
lease_or-usable (failed e) before other h b o = (o.0, Applies-append before other.actions b o.1)

renew_round-usable :
    (mac : Bytes) (lease : DhcpLease) (env : RoundEnv)
    → AcquiresReal mac env
    → IsUsable lease
    → RoundUsable (renew_round mac lease env)
unfolding renew_round
renew_round-usable mac lease env real u =
    let t = timers lease env.override in
    let renewing = dhcp_renew mac env.renew_xid lease false env.renew in
    let rebinding = dhcp_renew mac env.rebind_xid lease true env.rebind in
    let acquiring = dhcp_acquire mac env.acquire_xid env.acquire in
    lease_or-usable renewing.result (sleep t.t1 ∷ sends renewing.sent) _
      (λ new e. renewed-IsUsable mac env.renew_xid lease false env.renew new u e)
      (Applies-sends renewing.sent)
      (lease_or-usable rebinding.result (sleep (sub64 t.t2 t.t1) ∷ sends rebinding.sent) _
        (λ new e. renewed-IsUsable mac env.rebind_xid lease true env.rebind new u e)
        (Applies-sends rebinding.sent)
        (lease_or-usable acquiring.result (sends acquiring.sent) _
          (λ new e. (dhcp_acquire-IsComplete mac env.acquire_xid env.acquire new e, real new e))
          (Applies-sends acquiring.sent) (u, tt)))

-- From a lease that is complete and has an address other than 0.0.0.0, over any number of rounds in which no server
-- gives 0.0.0.0 as a new lease, and whatever else the servers and the network do in them, renewals with an unspecified
-- address among it: the lease stays so, and so is every lease that is applied to the interface on the way.
pub renew_loop-usable :
    (mac : Bytes) (lease : DhcpLease) (envs : List RoundEnv)
    → All (AcquiresReal mac) envs
    → IsUsable lease
    → RoundUsable (renew_loop mac lease envs)
unfolding renew_loop
renew_loop-usable mac lease [] real u = (u, tt)
renew_loop-usable mac lease (env ∷ envs) real u =
    let now = renew_round-usable mac lease env real.0 u in
    let later = renew_loop-usable mac (renew_round mac lease env).lease envs real.1 now.0 in
    (later.0, Applies-append (renew_round mac lease env).actions _ now.1 later.1)

-- The check before the loop keeps the lease usable too.
pub first_check-IsUsable :
    (mac : Bytes) (lease : DhcpLease) (renew_xid rebind_xid : ℕ) (renew rebind : RenewEnv)
    → IsUsable lease
    → IsUsable (first_check mac lease renew_xid renew rebind_xid rebind)
unfolding first_check
first_check-IsUsable mac lease renew_xid rebind_xid renew rebind u =
    either _ _ (λ new e. renewed-IsUsable mac renew_xid lease false renew new u e)
      (either _ _ (λ new e. renewed-IsUsable mac rebind_xid lease true rebind new u e) u)
  where
    either :
        (r : DhcpResult DhcpLease) (other : DhcpLease)
        → ((new : DhcpLease) → r ≡ ok new → IsUsable new)
        → IsUsable other
        → IsUsable (result_or r other)
    either (ok new) other h o = h new refl
    either (failed e) other h o = o

-- A round in which RENEWING and REBINDING fail and no new lease is found keeps the lease and applies
-- none: it waits for T1, asks the leasing server, waits for the rest of T2, asks everybody, tries for a
-- fresh lease, and waits thirty seconds.
pub renew_round_lost :
    (mac : Bytes) (lease : DhcpLease) (env : RoundEnv) {a b c : DhcpError}
    → (dhcp_renew mac env.renew_xid lease false env.renew).result ≡ failed a
    → (dhcp_renew mac env.rebind_xid lease true env.rebind).result ≡ failed b
    → (dhcp_acquire mac env.acquire_xid env.acquire).result ≡ failed c
    → ((renew_round mac lease env).lease ≡ lease)
      × ((renew_round mac lease env).actions
          ≡ (sleep (timers lease env.override).t1
              ∷ sends (dhcp_renew mac env.renew_xid lease false env.renew).sent)
            ++ ((sleep (sub64 (timers lease env.override).t2 (timers lease env.override).t1)
                  ∷ sends (dhcp_renew mac env.rebind_xid lease true env.rebind).sent)
                ++ (sends (dhcp_acquire mac env.acquire_xid env.acquire).sent
                    ++ sleep (pos 30000000000) ∷ [])))
unfolding renew_round
renew_round_lost mac lease env p q r = rw (p, q, r) (refl, refl)
