-- ===== src/Node/Container/Service/Replies.antt =====
-- What the client of a service concludes: serviceClient of cmd/asterkube-init/service_linux.go.
use asterkube.Prelude.{
  ℕ, zero, suc, ◌+◌, ◌-◌, ◌≤◌, [], ◌∷◌, ◌==◌, if◌then◌else◌, String, ◌≡◌, refl, if_both,
  Option-both, arith,
}
use asterkube.Prelude.Prog.{run, Ensures, Ensures-bind, Ensures-run}
use asterkube.Inet.{parse_ip}
use asterkube.Prelude.Words.{Bytes, bytes_eq}
use asterkube.Prelude.{Bool, true, false, not, Option, none, some}
use asterkube.Node.Container.{
  ContainerAnswer, failed, succeeded, index, sender, receives, sleeps, ContainerHistory,
  ContainerKernel, ContainerProg, Env, has_failed,
}
use asterkube.Node.Container.Service.{
  SendOutcome, got_reply, wrong_source, lost, same_ip, judged, service_client_send_once, again,
  try_send, ClientResult, bad_vip, reverse_nat_failed, replies_from_vip, go_on, client_sends,
  service_client, service_port,
}

abbrev got_of : SendOutcome → ℕ
got_of got_reply = 1
got_of _ = 0

abbrev astray_of : SendOutcome → ℕ
astray_of wrong_source = 1
astray_of _ = 0

-- Whether two texts are the same IP address.
abbrev same_address : String → String → Bool
same_address a b = elim (parse_ip a) [
  | none ↦ false
  | some x ↦ elim (parse_ip b) [ none ↦ false | some y ↦ bytes_eq x y ]
]

abbrev is_from_vip : String → ContainerAnswer → Bool
is_from_vip vip (sender ip) = same_address ip vip
is_from_vip vip _ = false

abbrev is_astray : String → ContainerAnswer → Bool
is_astray vip (sender ip) = not (same_address ip vip)
is_astray vip _ = false

-- The replies from the address of the service, and those from others.
abbrev pub from_vip : String → ContainerHistory → ℕ
from_vip vip [] = 0
from_vip vip ((receives w, r) ∷ h) = (if is_from_vip vip r then 1 else 0) + from_vip vip h
from_vip vip (x ∷ h) = from_vip vip h

abbrev pub astray : String → ContainerHistory → ℕ
astray vip [] = 0
astray vip ((receives w, r) ∷ h) = (if is_astray vip r then 1 else 0) + astray vip h
astray vip (x ∷ h) = astray vip h

judged-same_ip :
    (a b : Option Bytes)
    → let o = if same_ip a b then got_reply else wrong_source in
      let same : Bool = elim a [
        | none ↦ false
        | some x ↦ elim b [ none ↦ false | some y ↦ bytes_eq x y ]
      ] in
      (got_of o ≡ (if same then 1 else 0)) × (astray_of o ≡ (if not same then 1 else 0))
judged-same_ip none b = (refl, refl)
judged-same_ip (some x) none = (refl, refl)
judged-same_ip (some x) (some y) = if_both_same (bytes_eq x y)
  where
    if_both_same :
        (c : Bool)
        → (got_of (if c then got_reply else wrong_source) ≡ (if c then 1 else 0))
          × (astray_of (if c then got_reply else wrong_source) ≡ (if not c then 1 else 0))
    if_both_same true = (refl, refl)
    if_both_same false = (refl, refl)

judged_lem :
    (vip : String) (r : ContainerAnswer)
    → (got_of (judged vip r) ≡ (if is_from_vip vip r then 1 else 0))
      × (astray_of (judged vip r) ≡ (if is_astray vip r then 1 else 0))
judged_lem vip (sender ip) = judged-same_ip (parse_ip ip) (parse_ip vip)
judged_lem vip failed = (refl, refl)
judged_lem vip succeeded = (refl, refl)
judged_lem vip (index n) = (refl, refl)

-- What the end says of the replies.
abbrev pub Concludes : String → ClientResult → ContainerHistory → Type 0
Concludes vip bad_vip g = (parse_ip vip ≡ none) × (g ≡ [])
Concludes vip reverse_nat_failed g = astray vip g ≡ 1
Concludes vip (replies_from_vip n) g = (from_vip vip g ≡ n) × (astray vip g ≡ 0) × (n ≤ 8)

module _ (vip port : String) where
  -- From so many replies of both kinds on.
  abbrev Counted : ℕ → ℕ → SendOutcome → ContainerHistory → Type 0
  Counted v a o g = (from_vip vip g ≡ got_of o + v) × (astray vip g ≡ astray_of o + a)

  abbrev Sends : ℕ → ℕ → ContainerHistory → ContainerProg SendOutcome → Type 0
  Sends v a h p = Ensures (Counted v a) p h

  module _ (seq v a : ℕ) where
    send_once-Counted :
        (h : ContainerHistory)
        → from_vip vip h ≡ v
        → astray vip h ≡ a
        → Sends v a h (service_client_send_once vip port seq)
    unfolding service_client_send_once
    send_once-Counted h e f = λ d.
        if_both (Sends v a _) (has_failed d) (omega (arith, e), omega (arith, f))
          (λ w.
            if_both (Sends v a _) (has_failed w) (λ u. (omega (arith, e), omega (arith, f)))
              (λ r u.
                let (got, lost_way) = judged_lem vip r in
                (omega (arith, e, got), omega (arith, f, lost_way))))

    -- An attempt that nothing answered leaves the counts as they were.
    again-Counted :
        (p : ContainerProg SendOutcome) (outcome : SendOutcome) (g : ContainerHistory)
        → ((h : ContainerHistory) → from_vip vip h ≡ v → astray vip h ≡ a → Sends v a h p)
        → Counted v a outcome g
        → Sends v a g (again outcome p)
    again-Counted p got_reply g more c = c
    again-Counted p wrong_source g more c = c
    again-Counted p lost g more c =
        λ u. more ((sleeps 1000, u) ∷ g) (omega (arith, c.0)) (omega (arith, c.1))

    try_send-Counted :
        (n : ℕ) (h : ContainerHistory)
        → from_vip vip h ≡ v
        → astray vip h ≡ a
        → Sends v a h (try_send n vip port seq)
    unfolding try_send
    try_send-Counted zero h e f = (omega (arith, e), omega (arith, f))
    try_send-Counted (suc zero) h e f = send_once-Counted h e f
    try_send-Counted (suc (suc n)) h e f =
        Ensures-bind (Counted v a) (Counted v a) (service_client_send_once vip port seq) _ h
          (send_once-Counted h e f)
          (λ outcome g c. again-Counted _ outcome g (try_send-Counted (suc n)) c)

  go_on-Concludes :
      (outcome : SendOutcome) (more same : ContainerProg ClientResult) (left ok : ℕ)
      (g : ContainerHistory)
      → ((h : ContainerHistory)
          → from_vip vip h ≡ suc ok
          → astray vip h ≡ 0
          → left + suc ok ≤ 8
          → Ensures (Concludes vip) more h)
      → ((h : ContainerHistory)
          → from_vip vip h ≡ ok
          → astray vip h ≡ 0
          → left + ok ≤ 8
          → Ensures (Concludes vip) same h)
      → suc left + ok ≤ 8
      → Counted ok 0 outcome g
      → Ensures (Concludes vip) (go_on outcome more same) g
  go_on-Concludes wrong_source more same left ok g m n l c = omega (arith, c.1)
  go_on-Concludes got_reply more same left ok g m n l c =
      m g (omega (arith, c.0)) (omega (arith, c.1)) (omega (arith, l))
  go_on-Concludes lost more same left ok g m n l c =
      n g (omega (arith, c.0)) (omega (arith, c.1)) (omega (arith, l))

  client_sends-Concludes :
      (left ok : ℕ) (h : ContainerHistory)
      → from_vip vip h ≡ ok
      → astray vip h ≡ 0
      → left + ok ≤ 8
      → Ensures (Concludes vip) (client_sends left vip port ok) h
  unfolding client_sends
  client_sends-Concludes zero ok h e f l = (e, f, omega (arith, l))
  client_sends-Concludes (suc left) ok h e f l =
      Ensures-bind (Counted ok 0) (Concludes vip)
        (try_send (if left == 7 then 5 else 1) vip port (7 - left)) _ h
        (try_send-Counted (7 - left) ok 0 (if left == 7 then 5 else 1) h e f)
        (λ outcome g c.
          go_on-Concludes outcome (client_sends left vip port (suc ok))
            (client_sends left vip port ok) left ok g (client_sends-Concludes left (suc ok))
            (client_sends-Concludes left ok) (omega (arith, l)) c)

-- The client of a service stops at the first reply from an address that is not the service's, and says so; where
-- it counts replies, they are exactly those that came, all from the service's address and eight at most; and
-- where the address of the service is no IP address, it makes no call at all.
pub service_client-Concludes :
    (kernel : ContainerKernel) (env : Env)
    → let end = run kernel (service_client env) [] in
      Concludes (env "ASTERKUBE_SVC_VIP") end.0 end.1
unfolding service_client
service_client-Concludes kernel env =
    let vip = env "ASTERKUBE_SVC_VIP" in
    Ensures-run (Concludes vip) kernel (service_client env) [] (
      Option-both (λ p. Ensures (Concludes vip) p []) (parse_ip vip) (λ e. (e, refl))
        (λ ip e. client_sends-Concludes vip (service_port env) 8 0 [] refl refl (omega arith)))
