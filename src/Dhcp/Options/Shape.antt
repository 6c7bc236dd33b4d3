-- ===== src/Dhcp/Options/Shape.antt =====
-- The shape of the leases that the option walk of cmd/asterkube-init/dhcp_linux.go makes.
use asterkube.Prelude.{
  ℕ, zero, suc, ◌≡◌, ◌⊎◌, inl, refl, List, [], ◌∷◌, ◌++◌, arith, take, drop, length, length-take,
  All, if_both, ◌==◌, ltb,
}
use asterkube.Prelude.Words.{Bytes}
use asterkube.Inet.{Ip}
use asterkube.Dhcp.Packet.{opt_end}
use asterkube.Dhcp.Options.{
  DhcpLease, Walk, new_lease, groups_of_four, take_option, options_loop, parse_options,
}

abbrev pub IsV4OrNil : Bytes → Type 0
IsV4OrNil b = (length b ≡ 0) ⊎ (length b ≡ 4)

-- An address of four bytes, a mask, a gateway and a server id that are nil or four bytes long, and name
-- servers of four bytes each.
pub record IsWellFormed (lease : DhcpLease) : Type 0 where
  pub ip_v4 : length lease.ip ≡ 4
  pub mask_v4 : IsV4OrNil lease.mask
  pub gateway_v4 : IsV4OrNil lease.gateway
  pub server_v4 : IsV4OrNil lease.server_id
  pub dns_v4 : All (λ d. length d ≡ 4) lease.dns

All-groups_of_four : (v : Bytes) → All (λ d. length d ≡ 4) (groups_of_four v)
unfolding groups_of_four
All-groups_of_four [] = tt
All-groups_of_four (a ∷ []) = tt
All-groups_of_four (a ∷ b ∷ []) = tt
All-groups_of_four (a ∷ b ∷ c ∷ []) = tt
All-groups_of_four (a ∷ b ∷ c ∷ d ∷ rest) = (refl, All-groups_of_four rest)

All-append :
    (xs ys : List Bytes)
    → All (λ d. length d ≡ 4) xs
    → All (λ d. length d ≡ 4) ys
    → All (λ d. length d ≡ 4) (xs ++ ys)
All-append [] ys h k = k
All-append (x ∷ xs) ys (e, h) k = (e, All-append xs ys h k)

take_option-IsWellFormed :
    (code : ℕ) (v : Bytes) (w : Walk)
    → IsWellFormed w.lease
    → IsWellFormed (take_option code v w).lease
unfolding take_option
take_option-IsWellFormed code v w h = record {
  ip_v4 = ground arith;
  mask_v4 = ground arith;
  gateway_v4 = ground (arith, length-take 4 v);
  server_v4 = ground arith;
  dns_v4 = ground (arith, All-append w.lease.dns (groups_of_four v), All-groups_of_four v);
}

options_loop-IsWellFormed :
    (fuel : ℕ) (b : Bytes) (w : Walk)
    → IsWellFormed w.lease
    → IsWellFormed (options_loop fuel b w).lease
unfolding options_loop
options_loop-IsWellFormed fuel [] w h = h
options_loop-IsWellFormed zero (code ∷ rest) w h = h
options_loop-IsWellFormed (suc fuel) (code ∷ []) w h =
    if_both P (code == opt_end) h (if_both P (code == 0) (options_loop-IsWellFormed fuel [] w h) h)
  where
    P : Walk → Type 0
    P u = IsWellFormed u.lease
options_loop-IsWellFormed (suc fuel) (code ∷ l ∷ rest) w h =
    let pad = options_loop-IsWellFormed fuel (l ∷ rest) w h in
    let next =
      options_loop-IsWellFormed fuel (drop l rest) (take_option code (take l rest) w)
        (take_option-IsWellFormed code (take l rest) w h) in
    if_both P (code == opt_end) h
      (if_both P (code == 0) pad (if_both P (ltb (length rest) l) h next))
  where
    P : Walk → Type 0
    P u = IsWellFormed u.lease

-- Whatever the options say, a lease that begins with an address of four bytes stays well formed.
pub parse_options-IsWellFormed :
    (b : Bytes) (ip : Ip) → length ip ≡ 4 → IsWellFormed (parse_options b (new_lease ip)).lease
unfolding parse_options
parse_options-IsWellFormed b ip h = options_loop-IsWellFormed (length b) b _ (record {
  ip_v4 = h;
  mask_v4 = inl refl;
  gateway_v4 = inl refl;
  server_v4 = inl refl;
  dns_v4 = tt;
})
