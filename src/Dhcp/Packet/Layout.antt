-- ===== src/Dhcp/Packet/Layout.antt =====
-- Where buildDHCP of cmd/asterkube-init/dhcp_linux.go puts what it is given.
use asterkube.Prelude.{
  ℕ, ◌≡◌, refl, sym, ap, subst, ◌∙◌, Bool, true, false, [], ◌∷◌, Option, none, some, arith, take,
  drop, length, replicate, if◌then◌else◌, take-append_at, drop-append_at,
}
use asterkube.Prelude.Words.{Bytes, put_u16_be, put_u32_be, copy_at, slice}
use asterkube.Inet.{Ip, to4-length}
use asterkube.Dhcp.Packet.{
  header, build_dhcp, request_options, given_v4, copy_given, dhcp_magic_cookie, dhcp_flag_broadcast,
}

-- The four bytes of ciaddr: the address, or zeros.
abbrev pub address_field : Option Bytes → Bytes
address_field none = 0 ∷ 0 ∷ 0 ∷ 0 ∷ []
address_field (some v4) = v4

abbrev pub flags_field : Bool → Bytes
flags_field broadcast = if broadcast then 0x80 ∷ 0 ∷ [] else 0 ∷ 0 ∷ []

-- The header, field by field, with zeros wherever no field is named.
pub record Layout (h : Bytes) (mac : Bytes) (xid : ℕ) (ciaddr : Option Bytes) (broadcast : Bool)
    : Type 0 where
  pub size : length h ≡ 240
  pub op_htype_hlen_hops : slice 0 4 h ≡ 1 ∷ 1 ∷ 6 ∷ 0 ∷ []
  pub xid_field : slice 4 4 h ≡ put_u32_be xid
  pub secs_flags : slice 8 4 h ≡ 0 ∷ 0 ∷ flags_field broadcast
  pub ciaddr_field : slice 12 4 h ≡ address_field ciaddr
  pub other_addresses : slice 16 12 h ≡ replicate 12 0
  pub chaddr_field : slice 28 6 h ≡ mac
  pub padding : slice 34 202 h ≡ replicate 202 0
  pub cookie : slice 236 4 h ≡ dhcp_magic_cookie

given_v4-length : (ip : Ip) {v4 : Bytes} → given_v4 ip ≡ some v4 → length v4 ≡ 4
unfolding given_v4
given_v4-length ip {v4} e = ground (arith, to4-length ip v4)

abbrev filled : Bytes → ℕ → Option Bytes → Bool → Bytes
filled mac xid ciaddr broadcast =
    let p0 = copy_at (replicate 240 0) 0 (1 ∷ 1 ∷ 6 ∷ []) in
    let p1 = copy_at p0 4 (put_u32_be xid) in
    let p2 = if broadcast then copy_at p1 10 (put_u16_be dhcp_flag_broadcast) else p1 in
    let p3 = copy_given p2 12 ciaddr in
    let p4 = copy_at p3 28 (take 6 mac) in copy_at p4 236 dhcp_magic_cookie

module _ (m0 m1 m2 m3 m4 m5 xid : ℕ) where
  abbrev six : Bytes
  six = m0 ∷ m1 ∷ m2 ∷ m3 ∷ m4 ∷ m5 ∷ []

  Layout-none : (broadcast : Bool) → Layout (filled six xid none broadcast) six xid none broadcast
  unfolding copy_at
  Layout-none true = record {
    size = refl;
    op_htype_hlen_hops = refl;
    xid_field = refl;
    secs_flags = refl;
    ciaddr_field = refl;
    other_addresses = refl;
    chaddr_field = refl;
    padding = refl;
    cookie = refl;
  }
  Layout-none false = record {
    size = refl;
    op_htype_hlen_hops = refl;
    xid_field = refl;
    secs_flags = refl;
    ciaddr_field = refl;
    other_addresses = refl;
    chaddr_field = refl;
    padding = refl;
    cookie = refl;
  }

  Layout-some :
      (a b c d : ℕ) (broadcast : Bool)
      → Layout
          (filled six xid (some (a ∷ b ∷ c ∷ d ∷ [])) broadcast)
          six
          xid
          (some (a ∷ b ∷ c ∷ d ∷ []))
          broadcast
  unfolding copy_at
  Layout-some a b c d true = record {
    size = refl;
    op_htype_hlen_hops = refl;
    xid_field = refl;
    secs_flags = refl;
    ciaddr_field = refl;
    other_addresses = refl;
    chaddr_field = refl;
    padding = refl;
    cookie = refl;
  }
  Layout-some a b c d false = record {
    size = refl;
    op_htype_hlen_hops = refl;
    xid_field = refl;
    secs_flags = refl;
    ciaddr_field = refl;
    other_addresses = refl;
    chaddr_field = refl;
    padding = refl;
    cookie = refl;
  }

four_of :
    (xs : Bytes) → length xs ≡ 4 → (a : ℕ) × (b : ℕ) × (c : ℕ) × (d : ℕ) × (xs ≡ a ∷ b ∷ c ∷ d ∷ [])
four_of (a ∷ b ∷ c ∷ d ∷ []) h = (a, b, c, d, refl)
four_of [] h = absurd (omega arith)
four_of (a ∷ []) h = absurd (omega arith)
four_of (a ∷ b ∷ []) h = absurd (omega arith)
four_of (a ∷ b ∷ c ∷ []) h = absurd (omega arith)
four_of (a ∷ b ∷ c ∷ d ∷ e ∷ xs) h = absurd (omega arith)

six_of :
    (xs : Bytes)
    → length xs ≡ 6
    → (a : ℕ) × (b : ℕ) × (ys : Bytes) × (length ys ≡ 4) × (xs ≡ a ∷ b ∷ ys)
six_of [] h = absurd (omega arith)
six_of (a ∷ []) h = absurd (omega arith)
six_of (a ∷ b ∷ ys) h = (a, b, ys, omega arith, refl)

Layout-filled :
    (mac : Bytes) (xid : ℕ) (ciaddr : Option Bytes) (broadcast : Bool)
    → length mac ≡ 6
    → ((v4 : Bytes) → ciaddr ≡ some v4 → length v4 ≡ 4)
    → Layout (filled mac xid ciaddr broadcast) mac xid ciaddr broadcast
Layout-filled mac xid ciaddr broadcast h k =
    let (m0, m1, ys, hy, e) = six_of mac h in
    let (m2, m3, m4, m5, f) = four_of ys hy in
    subst (λ m. Layout (filled m xid ciaddr broadcast) m xid ciaddr broadcast)
      (sym (e ∙ ap (λ t. m0 ∷ m1 ∷ t) f)) (go m0 m1 m2 m3 m4 m5 ciaddr k)
  where
    go :
        (m0 m1 m2 m3 m4 m5 : ℕ) (o : Option Bytes)
        → ((v4 : Bytes) → o ≡ some v4 → length v4 ≡ 4)
        → Layout
            (filled (six m0 m1 m2 m3 m4 m5 xid) xid o broadcast)
            (six m0 m1 m2 m3 m4 m5 xid)
            xid
            o
            broadcast
    go m0 m1 m2 m3 m4 m5 none k = Layout-none m0 m1 m2 m3 m4 m5 xid broadcast
    go m0 m1 m2 m3 m4 m5 (some v4) k =
        let (a, b, c, d, e) = four_of v4 (k v4 refl) in
        subst
          (λ v.
            Layout (filled (six m0 m1 m2 m3 m4 m5 xid) xid (some v) broadcast)
              (six m0 m1 m2 m3 m4 m5 xid) xid (some v) broadcast)
          (sym e) (Layout-some m0 m1 m2 m3 m4 m5 xid a b c d broadcast)

-- buildDHCP with a hardware address of six bytes: the first 240 bytes are a header that holds the
-- transaction id, the broadcast flag exactly where it was asked for, the client's address, or zeros
-- where it has none in IPv4 form, the hardware address and the cookie, each at its offset and with
-- zeros between them; the options follow.
pub build_dhcp-Layout :
    (msg_type : ℕ) (mac : Bytes) (xid : ℕ) (ciaddr req_ip server_id : Ip) (broadcast : Bool)
    → length mac ≡ 6
    → Layout
        (take 240 (build_dhcp msg_type mac xid ciaddr req_ip server_id broadcast))
        mac
        xid
        (given_v4 ciaddr)
        broadcast
      × (drop 240 (build_dhcp msg_type mac xid ciaddr req_ip server_id broadcast)
          ≡ request_options msg_type req_ip server_id)
unfolding build_dhcp header
build_dhcp-Layout msg_type mac xid ciaddr req_ip server_id broadcast h =
    let h0 = filled mac xid (given_v4 ciaddr) broadcast in
    let opts = request_options msg_type req_ip server_id in
    let lay : Layout h0 mac xid (given_v4 ciaddr) broadcast =
      Layout-filled mac xid (given_v4 ciaddr) broadcast h (λ v4 e. given_v4-length ciaddr e) in
    (
      subst (λ t. Layout t mac xid (given_v4 ciaddr) broadcast)
          (sym (take-append_at 240 h0 opts (sym lay.size))) lay,
      drop-append_at 240 h0 opts (sym lay.size),
    )
