-- ===== src/Network/Echo.antt =====
-- An echo request that `send_icmp_packet` of src/drivers/network.c builds, at the host that it is for.
use heat_os.Prelude.{
  ℕ, zero, suc, ◌+◌, ◌-◌, ◌*◌, ◌/◌, ◌%◌, ◌<◌, ◌≡◌, refl, ap, true, some, List, [], ◌∷◌, ◌++◌, arith,
  length, take, eq→==, le→ltb-false, le→leb, byte, slice,
}
use heat_os.Network.{Net}
use heat_os.Network.Ne2000.{Device}
use heat_os.Network.Bytes.{wr16be, rd16be, checked, with_field, bytes_equal}
use heat_os.Network.Send.{icmp_message, ip_header, send_icmp_packet}
use heat_os.Network.Receive.{
  handle_icmp, handle_ipv4, handle_ipv4_packet, handle_ethernet_frame, handle_echo_reply,
}

take-length : (p : List ℕ) (n : ℕ) → n ≡ length p → take n p ≡ p
take-length [] zero e = refl
take-length [] (suc n) e = refl
take-length (x ∷ p) zero e = absurd (omega arith)
take-length (x ∷ p) (suc n) e = ap (λ q. x ∷ q) (take-length p n (omega arith))

wide : (v : ℕ) → v < 65536 → v / 256 % 256 * 256 + v % 256 ≡ v
wide v h = omega arith

slice-rest :
    (a b c d e f g h : ℕ) (p : List ℕ) (n : ℕ)
    → n ≡ length p
    → slice 8 n (a ∷ b ∷ c ∷ d ∷ e ∷ f ∷ g ∷ h ∷ p) ≡ some p
unfolding slice
slice-rest a b c d e f g h p n same =
    rw (le→leb (8 + n) (suc (suc (suc (suc (suc (suc (suc (suc (length p))))))))) (omega arith))
      (ap some (take-length p n same))

module _ (dev : Device) (ident seq : ℕ) (payload : List ℕ) (hi : ident < 65536)
    (hs : seq < 65536) where
  pub handle_icmp-icmp_message :
      (eth_src src_ip : List ℕ) (ttl : ℕ) (n : Net)
      → handle_icmp dev eth_src src_ip ttl (icmp_message 8 ident seq payload) (8 + length payload) n
        ≡ some (send_icmp_packet dev eth_src src_ip 0 ident seq payload n).1
  unfolding handle_icmp icmp_message checked with_field wr16be rd16be byte
  handle_icmp-icmp_message eth_src src_ip ttl n =
      rw
        (
          handle_icmp,
          le→ltb-false (8 + length payload) 8 (omega arith),
          wide ident hi,
          wide seq hs,
          slice-rest 8 0 _ _ _ _ _ _ payload (8 + length payload - 8) (omega arith),
        )
        refl

  pub handle_icmp-reply :
      (eth_src src_ip : List ℕ) (ttl : ℕ) (n : Net)
      → handle_icmp dev eth_src src_ip ttl (icmp_message 0 ident seq payload) (8 + length payload) n
        ≡ some (handle_echo_reply ttl (8 + length payload) ident seq src_ip n)
  unfolding handle_icmp icmp_message checked with_field wr16be rd16be byte
  handle_icmp-reply eth_src src_ip ttl n =
      rw
        (handle_icmp, le→ltb-false (8 + length payload) 8 (omega arith), wide ident hi, wide seq hs)
        refl

pub bytes_equal_self : (p : List ℕ) → bytes_equal p p ≡ true
unfolding bytes_equal
bytes_equal_self [] = refl
bytes_equal_self (a ∷ p) = rw (eq→== a a refl) (bytes_equal_self p)

module _ (dev : Device) (a b c d e f g h : ℕ) (id : ℕ) (m : List ℕ) (n : Net) where
  abbrev source : List ℕ
  source = a ∷ b ∷ c ∷ d ∷ []

  abbrev target : List ℕ
  target = e ∷ f ∷ g ∷ h ∷ []

  abbrev packet : List ℕ
  packet = ip_header 1 (20 + length m) id source target ++ m

  length-packet : length packet ≡ 20 + length m
  unfolding ip_header checked with_field wr16be
  length-packet = omega arith

  handle_ipv4-packet :
      (eth_src : List ℕ)
      → n.g_ip ≡ target
      → 20 + length m < 65536
      → handle_ipv4 dev eth_src packet (20 + length m) 20 n
        ≡ handle_icmp dev eth_src source 64 m (length m) n
  unfolding handle_ipv4 ip_header checked with_field wr16be rd16be byte slice
  handle_ipv4-packet eth_src mine small =
      let len : ℕ = length packet in
      let rest : 20 + length m - 20 ≡ length m = omega arith in
      rw
        (
          handle_ipv4,
          wide (20 + length m) small,
          le→leb 16 len (omega (arith, length-packet)),
          le→leb 20 len (omega (arith, length-packet)),
          mine,
          bytes_equal_self target,
          le→ltb-false (20 + length m) 20 (omega arith),
          le→ltb-false (20 + length m) (20 + length m) (omega arith),
          rest,
        )
        refl

  pub handle_ipv4_packet-packet :
      (eth_src : List ℕ)
      → n.g_ip ≡ target
      → 20 + length m < 65536
      → handle_ipv4_packet dev eth_src packet (20 + length m) n
        ≡ handle_icmp dev eth_src source 64 m (length m) n
  unfolding handle_ipv4_packet ip_header checked with_field wr16be byte
  handle_ipv4_packet-packet eth_src mine small =
      rw (handle_ipv4_packet, le→ltb-false (20 + length m) 20 (omega arith))
        (handle_ipv4-packet eth_src mine small)

-- A frame from one address of the Ethernet to another.
module _ (dev : Device) (a b c d e f g h i j k l : ℕ) (p : List ℕ) (n : Net) where
  abbrev from_mac : List ℕ
  from_mac = a ∷ b ∷ c ∷ d ∷ e ∷ f ∷ []

  abbrev to_mac : List ℕ
  to_mac = g ∷ h ∷ i ∷ j ∷ k ∷ l ∷ []

  pub handle_ethernet_frame-ipv4 :
      (len : ℕ)
      → n.g_mac ≡ to_mac
      → len ≡ 14 + length p
      → handle_ethernet_frame dev (to_mac ++ (from_mac ++ (wr16be 0x0800 ++ p))) len n
        ≡ handle_ipv4_packet dev from_mac p (len - 14) n
  unfolding handle_ethernet_frame wr16be rd16be byte slice
  handle_ethernet_frame-ipv4 len mine same =
      let total : ℕ = length (to_mac ++ (from_mac ++ (wr16be 0x0800 ++ p))) in
      rw
        (
          handle_ethernet_frame,
          le→ltb-false len 14 (omega arith),
          le→leb 6 total (omega arith),
          le→leb 12 total (omega arith),
          mine,
          bytes_equal_self to_mac,
        )
        refl
