-- ===== src/Network/Send.antt =====
-- The frames that src/drivers/network.c builds and sends, and the routing.
use Prim.Native.Nat.{bit_and}
use heat_os.Prelude.{
  ℕ, ◌+◌, ◌%◌, Bool, true, false, List, [], ◌∷◌, ◌++◌, ltb, ◌==◌, ◌&&◌, if◌then◌else◌, length,
}
use heat_os.Network.{Net}
use heat_os.Network.Ne2000.{Device, ne_send_frame}
use heat_os.Network.Bytes.{wr16be, checked}

unfoldable pub send : Device → List ℕ → Net → Bool × Net
send dev frame n = let sent = ne_send_frame dev frame n.card in (sent.0, record n { card = sent.1 })

unfoldable pub build_arp_frame : List ℕ → ℕ → List ℕ → List ℕ → List ℕ → List ℕ → List ℕ
build_arp_frame dst_mac op sender_mac sender_ip target_mac target_ip =
    dst_mac
    ++ (sender_mac
        ++ (wr16be 0x0806
            ++ (wr16be 1
                ++ (wr16be 0x0800
                    ++ (6 ∷ 4 ∷ wr16be op
                        ++ (sender_mac ++ (sender_ip ++ (target_mac ++ target_ip))))))))

unfoldable pub send_arp_reply : Device → List ℕ → List ℕ → Net → Net
send_arp_reply dev dst_mac dst_ip n =
    (send dev (build_arp_frame dst_mac 2 n.g_mac n.g_ip dst_mac dst_ip) n).1

abbrev pub broadcast_mac : List ℕ
broadcast_mac = 255 ∷ 255 ∷ 255 ∷ 255 ∷ 255 ∷ 255 ∷ []

abbrev zero_mac : List ℕ
zero_mac = 0 ∷ 0 ∷ 0 ∷ 0 ∷ 0 ∷ 0 ∷ []

unfoldable pub send_arp_request : Device → List ℕ → Net → Net
send_arp_request dev target_ip n =
    (send dev (build_arp_frame broadcast_mac 1 n.g_mac n.g_ip zero_mac target_ip) n).1

unfoldable pub masked_equal : List ℕ → List ℕ → List ℕ → Bool
masked_equal [] q mask = true
masked_equal (a ∷ p) [] mask = true
masked_equal (a ∷ p) (b ∷ q) [] = true
masked_equal (a ∷ p) (b ∷ q) (m ∷ mask) = (bit_and a m == bit_and b m) && masked_equal p q mask

unfoldable pub ip_same_subnet : List ℕ → List ℕ → Net → Bool
ip_same_subnet a b n = masked_equal a b n.g_netmask

unfoldable pub route_next_hop : List ℕ → Net → List ℕ
route_next_hop dst_ip n = if ip_same_subnet dst_ip n.g_ip n then dst_ip else n.g_gateway

-- The 20 bytes of an IPv4 header.
unfoldable pub ip_header : ℕ → ℕ → ℕ → List ℕ → List ℕ → List ℕ
ip_header protocol ip_len ident src dst =
    checked (0x45 ∷ 0 ∷ wr16be ip_len ++ (wr16be ident ++ (wr16be 0 ++ (64 ∷ protocol ∷ []))))
      (src ++ dst)

unfoldable pub icmp_message : ℕ → ℕ → ℕ → List ℕ → List ℕ
icmp_message icmp_type ident seq payload =
    checked (icmp_type ∷ 0 ∷ []) (wr16be ident ++ (wr16be seq ++ payload))

unfoldable pub udp_message : ℕ → ℕ → List ℕ → List ℕ
udp_message src_port dst_port payload =
    wr16be src_port
    ++ (wr16be dst_port ++ (wr16be ((8 + length payload) % 65536) ++ (wr16be 0 ++ payload)))

-- The frame with `message` in an IPv4 packet.
unfoldable pub ip_frame : List ℕ → List ℕ → ℕ → List ℕ → Net → List ℕ
ip_frame dst_mac dst_ip protocol message n =
    let header = ip_header protocol ((20 + length message) % 65536) n.ipv4_id n.g_ip dst_ip in
    dst_mac ++ (n.g_mac ++ (wr16be 0x0800 ++ (header ++ message)))

-- The common part of `send_icmp_packet` and `send_udp_packet`.
unfoldable pub send_ip : Device → List ℕ → List ℕ → ℕ → List ℕ → Net → Bool × Net
send_ip dev dst_mac dst_ip protocol message n =
    let ip_len = (20 + length message) % 65536 in
    let frame = ip_frame dst_mac dst_ip protocol message n in
    if ltb 1600 ((14 + ip_len) % 65536)
    then (false, n)
    else send dev frame (record n { ipv4_id = (n.ipv4_id + 1) % 65536 })

unfoldable pub send_icmp_packet : Device → List ℕ → List ℕ → ℕ → ℕ → ℕ → List ℕ → Net → Bool × Net
send_icmp_packet dev dst_mac dst_ip icmp_type ident seq payload n =
    send_ip dev dst_mac dst_ip 1 (icmp_message icmp_type ident seq payload) n

unfoldable pub send_udp_packet : Device → List ℕ → List ℕ → ℕ → ℕ → List ℕ → Net → Bool × Net
send_udp_packet dev dst_mac dst_ip src_port dst_port payload n =
    send_ip dev dst_mac dst_ip 17 (udp_message src_port dst_port payload) n
