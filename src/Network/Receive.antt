-- ===== src/Network/Receive.antt =====
-- The handlers of arriving frames in src/drivers/network.c. A pointer into a frame is the rest of the frame; a
-- result `none` is a read outside the frame.
use Prim.Native.Nat.{bit_and}
use heat_os.Prelude.{
  ℕ, ◌-◌, ◌*◌, ◌/◌, ◌%◌, Bool, true, false, Option, some, List, ltb, ◌==◌, ◌&&◌, ◌||◌, not,
  if◌then◌else◌, drop,
}
use heat_os.Network.{Net, Ping, ping_id}
use heat_os.Network.Ne2000.{Device}
use heat_os.Prelude.{◌>>=◌, byte, slice}
use heat_os.Network.Bytes.{rd16be, bytes_equal}
use heat_os.Network.Send.{send_arp_reply, send_icmp_packet, broadcast_mac}
use heat_os.Network.Resolver.{handle_dns_payload}

unfoldable pub is_broadcast_mac : List ℕ → Bool
is_broadcast_mac mac = bytes_equal mac broadcast_mac

-- `handle_arp_packet` on a packet of Ethernet and IPv4 addresses.
unfoldable pub handle_arp : Device → List ℕ → Net → Option Net
handle_arp dev frame n = do
  op ← rd16be frame 6
  sender_mac ← slice 8 6 frame
  sender_ip ← slice 14 4 frame
  target_ip ← slice 24 4 frame
  some (
      if not (bytes_equal target_ip n.g_ip)
      then n
      else if op == 2
      then record n { arp = record { valid = true; ip = sender_ip; mac = sender_mac } }
      else if op == 1
      then send_arp_reply dev sender_mac sender_ip n
      else n)

unfoldable pub handle_arp_packet : Device → List ℕ → ℕ → Net → Option Net
handle_arp_packet dev frame len n = if ltb len 28 then some n else do
  hardware ← rd16be frame 0
  protocol ← rd16be frame 2
  hardware_len ← byte frame 4
  protocol_len ← byte frame 5
  if (hardware == 1) && (protocol == 0x0800) && (hardware_len == 6) && (protocol_len == 4)
      then handle_arp dev frame n
      else some n

unfoldable pub handle_udp_packet : List ℕ → ℕ → Net → Option Net
handle_udp_packet packet len n = if ltb len 8 then some n else do
  src_port ← rd16be packet 0
  dst_port ← rd16be packet 2
  udp_len ← rd16be packet 4
  if ltb udp_len 8 || ltb len udp_len then some n else do
    dns ← handle_dns_payload (drop 8 packet) (udp_len - 8) src_port dst_port n.dns
    some (record n { dns = dns })

-- An echo reply, taken when it is the one waited for.
unfoldable pub handle_echo_reply : ℕ → ℕ → ℕ → ℕ → List ℕ → Net → Net
handle_echo_reply ttl icmp_len ident seq src_ip n =
    let p : Ping = n.ping in
    if p.waiting && (ident == ping_id) && (seq == p.expected_seq) && bytes_equal src_ip p.target
    then record n {
      ping = record p {
        reply_ttl = ttl;
        reply_bytes = icmp_len - 8;
        reply = true;
        waiting = false;
      };
    }
    else n

-- The ICMP part of `handle_ipv4_packet`.
unfoldable pub handle_icmp : Device → List ℕ → List ℕ → ℕ → List ℕ → ℕ → Net → Option Net
handle_icmp dev eth_src src_ip ttl icmp icmp_len n = if ltb icmp_len 8 then some n else do
  icmp_type ← byte icmp 0
  ident ← rd16be icmp 4
  seq ← rd16be icmp 6
  if icmp_type == 8
      then (slice 8 (icmp_len - 8) icmp >>= λ payload.
          some (send_icmp_packet dev eth_src src_ip 0 ident seq payload n).1)
      else some (if icmp_type == 0 then handle_echo_reply ttl icmp_len ident seq src_ip n else n)

-- `handle_ipv4_packet` from the header's length on.
unfoldable pub handle_ipv4 : Device → List ℕ → List ℕ → ℕ → ℕ → Net → Option Net
handle_ipv4 dev eth_src packet len ihl n = do
  stated_len ← rd16be packet 2
  flags ← rd16be packet 6
  ttl ← byte packet 8
  protocol ← byte packet 9
  src_ip ← slice 12 4 packet
  dst_ip ← slice 16 4 packet
  let total_len = if ltb len stated_len then len else stated_len in
      if ltb stated_len ihl || not (bit_and flags 0x1FFF == 0) || not (bytes_equal dst_ip n.g_ip)
      then some n
      else if protocol == 17
      then handle_udp_packet (drop ihl packet) (total_len - ihl) n
      else if protocol == 1
      then handle_icmp dev eth_src src_ip ttl (drop ihl packet) (total_len - ihl) n
      else some n

unfoldable pub handle_ipv4_packet : Device → List ℕ → List ℕ → ℕ → Net → Option Net
handle_ipv4_packet dev eth_src packet len n = if ltb len 20 then some n else do
  first ← byte packet 0
  let ihl = first % 16 * 4 in
      if not (first / 16 == 4) || ltb ihl 20 || ltb len ihl
      then some n
      else handle_ipv4 dev eth_src packet len ihl n

unfoldable pub handle_ethernet_frame : Device → List ℕ → ℕ → Net → Option Net
handle_ethernet_frame dev frame len n = if ltb len 14 then some n else do
  dst_mac ← slice 0 6 frame
  src_mac ← slice 6 6 frame
  eth_type ← rd16be frame 12
  if not (bytes_equal dst_mac n.g_mac) && not (is_broadcast_mac dst_mac)
      then some n
      else if eth_type == 0x0806
      then handle_arp_packet dev (drop 14 frame) (len - 14) n
      else if eth_type == 0x0800
      then handle_ipv4_packet dev src_mac (drop 14 frame) (len - 14) n
      else some n
