-- ===== src/Network/ReceiveTotal.antt =====
-- Whatever a frame holds, the handlers of src/drivers/network.c read inside it only.
use heat_os.Prelude.{
  ℕ, ◌+◌, ◌-◌, ◌%◌, ◌≤◌, ◌<◌, ◌≡◌, Bool, true, false, List, ltb, ◌==◌, ◌&&◌, ◌||◌, not,
  if◌then◌else◌, arith, length, drop, length-drop, Bool-cases, inl, inr, ltb-false,
}
use heat_os.Network.{Net, ping_id}
use heat_os.Network.Ne2000.{Device}
use heat_os.Prelude.{byte, slice}
use heat_os.Network.Bytes.{rd16be, bytes_equal}
use heat_os.Network.Send.{send, send_ip, send_arp_reply, send_icmp_packet}
use heat_os.Prelude.{
  Gives, Any, bind-Gives, if-Gives, byte-Gives, slice-Gives, Gives_weaken, or-false,
}
use heat_os.Network.Total.{rd16be-Gives}
use heat_os.Network.ResolverTotal.{handle_dns_payload-HasIp, HasIp}
use heat_os.Network.Resolver.{handle_dns_payload}
use heat_os.Network.Receive.{
  handle_arp, handle_arp_packet, handle_udp_packet, handle_echo_reply, handle_icmp,
}

-- Every address in the statics has its width.
abbrev pub IsNet : Net → Type 0
IsNet n =
    (length n.g_mac ≡ 6)
    × (length n.g_ip ≡ 4)
    × (length n.g_gateway ≡ 4)
    × (length n.g_netmask ≡ 4)
    × (length n.arp.ip ≡ 4)
    × (length n.arp.mac ≡ 6)
    × (length n.ping.target ≡ 4)
    × (length n.dns.reply_ip ≡ 4)

if-IsNet : (b : Bool) (n n' : Net) → IsNet n → IsNet n' → IsNet (if b then n else n')
if-IsNet true n n' h k = h
if-IsNet false n n' h k = k

pub send_ip-IsNet :
    (dev : Device) (dst_mac dst_ip : List ℕ) (protocol : ℕ) (message : List ℕ) (n : Net)
    → IsNet n
    → IsNet (send_ip dev dst_mac dst_ip protocol message n).1
unfolding send_ip send
send_ip-IsNet dev dst_mac dst_ip protocol message n h =
    elim (Bool-cases (ltb 1600 ((14 + (20 + length message) % 65536) % 65536))) [
      | inl e ↦ rw e h
      | inr e ↦ rw e h
    ]

module _ (dev : Device) (n : Net) (h : IsNet n) where
  send_arp_reply-IsNet : (mac ip : List ℕ) → IsNet (send_arp_reply dev mac ip n)
  unfolding send_arp_reply send
  send_arp_reply-IsNet mac ip = h

  handle_arp-IsNet : (frame : List ℕ) → 28 ≤ length frame → Gives IsNet (handle_arp dev frame n)
  unfolding handle_arp
  handle_arp-IsNet frame long =
      bind-Gives IsNet Any (rd16be frame 6) _ (rd16be-Gives frame 6 (omega arith)) (λ op o.
        bind-Gives IsNet (λ q. length q ≡ 6) (slice 8 6 frame) _
          (slice-Gives 8 6 frame (omega arith))
          (λ mac m.
            bind-Gives IsNet (λ q. length q ≡ 4) (slice 14 4 frame) _
              (slice-Gives 14 4 frame (omega arith))
              (λ ip i.
                bind-Gives IsNet (λ q. length q ≡ 4) (slice 24 4 frame) _
                  (slice-Gives 24 4 frame (omega arith))
                  (λ target t. if-IsNet (not (bytes_equal target n.g_ip)) _ _ h (
                    if-IsNet (op == 2) _ _ (h.0, h.1, h.2, h.3, i, m, h.6, h.7)
                      (if-IsNet (op == 1) _ _ (send_arp_reply-IsNet mac ip) h))))))

  pub handle_arp_packet-IsNet :
      (frame : List ℕ) (len : ℕ)
      → len ≤ length frame
      → Gives IsNet (handle_arp_packet dev frame len n)
  unfolding handle_arp_packet
  handle_arp_packet-IsNet frame len le =
      if-Gives IsNet (ltb len 28) _ _ (λ short. h)
        (λ long.
          let enough = ltb-false _ _ long in
          bind-Gives IsNet Any (rd16be frame 0) _ (rd16be-Gives frame 0 (omega arith))
            (λ hardware a.
              bind-Gives IsNet Any (rd16be frame 2) _ (rd16be-Gives frame 2 (omega arith))
                (λ protocol b.
                  bind-Gives IsNet Any (byte frame 4) _ (byte-Gives frame 4 (omega arith))
                    (λ hardware_len c.
                      bind-Gives IsNet Any (byte frame 5) _ (byte-Gives frame 5 (omega arith))
                        (λ protocol_len d.
                          if-Gives IsNet
                            ((hardware == 1)
                              && (protocol == 0x0800)
                              && (hardware_len == 6)
                              && (protocol_len == 4))
                            _ _ (λ ours. handle_arp-IsNet frame (omega arith)) (λ other. h))))))

  pub handle_udp_packet-IsNet :
      (packet : List ℕ) (len : ℕ)
      → len ≤ length packet
      → len < 65000
      → Gives IsNet (handle_udp_packet packet len n)
  unfolding handle_udp_packet
  handle_udp_packet-IsNet packet len le small =
      if-Gives IsNet (ltb len 8) _ _ (λ short. h)
        (λ long.
          let enough = ltb-false _ _ long in
          bind-Gives IsNet Any (rd16be packet 0) _ (rd16be-Gives packet 0 (omega arith))
            (λ src_port a.
              bind-Gives IsNet Any (rd16be packet 2) _ (rd16be-Gives packet 2 (omega arith))
                (λ dst_port b.
                  bind-Gives IsNet Any (rd16be packet 4) _ (rd16be-Gives packet 4 (omega arith))
                    (λ udp_len c.
                      if-Gives IsNet (ltb udp_len 8 || ltb len udp_len) _ _ (λ bad. h)
                        (λ good.
                          let bound = or-false (ltb udp_len 8) (ltb len udp_len) good in
                          let fits = ltb-false _ _ bound.1 in
                          let rest = length-drop 8 packet in
                          bind-Gives IsNet HasIp
                            (handle_dns_payload (drop 8 packet) (udp_len - 8) src_port dst_port
                              n.dns)
                            _
                            (handle_dns_payload-HasIp (drop 8 packet) (udp_len - 8) (omega arith)
                              (omega arith) src_port dst_port n.dns h.7)
                            (λ dns d. (h.0, h.1, h.2, h.3, h.4, h.5, h.6, d)))))))

  handle_echo_reply-IsNet :
      (ttl icmp_len ident seq : ℕ) (src_ip : List ℕ)
      → IsNet (handle_echo_reply ttl icmp_len ident seq src_ip n)
  unfolding handle_echo_reply
  handle_echo_reply-IsNet ttl icmp_len ident seq src_ip =
      if-IsNet
        (n.ping.waiting
          && (ident == ping_id)
          && (seq == n.ping.expected_seq)
          && bytes_equal src_ip n.ping.target)
        _ _ h h

  pub handle_icmp-IsNet :
      (eth_src src_ip : List ℕ) (ttl : ℕ) (icmp : List ℕ) (len : ℕ)
      → len ≤ length icmp
      → Gives IsNet (handle_icmp dev eth_src src_ip ttl icmp len n)
  unfolding handle_icmp send_icmp_packet
  handle_icmp-IsNet eth_src src_ip ttl icmp len le =
      if-Gives IsNet (ltb len 8) _ _ (λ short. h)
        (λ long.
          let enough = ltb-false _ _ long in
          bind-Gives IsNet Any (byte icmp 0) _ (byte-Gives icmp 0 (omega arith)) (λ icmp_type a.
            bind-Gives IsNet Any (rd16be icmp 4) _ (rd16be-Gives icmp 4 (omega arith)) (λ ident b.
              bind-Gives IsNet Any (rd16be icmp 6) _ (rd16be-Gives icmp 6 (omega arith)) (λ seq c.
                if-Gives IsNet (icmp_type == 8) _ _
                  (λ request.
                    bind-Gives IsNet Any (slice 8 (len - 8) icmp) _
                      (Gives_weaken (λ q. length q ≡ len - 8) Any (slice 8 (len - 8) icmp)
                        (λ q e. tt) (slice-Gives 8 (len - 8) icmp (omega arith)))
                      (λ payload p. send_ip-IsNet dev eth_src src_ip 1 _ n h))
                  (λ other.
                    if-IsNet (icmp_type == 0) _ _ (handle_echo_reply-IsNet ttl len ident seq src_ip)
                      h)))))
