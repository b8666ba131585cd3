-- ===== src/Network/FrameTotal.antt =====
-- The IPv4 and Ethernet handlers of src/drivers/network.c read inside the frame only.
use Prim.Native.Nat.{bit_and}
use heat_os.Prelude.{
  ℕ, ◌+◌, ◌-◌, ◌*◌, ◌/◌, ◌%◌, ◌≤◌, ◌<◌, ◌≡◌, some, List, ltb, ◌==◌, ◌&&◌, ◌||◌, not, if◌then◌else◌,
  arith, length, drop, length-drop, Bool-cases, inl, inr, ltb-false,
}
use heat_os.Network.{Net}
use heat_os.Network.Ne2000.{Device}
use heat_os.Prelude.{byte, slice}
use heat_os.Network.Bytes.{rd16be, bytes_equal}
use heat_os.Prelude.{
  Gives, Any, bind-Gives, if-Gives, byte-Gives, slice-Gives, Gives_weaken, Gives-result, or-false,
}
use heat_os.Network.Total.{rd16be-Gives}
use heat_os.Network.Receive.{
  is_broadcast_mac, handle_ipv4, handle_ipv4_packet, handle_ethernet_frame,
}
use heat_os.Network.ReceiveTotal.{
  IsNet, handle_udp_packet-IsNet, handle_icmp-IsNet, handle_arp_packet-IsNet,
}

module _ (dev : Device) (n : Net) (h : IsNet n) where
  handle_ipv4-IsNet :
      (eth_src packet : List ℕ) (len ihl : ℕ)
      → len ≤ length packet
      → len < 65000
      → 20 ≤ len
      → ihl ≤ len
      → Gives IsNet (handle_ipv4 dev eth_src packet len ihl n)
  unfolding handle_ipv4
  handle_ipv4-IsNet eth_src packet len ihl le small enough ihl_le =
      bind-Gives IsNet Any (rd16be packet 2) _ (rd16be-Gives packet 2 (omega arith)) (λ stated a.
        bind-Gives IsNet Any (rd16be packet 6) _ (rd16be-Gives packet 6 (omega arith)) (λ flags b.
          bind-Gives IsNet Any (byte packet 8) _ (byte-Gives packet 8 (omega arith)) (λ ttl c.
            bind-Gives IsNet Any (byte packet 9) _ (byte-Gives packet 9 (omega arith))
              (λ protocol d.
                bind-Gives IsNet (λ q. length q ≡ 4) (slice 12 4 packet) _
                  (slice-Gives 12 4 packet (omega arith))
                  (λ src e.
                    bind-Gives IsNet (λ q. length q ≡ 4) (slice 16 4 packet) _
                      (slice-Gives 16 4 packet (omega arith))
                      (λ dst f.
                        if-Gives IsNet
                          (ltb stated ihl
                            || not (bit_and flags 0x1FFF == 0)
                            || not (bytes_equal dst n.g_ip))
                          _ _ (λ other. h)
                          (λ ours.
                            let fits = payload_fits stated in
                            if-Gives IsNet (protocol == 17) _ _
                              (λ udp.
                                handle_udp_packet-IsNet dev n h (drop ihl packet) _ fits.0 fits.1)
                              (λ not_udp.
                                if-Gives IsNet (protocol == 1) _ _
                                  (λ icmp.
                                    handle_icmp-IsNet dev n h eth_src src ttl (drop ihl packet) _
                                      fits.0)
                                  (λ other. h)))))))))
    where
      payload_fits :
          (stated : ℕ)
          → ((if ltb len stated then len else stated) - ihl ≤ length (drop ihl packet))
            × ((if ltb len stated then len else stated) - ihl < 65000)
      payload_fits stated =
          let rest = length-drop ihl packet in
          elim (Bool-cases (ltb len stated)) [
            | inl e ↦ rw e (omega arith, omega arith)
            | inr e ↦ let lt = ltb-false _ _ e in rw e (omega arith, omega arith)
          ]

  handle_ipv4_packet-IsNet :
      (eth_src packet : List ℕ) (len : ℕ)
      → len ≤ length packet
      → len < 65000
      → Gives IsNet (handle_ipv4_packet dev eth_src packet len n)
  unfolding handle_ipv4_packet
  handle_ipv4_packet-IsNet eth_src packet len le small =
      if-Gives IsNet (ltb len 20) _ _ (λ short. h)
        (λ long.
          let enough = ltb-false _ _ long in
          bind-Gives IsNet Any (byte packet 0) _ (byte-Gives packet 0 (omega arith)) (λ first a.
            if-Gives IsNet
              (not (first / 16 == 4) || ltb (first % 16 * 4) 20 || ltb len (first % 16 * 4)) _ _
              (λ bad. h)
              (λ good.
                let bound =
                  or-false (not (first / 16 == 4) || ltb (first % 16 * 4) 20)
                    (ltb len (first % 16 * 4)) good in
                handle_ipv4-IsNet eth_src packet len (first % 16 * 4) le small enough
                  (ltb-false _ _ bound.1))))

pub handle_ethernet_frame-Gives :
    (dev : Device) (frame : List ℕ) (len : ℕ) (n : Net)
    → len ≤ length frame
    → len ≤ 1600
    → IsNet n
    → Gives IsNet (handle_ethernet_frame dev frame len n)
unfolding handle_ethernet_frame
handle_ethernet_frame-Gives dev frame len n le small h =
    if-Gives IsNet (ltb len 14) _ _ (λ short. h)
      (λ long.
        let enough = ltb-false _ _ long in
        let rest = length-drop 14 frame in
        bind-Gives IsNet Any (slice 0 6 frame) _ (six 0 (omega arith)) (λ dst a.
          bind-Gives IsNet Any (slice 6 6 frame) _ (six 6 (omega arith)) (λ src b.
            bind-Gives IsNet Any (rd16be frame 12) _ (rd16be-Gives frame 12 (omega arith))
              (λ eth_type c.
                if-Gives IsNet (not (bytes_equal dst n.g_mac) && not (is_broadcast_mac dst)) _ _
                  (λ other. h)
                  (λ ours.
                    if-Gives IsNet (eth_type == 0x0806) _ _
                      (λ arp.
                        handle_arp_packet-IsNet dev n h (drop 14 frame) (len - 14) (omega arith))
                      (λ not_arp.
                        if-Gives IsNet (eth_type == 0x0800) _ _
                          (λ ip.
                            handle_ipv4_packet-IsNet dev n h src (drop 14 frame) (len - 14)
                              (omega arith) (omega arith))
                          (λ other. h)))))))
  where
    six : (at : ℕ) → at + 6 ≤ length frame → Gives Any (slice at 6 frame)
    six at fits =
        Gives_weaken (λ q. length q ≡ 6) Any (slice at 6 frame) (λ q e. tt)
          (slice-Gives at 6 frame fits)

-- Whatever the `len` bytes of a frame hold, at most as many as the receive buffer has, `handle_ethernet_frame`
-- reads only inside them and ends, with every address in the statics still of its width.
pub handle_ethernet_frame-IsNet :
    (dev : Device) (frame : List ℕ) (len : ℕ) (n : Net)
    → len ≤ length frame
    → len ≤ 1600
    → IsNet n
    → (n' : Net) × (handle_ethernet_frame dev frame len n ≡ some n') × IsNet n'
handle_ethernet_frame-IsNet dev frame len n le small h =
    Gives-result IsNet (handle_ethernet_frame dev frame len n)
      (handle_ethernet_frame-Gives dev frame len n le small h)
