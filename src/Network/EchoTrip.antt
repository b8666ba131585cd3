-- ===== src/Network/EchoTrip.antt =====
-- Two hosts of src/drivers/network.c: an echo request is answered, and the answer is taken.
use heat_os.Prelude.{
  ℕ, ◌+◌, ◌-◌, ◌%◌, ◌≤◌, ◌<◌, ◌≡◌, refl, ap, subst, ◌∙◌, true, false, some, List, [], ◌∷◌, ◌++◌,
  arith, length, eq→==,
}
use heat_os.Network.{Net, ping_id}
use heat_os.Network.Ne2000.{Device}
use heat_os.Network.Bytes.{wr16be, checked, with_field}
use heat_os.Network.Send.{icmp_message, ip_header, ip_frame, send_icmp_packet}
use heat_os.Network.Receive.{handle_icmp, handle_ethernet_frame, handle_echo_reply}
use heat_os.Network.ReceiveTotal.{IsNet}
use heat_os.Network.Echo.{
  bytes_equal_self, handle_icmp-icmp_message, handle_icmp-reply, handle_ipv4_packet-packet,
  handle_ethernet_frame-ipv4,
}

at_four :
    (P : List ℕ → Type 0)
    → ((a b c d : ℕ) → P (a ∷ b ∷ c ∷ d ∷ []))
    → (p : List ℕ) → length p ≡ 4
    → P p
at_four P h [] e = absurd (omega arith)
at_four P h (a ∷ []) e = absurd (omega arith)
at_four P h (a ∷ b ∷ []) e = absurd (omega arith)
at_four P h (a ∷ b ∷ c ∷ []) e = absurd (omega arith)
at_four P h (a ∷ b ∷ c ∷ d ∷ []) e = h a b c d
at_four P h (a ∷ b ∷ c ∷ d ∷ x ∷ p) e = absurd (omega arith)

at_six :
    (P : List ℕ → Type 0)
    → ((a b c d e f : ℕ) → P (a ∷ b ∷ c ∷ d ∷ e ∷ f ∷ []))
    → (p : List ℕ) → length p ≡ 6
    → P p
at_six P h [] s = absurd (omega arith)
at_six P h (a ∷ []) s = absurd (omega arith)
at_six P h (a ∷ b ∷ p) s = at_four (λ q. P (a ∷ b ∷ q)) (λ c d e f. h a b c d e f) p (omega arith)

module _ (dev : Device) (m : List ℕ) (id : ℕ) (n : Net) (small : 20 + length m < 65536) where
  -- What a frame with an ICMP message comes to at the host that it is for.
  abbrev Delivers : List ℕ → List ℕ → List ℕ → List ℕ → Type 0
  Delivers dst_mac src_mac src_ip dst_ip =
      handle_ethernet_frame dev
        (dst_mac
          ++ (src_mac ++ (wr16be 0x0800 ++ (ip_header 1 (20 + length m) id src_ip dst_ip ++ m))))
        (34 + length m) n
      ≡ handle_icmp dev src_mac src_ip 64 m (length m) n

  length-packet_bytes :
      (a b c d e f g h : ℕ)
      → length (ip_header 1 (20 + length m) id (a ∷ b ∷ c ∷ d ∷ []) (e ∷ f ∷ g ∷ h ∷ []) ++ m)
        ≡ 20 + length m
  unfolding ip_header checked with_field wr16be
  length-packet_bytes a b c d e f g h = omega arith

  delivers :
      (src_mac src_ip dst_mac dst_ip : List ℕ)
      → length src_mac ≡ 6
      → length src_ip ≡ 4
      → length dst_mac ≡ 6
      → length dst_ip ≡ 4
      → n.g_mac ≡ dst_mac
      → n.g_ip ≡ dst_ip
      → Delivers dst_mac src_mac src_ip dst_ip
  delivers src_mac src_ip dst_mac dst_ip six four six' four' =
      at_six (λ to. n.g_mac ≡ to → n.g_ip ≡ dst_ip → Delivers to src_mac src_ip dst_ip)
        (λ g h i j k l mac.
          at_four (λ ip. n.g_ip ≡ ip → Delivers (g ∷ h ∷ i ∷ j ∷ k ∷ l ∷ []) src_mac src_ip ip)
            (λ s t u v ip.
              at_six
                (λ sender. Delivers (g ∷ h ∷ i ∷ j ∷ k ∷ l ∷ []) sender src_ip (s ∷ t ∷ u ∷ v ∷ []))
                (λ a b c d e f.
                  at_four
                    (λ src.
                      Delivers (g ∷ h ∷ i ∷ j ∷ k ∷ l ∷ []) (a ∷ b ∷ c ∷ d ∷ e ∷ f ∷ []) src
                        (s ∷ t ∷ u ∷ v ∷ []))
                    (λ o p q r.
                      let bytes = length-packet_bytes o p q r s t u v in
                      let back : 34 + length m - 14 ≡ 20 + length m = omega arith in
                      handle_ethernet_frame-ipv4 dev a b c d e f g h i j k l _ n (34 + length m) mac
                        (omega arith)
                      ∙ (rw back (
                          handle_ipv4_packet-packet dev o p q r s t u v id m n
                            (a ∷ b ∷ c ∷ d ∷ e ∷ f ∷ []) ip small)))
                    src_ip four)
                src_mac six)
            dst_ip four')
        dst_mac six'

length-icmp_message :
    (icmp_type ident seq : ℕ) (payload : List ℕ)
    → length (icmp_message icmp_type ident seq payload) ≡ 8 + length payload
unfolding icmp_message checked with_field wr16be
length-icmp_message icmp_type ident seq payload = omega arith

-- A frame from one host to another, at the other.
ip_frame-delivers :
    (dev : Device) (m : List ℕ) (from to : Net)
    → 20 + length m < 65536
    → IsNet from
    → IsNet to
    → handle_ethernet_frame dev (ip_frame to.g_mac to.g_ip 1 m from) (34 + length m) to
      ≡ handle_icmp dev from.g_mac from.g_ip 64 m (length m) to
unfolding ip_frame
ip_frame-delivers dev m from to small h k =
    let whole : (20 + length m) % 65536 ≡ 20 + length m = omega arith in
    rw whole (
      delivers dev m from.ipv4_id to small from.g_mac from.g_ip to.g_mac to.g_ip h.0 h.1 k.0 k.1
        refl refl)

handle_echo_reply-awaited :
    (size seq : ℕ) (src_ip : List ℕ) (n : Net)
    → n.ping.waiting ≡ true
    → n.ping.expected_seq ≡ seq
    → n.ping.target ≡ src_ip
    → handle_echo_reply 64 (8 + size) ping_id seq src_ip n ≡ record n {
      ping = record n.ping { reply_ttl = 64; reply_bytes = size; reply = true; waiting = false };
    }
unfolding handle_echo_reply
handle_echo_reply-awaited size seq src_ip n waiting expected target =
    let rest : 8 + size - 8 ≡ size = omega arith in
    rw (waiting, expected, eq→== seq seq refl, target, bytes_equal_self src_ip, rest) refl

-- Hosts `a` and `b` have addresses of the right widths, `a` waits for the echo with the number `seq` from the
-- address of `b`, and the payload fits a frame. The frame that `send_icmp_packet` builds at `a` for the request
-- makes `b` send the reply with the same identifier, number and payload to `a`; the frame built at `b` for that
-- reply ends the wait at `a`, which records the lifetime 64 and the length of the payload.
pub handle_ethernet_frame-ip_frame :
    (dev : Device) (a b : Net) (seq : ℕ) (payload : List ℕ)
    → IsNet a
    → IsNet b
    → seq < 65536
    → length payload ≤ 1558
    → a.ping.waiting ≡ true
    → a.ping.expected_seq ≡ seq
    → a.ping.target ≡ b.g_ip
    → (handle_ethernet_frame dev
          (ip_frame b.g_mac b.g_ip 1 (icmp_message 8 ping_id seq payload) a)
          (42 + length payload)
          b
        ≡ some (send_icmp_packet dev a.g_mac a.g_ip 0 ping_id seq payload b).1)
      × (handle_ethernet_frame dev
            (ip_frame a.g_mac a.g_ip 1 (icmp_message 0 ping_id seq payload) b)
            (42 + length payload)
            a
          ≡ some (record a {
            ping = record a.ping {
              reply_ttl = 64;
              reply_bytes = length payload;
              reply = true;
              waiting = false;
            };
          }))
handle_ethernet_frame-ip_frame dev a b seq payload h k hs fits waiting expected target = (
  arrives 8 a b h k
      ∙ handle_icmp-icmp_message dev ping_id seq payload (omega arith) hs a.g_mac a.g_ip 64 b,
  arrives 0 b a k h
      ∙ handle_icmp-reply dev ping_id seq payload (omega arith) hs b.g_mac b.g_ip 64 a
      ∙ ap some (handle_echo_reply-awaited (length payload) seq b.g_ip a waiting expected target),
)
  where
    arrives :
        (icmp_type : ℕ) (from to : Net)
        → IsNet from
        → IsNet to
        → handle_ethernet_frame dev
            (ip_frame to.g_mac to.g_ip 1 (icmp_message icmp_type ping_id seq payload) from)
            (42 + length payload)
            to
          ≡ handle_icmp dev from.g_mac from.g_ip 64
              (icmp_message icmp_type ping_id seq payload)
              (8 + length payload)
              to
    arrives icmp_type from to h k =
        let m : List ℕ = icmp_message icmp_type ping_id seq payload in
        let size : length m ≡ 8 + length payload =
          length-icmp_message icmp_type ping_id seq payload in
        let total : 34 + length m ≡ 42 + length payload = omega arith in
        subst
          (λ len.
            handle_ethernet_frame dev (ip_frame to.g_mac to.g_ip 1 m from) len to
            ≡ handle_icmp dev from.g_mac from.g_ip 64 m (8 + length payload) to)
          total
          (subst
            (λ len.
              handle_ethernet_frame dev (ip_frame to.g_mac to.g_ip 1 m from) (34 + length m) to
              ≡ handle_icmp dev from.g_mac from.g_ip 64 m len to)
            size (ip_frame-delivers dev m from to (omega arith) h k))
