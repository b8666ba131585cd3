-- ===== src/Network/Tests.antt =====
-- Runs of src/drivers/network.c on small messages.
use heat_os.Prelude.{
  true, false, ℕ, ◌-◌, ◌≤◌, ◌≡◌, refl, Bool, Option, none, some, List, [], ◌∷◌, arith,
}
use heat_os.Network.{Net, net_start, ping_id}
use heat_os.Network.Send.{ip_frame, icmp_message, send_icmp_packet}
use heat_os.Network.EchoTrip.{handle_ethernet_frame-ip_frame}
use heat_os.Network.Bytes.{checksum16, checked}
use heat_os.Network.Ne2000.{Device}
use heat_os.Network.Checksum.{checksum16-checked}
use heat_os.Network.Client.{bytes_from}
use heat_os.Network.Resolver.{
  build_dns_query, dns_skip_name, skip_spaces, build_labels, end_query, open_label, close_label,
  put_char, host_char_ok, query_start,
}
use heat_os.Network.TrailingDot.{build_dns_query-dotted}
use heat_os.Network.NameTrip.{dns_skip_name-build_dns_query}
use heat_os.Network.Receive.{handle_ethernet_frame}
use heat_os.Network.Poll.{receive_round}
use heat_os.Network.ReceiveTotal.{IsNet}
use heat_os.Network.FrameTotal.{handle_ethernet_frame-IsNet}
use heat_os.Network.RoundTotal.{receive_round-IsNet}

checksum16-checked_example : checksum16 (checked (8 ∷ 0 ∷ []) (0x48 ∷ 0x4F ∷ 0 ∷ 1 ∷ 65 ∷ [])) ≡ 0
checksum16-checked_example =
    checksum16-checked (8 ∷ 0 ∷ []) (0x48 ∷ 0x4F ∷ 0 ∷ 1 ∷ 65 ∷ []) (omega arith) (omega arith) refl
      (omega arith)

-- A card whose ports show 7.
abbrev sevens : Device
sevens = λ trace port. 7

-- A request for the address 10.0.2.15 by ARP, broadcast.
abbrev arp_request : List ℕ
arp_request =
    255 ∷ 255 ∷ 255 ∷ 255 ∷ 255 ∷ 255 ∷ 82 ∷ 85 ∷ 10 ∷ 0 ∷ 2 ∷ 2 ∷ 8 ∷ 6 ∷ 0 ∷ 1 ∷ 8 ∷ 0 ∷ 6 ∷ 4 ∷ 0
    ∷ 1 ∷ 82 ∷ 85 ∷ 10 ∷ 0 ∷ 2 ∷ 2 ∷ 10 ∷ 0 ∷ 2 ∷ 2 ∷ 0 ∷ 0 ∷ 0 ∷ 0 ∷ 0 ∷ 0 ∷ 10 ∷ 0 ∷ 2 ∷ 15 ∷ []

net_start-IsNet : IsNet net_start
net_start-IsNet = (refl, refl, refl, refl, refl, refl, refl, refl)

handle_ethernet_frame-IsNet_example :
    (n' : Net) × (handle_ethernet_frame sevens arp_request 42 net_start ≡ some n') × IsNet n'
handle_ethernet_frame-IsNet_example =
    handle_ethernet_frame-IsNet sevens arp_request 42 net_start (omega arith) (omega arith)
      net_start-IsNet

receive_round-IsNet_example :
    (r : Bool × Net) × (receive_round sevens net_start ≡ some r) × IsNet r.1
receive_round-IsNet_example = receive_round-IsNet sevens net_start net_start-IsNet

build_dns_query-dotted_example : build_dns_query (b'a' ∷ b'.' ∷ b'b' ∷ b'.' ∷ []) 7 512 ≡ none
build_dns_query-dotted_example = build_dns_query-dotted (b'a' ∷ b'.' ∷ b'b' ∷ []) 7 512

-- The name "os.org".
abbrev host : List ℕ
host = b'o' ∷ b's' ∷ b'.' ∷ b'o' ∷ b'r' ∷ b'g' ∷ []

abbrev or_nothing : Option ((ℕ → ℕ) × ℕ) → (ℕ → ℕ) × ℕ
or_nothing none = (λ at. 0, 0)
or_nothing (some query) = query

abbrev query : (ℕ → ℕ) × ℕ
query = or_nothing (build_dns_query host 7 512)

query-built : build_dns_query host 7 512 ≡ some (query.0, query.1)
unfolding build_dns_query skip_spaces build_labels end_query open_label close_label put_char
    host_char_ok query_start
query-built = refl

query_length : query.1 ≡ 24
unfolding build_dns_query skip_spaces build_labels end_query open_label close_label put_char
    host_char_ok query_start
query_length = refl

dns_skip_name-build_dns_query_example :
    (query.1 ≤ 512)
    × (dns_skip_name (bytes_from query.1 0 query.0) query.1 12 ≡ some (some (query.1 - 4)))
dns_skip_name-build_dns_query_example =
    dns_skip_name-build_dns_query host 7 512 query.0 query.1 (omega arith) query-built

-- Two hosts of the network 10.0.2.0; the first waits for an echo from the second.
abbrev asker : Net
asker = record net_start {
  g_mac = 82 ∷ 85 ∷ 10 ∷ 0 ∷ 2 ∷ 15 ∷ [];
  ping = record {
    waiting = true;
    reply = false;
    reply_ttl = 0;
    reply_bytes = 0;
    expected_seq = 1;
    seq = 2;
    target = 10 ∷ 0 ∷ 2 ∷ 2 ∷ [];
  };
}

abbrev answerer : Net
answerer = record net_start { g_mac = 82 ∷ 85 ∷ 10 ∷ 0 ∷ 2 ∷ 2 ∷ []; g_ip = 10 ∷ 0 ∷ 2 ∷ 2 ∷ [] }

handle_ethernet_frame-ip_frame_example :
    (handle_ethernet_frame sevens
        (ip_frame answerer.g_mac answerer.g_ip 1 (icmp_message 8 ping_id 1 (65 ∷ 66 ∷ [])) asker)
        44
        answerer
      ≡ some (send_icmp_packet sevens asker.g_mac asker.g_ip 0 ping_id 1 (65 ∷ 66 ∷ []) answerer).1)
    × (handle_ethernet_frame sevens
          (ip_frame asker.g_mac asker.g_ip 1 (icmp_message 0 ping_id 1 (65 ∷ 66 ∷ [])) answerer)
          44
          asker
        ≡ some (record asker {
          ping = record asker.ping {
            reply_ttl = 64;
            reply_bytes = 2;
            reply = true;
            waiting = false;
          };
        }))
handle_ethernet_frame-ip_frame_example =
    handle_ethernet_frame-ip_frame sevens asker answerer 1 (65 ∷ 66 ∷ [])
      (refl, refl, refl, refl, refl, refl, refl, refl)
      (refl, refl, refl, refl, refl, refl, refl, refl) (omega arith) (omega arith) refl refl refl
