-- ===== src/Network/Client.antt =====
-- `arp_resolve`, `network_ping_ipv4` and `network_dns_resolve_a` of src/drivers/network.c. `rounds` bounds the
-- packets that one poll takes; a result `none` is a poll that has none.
use heat_os.Prelude.{
  ℕ, zero, suc, ◌+◌, ◌/◌, ◌%◌, Bool, true, false, Option, none, some, List, [], ◌∷◌, ltb, ◌==◌,
  ◌&&◌, ◌||◌, not, if◌then◌else◌, length,
}
use heat_os.Network.{Net, Arp, Ping, Dns, ping_id}
use heat_os.Network.Ne2000.{Device}
use heat_os.Prelude.{◌>>=◌}
use heat_os.Network.Bytes.{bytes_equal}
use heat_os.Network.Send.{send_arp_request, send_icmp_packet, send_udp_packet, route_next_hop}
use heat_os.Network.Resolver.{build_dns_query, skip_spaces}
use heat_os.Network.Poll.{network_poll}
use heat_os.Network.Start.{network_init}
use heat_os.Network.Address.{network_parse_ipv4}

unfoldable pub is_known : List ℕ → Net → Bool
is_known ip n = let a : Arp = n.arp in a.valid && bytes_equal a.ip ip

-- The inner loop of `arp_resolve`.
unfoldable pub wait_arp : Device → ℕ → ℕ → List ℕ → Net → Option (Bool × Net)
wait_arp dev rounds zero ip n = some (false, n)
wait_arp dev rounds (suc loops) ip n = network_poll dev rounds n >>= λ n'.
    if is_known ip n' then some (true, n') else wait_arp dev rounds loops ip n'

-- The last `attempts` attempts.
unfoldable pub attempt_arp : Device → ℕ → ℕ → ℕ → List ℕ → Net → Option (Bool × Net)
attempt_arp dev rounds zero wait_loops ip n = some (false, n)
attempt_arp dev rounds (suc attempts) wait_loops ip n =
    wait_arp dev rounds wait_loops ip (send_arp_request dev ip n) >>= λ r.
    if r.0 then some r else attempt_arp dev rounds attempts wait_loops ip r.1

-- `arp_resolve`: the address found, or `none` for a refusal.
unfoldable pub arp_resolve : Device → ℕ → List ℕ → ℕ → Net → Option (Option (List ℕ) × Net)
arp_resolve dev rounds ip wait_loops n =
    if is_known ip n
    then some (some n.arp.mac, n)
    else (attempt_arp dev rounds 3 wait_loops ip n >>= λ r.
        some (if r.0 then some r.1.arp.mac else none, r.1))

-- `net_ping_result_t` of a ping that succeeds.
pub record PingResult : Type 0 where
  pub bytes : ℕ
  pub ttl : ℕ
  pub time_ms : ℕ

unfoldable pub ping_payload : ℕ → ℕ → List ℕ
ping_payload zero i = []
ping_payload (suc left) i = (b'A' + i % 26) ∷ ping_payload left (i + 1)

-- The last loop of `network_ping_ipv4`, from its round `i`.
unfoldable pub wait_ping : Device → ℕ → ℕ → ℕ → Net → Option (Option PingResult × Net)
wait_ping dev rounds zero i n =
    let p : Ping = n.ping in some (none, record n { ping = record p { waiting = false } })
wait_ping dev rounds (suc loops) i n = network_poll dev rounds n >>= λ n'.
    if n'.ping.reply
    then some (
      some
          (record { bytes = n'.ping.reply_bytes; ttl = n'.ping.reply_ttl; time_ms = i / 6000 + 1 }),
      n',
    )
    else wait_ping dev rounds loops (i + 1) n'

unfoldable pub start_ping : List ℕ → Net → Net
start_ping dst_ip n =
    let p : Ping = n.ping in
    record n {
      ping = record {
        waiting = true;
        reply = false;
        reply_ttl = 0;
        reply_bytes = 0;
        expected_seq = p.seq;
        seq = (p.seq + 1) % 65536;
        target = dst_ip;
      };
    }

-- `network_ping_ipv4` once the address of the next hop is known.
unfoldable pub ping_via : Device → ℕ → ℕ → List ℕ → List ℕ → Net → Option (Option PingResult × Net)
ping_via dev rounds timeout_loops dst_mac dst_ip n =
    let sent =
      send_icmp_packet dev dst_mac dst_ip 8 ping_id n.ping.seq (ping_payload 32 0)
        (start_ping dst_ip n) in
    let p : Ping = sent.1.ping in
    if sent.0
    then wait_ping dev rounds timeout_loops 0 sent.1
    else some (none, record sent.1 { ping = record p { waiting = false } })

unfoldable pub ping_resolved :
    Device → ℕ → ℕ → List ℕ → Option (List ℕ) × Net → Option (Option PingResult × Net)
ping_resolved dev rounds timeout_loops dst_ip (none, n) = some (none, n)
ping_resolved dev rounds timeout_loops dst_ip (some dst_mac, n) =
    ping_via dev rounds timeout_loops dst_mac dst_ip n

unfoldable pub network_ping_ipv4 : Device → ℕ → List ℕ → ℕ → Net → Option (Option PingResult × Net)
network_ping_ipv4 dev rounds dst_ip timeout_loops n =
    let started = network_init dev n in
    let n' : Net = started.1 in
    if not started.0
    then some (none, n')
    else if bytes_equal dst_ip n'.g_ip
    then some (some (record { bytes = 32; ttl = 64; time_ms = 0 }), n')
    else (arp_resolve dev rounds (route_next_hop dst_ip n') 120000 n'
        >>= ping_resolved dev rounds timeout_loops dst_ip)

-- The name in `host_buf`: up to a space or the end, at most `room` characters.
unfoldable pub host_name : ℕ → List ℕ → List ℕ
host_name zero host = []
host_name (suc room) [] = []
host_name (suc room) (c ∷ host) =
    let rest = host_name room host in if c == b' ' then [] else c ∷ rest

abbrev localhost : List ℕ
localhost = b'l' ∷ b'o' ∷ b'c' ∷ b'a' ∷ b'l' ∷ b'h' ∷ b'o' ∷ b's' ∷ b't' ∷ []

abbrev dns_server : List ℕ
dns_server = 10 ∷ 0 ∷ 2 ∷ 3 ∷ []

-- The address and the time of a name resolved.
abbrev pub Resolved : Type 0
Resolved = Option (List ℕ × ℕ) × Net

-- The last loop of `network_dns_resolve_a`, from its round `i`.
unfoldable pub wait_dns : Device → ℕ → ℕ → ℕ → Net → Option Resolved
wait_dns dev rounds zero i n =
    let d : Dns = n.dns in some (none, record n { dns = record d { waiting = false } })
wait_dns dev rounds (suc loops) i n = network_poll dev rounds n >>= λ n'.
    if n'.dns.waiting
    then wait_dns dev rounds loops (i + 1) n'
    else if n'.dns.reply && n'.dns.reply_has_a
    then some (some (n'.dns.reply_ip, i / 6000 + 1), n')
    else some (none, n')

-- `dns_id`: the next one that is not 0.
unfoldable pub take_id : Dns → ℕ × Dns
take_id d =
    if d.next_id == 0
    then (1, record d { next_id = 2 })
    else (d.next_id, record d { next_id = (d.next_id + 1) % 65536 })

-- The port of the query, between 53000 and 53999.
unfoldable pub take_port : Dns → ℕ × Dns
take_port d =
    let port = if ltb d.src_port 53000 || ltb 53999 d.src_port then 53000 else d.src_port in
    (port, record d { src_port = if ltb 53999 (port + 1) then 53000 else port + 1 })

unfoldable pub expect : ℕ → ℕ → Dns → Dns
expect dns_id src_port d = record d {
  waiting = true;
  reply = false;
  reply_has_a = false;
  reply_ip = 0 ∷ 0 ∷ 0 ∷ 0 ∷ [];
  expected_id = dns_id;
  expected_src_port = src_port;
}

-- The first `len` bytes of a buffer.
unfoldable pub bytes_from : ℕ → ℕ → (ℕ → ℕ) → List ℕ
bytes_from zero at out = []
bytes_from (suc len) at out = out at ∷ bytes_from len (at + 1) out

-- `network_dns_resolve_a` once a query is built.
unfoldable pub send_query :
    Device → ℕ → ℕ → List ℕ → ℕ → ℕ → Net → Option ((ℕ → ℕ) × ℕ) → Option Resolved
send_query dev rounds timeout_loops dst_mac dns_id src_port n none = some (none, n)
send_query dev rounds timeout_loops dst_mac dns_id src_port n (some (out, len)) =
    let sent =
      send_udp_packet dev dst_mac dns_server src_port 53 (bytes_from len 0 out)
        (record n { dns = expect dns_id src_port n.dns }) in
    let d : Dns = sent.1.dns in
    if sent.0
    then wait_dns dev rounds timeout_loops 0 sent.1
    else some (none, record sent.1 { dns = record d { waiting = false } })

unfoldable pub query_via : Device → ℕ → ℕ → List ℕ → Option (List ℕ) × Net → Option Resolved
query_via dev rounds timeout_loops host (none, n) = some (none, n)
query_via dev rounds timeout_loops host (some dst_mac, n) =
    let id = take_id n.dns in
    let port = take_port id.1 in
    send_query dev rounds timeout_loops dst_mac id.0 port.0 (record n { dns = port.1 })
      (build_dns_query host id.0 512)

-- A name that is no address is asked of the server.
unfoldable pub resolve_name : Device → ℕ → ℕ → List ℕ → Net → Option (List ℕ) → Option Resolved
resolve_name dev rounds timeout_loops host n (some ip) = some (some (ip, 0), n)
resolve_name dev rounds timeout_loops host n none =
    arp_resolve dev rounds (route_next_hop dns_server n) 120000 n
    >>= query_via dev rounds timeout_loops host

unfoldable pub network_dns_resolve_a : Device → ℕ → List ℕ → ℕ → Net → Option Resolved
network_dns_resolve_a dev rounds text timeout_loops n =
    let host = host_name 127 (skip_spaces text) in
    let started = network_init dev n in
    if length host == 0
    then some (none, n)
    else if not started.0
    then some (none, started.1)
    else if bytes_equal host localhost
    then some (some (started.1.g_ip, 0), started.1)
    else resolve_name dev rounds timeout_loops host started.1 (network_parse_ipv4 host)
