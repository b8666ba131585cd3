-- ===== src/Network.antt =====
-- The statics of src/drivers/network.c, and the machine's ports as the history of their accesses. What a port
-- shows is a parameter: a function of that history and of the port.
pub mod Bytes
pub mod Checksum
pub mod Ne2000
pub mod Resolver
pub mod Send
pub mod Receive
pub mod Echo
pub mod EchoTrip
pub mod Poll
pub mod Start
mod Tests
pub mod Address
pub mod Client
pub mod Total
pub mod ResolverTotal
pub mod ReceiveTotal
pub mod NameTrip
pub mod Names
pub mod TrailingDot
pub mod FrameTotal
pub mod RoundTotal
use heat_os.Prelude.{ℕ, ◌+◌, Bool, true, false, List, [], ◌∷◌}

-- A read or a write of a port: the bytes it moves, the port, the value.
pub data Access : Type 0 where
  port_in : ℕ → ℕ → ℕ → Access
  port_out : ℕ → ℕ → ℕ → Access

-- The statics about the card, with the accesses made so far, the last one first.
pub record Card : Type 0 where
  pub probe_done : Bool
  pub present : Bool
  pub ready : Bool
  pub pci_slot : ℕ
  pub vendor_id : ℕ
  pub device_id : ℕ
  pub io_base : ℕ
  pub trace : List Access

-- `g_arp_...`
pub record Arp : Type 0 where
  pub valid : Bool
  pub ip : List ℕ
  pub mac : List ℕ

-- `g_ping_...`; `g_ping_id` never changes.
pub record Ping : Type 0 where
  pub waiting : Bool
  pub reply : Bool
  pub reply_ttl : ℕ
  pub reply_bytes : ℕ
  pub expected_seq : ℕ
  pub seq : ℕ
  pub target : List ℕ

-- `g_dns_...`
pub record Dns : Type 0 where
  pub waiting : Bool
  pub reply : Bool
  pub reply_has_a : Bool
  pub reply_ip : List ℕ
  pub expected_id : ℕ
  pub expected_src_port : ℕ
  pub src_port : ℕ
  pub next_id : ℕ

pub record Net : Type 0 where
  pub card : Card
  pub g_mac : List ℕ
  pub g_ip : List ℕ
  pub g_gateway : List ℕ
  pub g_netmask : List ℕ
  pub arp : Arp
  pub ping : Ping
  pub ipv4_id : ℕ
  pub dns : Dns

abbrev pub ping_id : ℕ
ping_id = 0x484F

-- The statics before the first call.
abbrev pub net_start : Net
net_start = record {
  card = record {
    probe_done = false;
    present = false;
    ready = false;
    pci_slot = 0;
    vendor_id = 0;
    device_id = 0;
    io_base = 0;
    trace = [];
  };
  g_mac = 0 ∷ 0 ∷ 0 ∷ 0 ∷ 0 ∷ 0 ∷ [];
  g_ip = 10 ∷ 0 ∷ 2 ∷ 15 ∷ [];
  g_gateway = 10 ∷ 0 ∷ 2 ∷ 2 ∷ [];
  g_netmask = 255 ∷ 255 ∷ 255 ∷ 0 ∷ [];
  arp = record { valid = false; ip = 0 ∷ 0 ∷ 0 ∷ 0 ∷ []; mac = 0 ∷ 0 ∷ 0 ∷ 0 ∷ 0 ∷ 0 ∷ [] };
  ping = record {
    waiting = false;
    reply = false;
    reply_ttl = 0;
    reply_bytes = 0;
    expected_seq = 0;
    seq = 1;
    target = 0 ∷ 0 ∷ 0 ∷ 0 ∷ [];
  };
  ipv4_id = 1;
  dns = record {
    waiting = false;
    reply = false;
    reply_has_a = false;
    reply_ip = 0 ∷ 0 ∷ 0 ∷ 0 ∷ [];
    expected_id = 0;
    expected_src_port = 0;
    src_port = 53000;
    next_id = 1;
  };
}
