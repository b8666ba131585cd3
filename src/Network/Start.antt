-- ===== src/Network/Start.antt =====
-- `probe_ne2000_pci`, `ne_hw_init`, `network_init` and `network_get_info` of src/drivers/network.c.
use Prim.Native.Nat.{bit_or}
use heat_os.Prelude.{
  ℕ, zero, suc, ◌+◌, ◌-◌, ◌*◌, ◌/◌, ◌%◌, ◌^◌, Bool, true, false, List, [], ◌∷◌, ◌==◌, ◌||◌, not,
  if◌then◌else◌, take,
}
use heat_os.Network.{Net, Card, Arp, Ping, Dns}
use heat_os.Network.Bytes.{bytes_equal}
use heat_os.Network.Ne2000.{
  Device, in_port, out_port, ne_port, ne_write, ne_wait_isr, ne_dma_read, pci_read32_bus0,
  pci_write32_bus0,
}

-- The card found in `slot`, switched on.
unfoldable pub found_card : Device → ℕ → ℕ → ℕ → Card → Card
found_card dev slot id bar0 c =
    let cmd = pci_read32_bus0 dev slot 4 c in
    record (pci_write32_bus0 slot 4 (bit_or cmd.0 5) cmd.1) {
      pci_slot = slot;
      vendor_id = id % 65536;
      device_id = id / 65536;
      io_base = bar0 % 65536 / 4 * 4;
      present = true;
    }

-- The loop of `probe_ne2000_pci` over the last `left` slots.
unfoldable pub probe_from : Device → ℕ → Card → Bool × Card
probe_from dev zero c = (false, record c { present = false })
probe_from dev (suc left) c =
    let slot = 31 - left in
    let id = pci_read32_bus0 dev slot 0 c in
    let class = pci_read32_bus0 dev slot 8 id.1 in
    let bar0 = pci_read32_bus0 dev slot 16 class.1 in
    let no_device = probe_from dev left id.1 in
    let no_network = probe_from dev left class.1 in
    let no_ports = probe_from dev left bar0.1 in
    if id.0 % 65536 == 0xFFFF
    then no_device
    else if not (class.0 / 2 ^ 24 == 2)
    then no_network
    else if bar0.0 % 2 == 0
    then no_ports
    else (true, found_card dev slot id.0 bar0.0 bar0.1)

unfoldable pub probe_ne2000_pci : Device → Card → Bool × Card
probe_ne2000_pci dev c = probe_from dev 32 c

-- Registers written one after the other.
unfoldable pub write_all : List (ℕ × ℕ) → Card → Card
write_all [] c = c
write_all ((reg, v) ∷ rest) c = write_all rest (ne_write reg v c)

unfoldable pub write_from : ℕ → List ℕ → Card → Card
write_from reg [] c = c
write_from reg (v ∷ vs) c = write_from (reg + 1) vs (ne_write reg v c)

unfoldable pub every_other : List ℕ → List ℕ
every_other [] = []
every_other (a ∷ []) = a ∷ []
every_other (a ∷ b ∷ p) = a ∷ every_other p

unfoldable pub prom_mac : List ℕ → List ℕ
prom_mac prom =
    let mac = take 6 (every_other prom) in
    if bytes_equal mac (0 ∷ 0 ∷ 0 ∷ 0 ∷ 0 ∷ 0 ∷ []) then take 6 prom else mac

-- The registers before the PROM is read.
unfoldable pub configure : Card → Card
configure c =
    write_all
      ((7, 255)
        ∷ (0, 33)
        ∷ (14, 0x49)
        ∷ (10, 0)
        ∷ (11, 0)
        ∷ (12, 0x20)
        ∷ (13, 0x02)
        ∷ (4, 0x40)
        ∷ (1, 0x46)
        ∷ (3, 0x46)
        ∷ (2, 0x80)
        ∷ (7, 255)
        ∷ (15, 0)
        ∷ [])
      c

-- The registers after it, with the address of the card.
unfoldable pub go_online : List ℕ → Card → Card
go_online mac c =
    let all = 255 ∷ 255 ∷ 255 ∷ 255 ∷ 255 ∷ 255 ∷ 255 ∷ 255 ∷ [] in
    record (write_all ((7, 0x47) ∷ (0, 34) ∷ (3, 0x46) ∷ (13, 0) ∷ (12, 0x04) ∷ (7, 255) ∷ [])
      (write_from 8 all (write_from 1 mac (ne_write 0 97 c)))) { ready = true }

-- The statics when the card goes online; what ping and ARP remember otherwise stays.
unfoldable pub online : List ℕ → Card → Net → Net
online mac c n =
    let arp : Arp = n.arp in
    let ping : Ping = n.ping in
    let dns : Dns = n.dns in
    record n {
      card = go_online mac c;
      g_mac = mac;
      arp = record arp { valid = false };
      ping = record ping { waiting = false; reply = false; reply_ttl = 0; reply_bytes = 0 };
      dns = record dns {
        waiting = false;
        reply = false;
        reply_has_a = false;
        reply_ip = 0 ∷ 0 ∷ 0 ∷ 0 ∷ [];
        expected_id = 0;
        expected_src_port = 0;
      };
    }

unfoldable pub ne_hw_init : Device → Net → Bool × Net
ne_hw_init dev n =
    let c : Card = n.card in
    let reset = in_port dev 1 (ne_port 31 c) c in
    let wait = ne_wait_isr dev 128 200000 (out_port 1 (ne_port 31 c) reset.0 reset.1) in
    let prom = ne_dma_read dev 0 32 (configure wait.1) in
    if not c.present || (c.io_base == 0)
    then (false, n)
    else if not wait.0
    then (false, record n { card = wait.1 })
    else if not prom.0
    then (false, record n { card = prom.2 })
    else (true, online (prom_mac prom.1) prom.2 n)

-- The probe that `network_init` and `network_get_info` make once.
unfoldable pub probe_once : Device → Card → Card
probe_once dev c =
    if c.probe_done then c else (probe_ne2000_pci dev (record c { probe_done = true })).1

unfoldable pub network_init : Device → Net → Bool × Net
network_init dev n =
    let c = probe_once dev n.card in
    let n' : Net = record n { card = c } in
    if n.card.ready then (true, n) else if c.present then ne_hw_init dev n' else (false, n')

-- `net_info_t`
pub record Info : Type 0 where
  pub present : Bool
  pub ready : Bool
  pub pci_slot : ℕ
  pub vendor_id : ℕ
  pub device_id : ℕ
  pub io_base : ℕ
  pub mac : List ℕ
  pub ip : List ℕ
  pub gateway : List ℕ
  pub netmask : List ℕ

unfoldable pub network_get_info : Device → Net → Info × Net
network_get_info dev n =
    let c = probe_once dev n.card in
    (
      record {
        present = c.present;
        ready = c.ready;
        pci_slot = c.pci_slot;
        vendor_id = c.vendor_id;
        device_id = c.device_id;
        io_base = c.io_base;
        mac = n.g_mac;
        ip = n.g_ip;
        gateway = n.g_gateway;
        netmask = n.g_netmask;
      },
      record n { card = c },
    )
