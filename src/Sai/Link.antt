-- ===== src/Sai/Link.antt =====
-- Ethernet, VLAN and ARP.
-- Cases of the `switch` in benchmarks/industry/sai_parser/gen/parser.c.
use pakeles.Base.{◌==◌, if◌then◌else◌, u8, u16, u32, u64}
use pakeles.Core.{M, ◌>>=◌, ◌>>◌, pure, fetch, store, accept, bytes, bits}
use pakeles.Sai.Types.{Body, State, parse_vlan, parse_ipv4, parse_ipv6, parse_arp}

-- `case PK_S_PARSE_ETHERNET`
unfoldable pub case_parse_ethernet : M Body State
case_parse_ethernet = do
  store (λ b. record b { ethernet_present = 1 })
  bytes 6 (λ v b. record b { ethernet = record (b.ethernet) { dst = u64 v } })
  bytes 6 (λ v b. record b { ethernet = record (b.ethernet) { src = u64 v } })
  bytes 2 (λ v b. record b { ethernet = record (b.ethernet) { ether_type = u16 v } })
  key0 ← fetch (λ b. b.ethernet.ether_type)
  if key0 == 2048
      then pure parse_ipv4
      else if key0 == 34525
      then pure parse_ipv6
      else if key0 == 2054
      then pure parse_arp
      else if key0 == 33024
      then pure parse_vlan
      else accept

-- `case PK_S_PARSE_VLAN`
unfoldable pub case_parse_vlan : M Body State
case_parse_vlan = do
  store (λ b. record b { vlan_present = 1 })
  bits 3 (λ v b. record b { vlan = record (b.vlan) { pcp = u8 v } })
  bits 1 (λ v b. record b { vlan = record (b.vlan) { dei = u8 v } })
  bits 12 (λ v b. record b { vlan = record (b.vlan) { vid = u16 v } })
  bytes 2 (λ v b. record b { vlan = record (b.vlan) { ether_type = u16 v } })
  key0 ← fetch (λ b. b.vlan.ether_type)
  if key0 == 2048
      then pure parse_ipv4
      else if key0 == 34525
      then pure parse_ipv6
      else if key0 == 2054
      then pure parse_arp
      else accept

-- `case PK_S_PARSE_ARP`
unfoldable pub case_parse_arp : M Body State
case_parse_arp = do
  store (λ b. record b { arp_present = 1 })
  bytes 2 (λ v b. record b { arp = record (b.arp) { hw_type = u16 v } })
  bytes 2 (λ v b. record b { arp = record (b.arp) { proto_type = u16 v } })
  bytes 1 (λ v b. record b { arp = record (b.arp) { hw_addr_len = u8 v } })
  bytes 1 (λ v b. record b { arp = record (b.arp) { proto_addr_len = u8 v } })
  bytes 2 (λ v b. record b { arp = record (b.arp) { opcode = u16 v } })
  bytes 6 (λ v b. record b { arp = record (b.arp) { sender_hw = u64 v } })
  bytes 4 (λ v b. record b { arp = record (b.arp) { sender_proto = u32 v } })
  bytes 6 (λ v b. record b { arp = record (b.arp) { target_hw = u64 v } })
  bytes 4 (λ v b. record b { arp = record (b.arp) { target_proto = u32 v } })
  accept
