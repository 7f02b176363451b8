-- ===== src/DpdkPtype/Link.antt =====
-- Ethernet and its tags.
-- Cases of the `switch` in benchmarks/industry/dpdk_ptype/gen/parser.c.
use pakeles.Base.{◌==◌, if◌then◌else◌, u8, u16, u32, u64}
use pakeles.Core.{M, ◌>>=◌, ◌>>◌, pure, fetch, store, accept, bytes, bits}
use pakeles.DpdkPtype.Types.{
  Body, State, parse_vlan, parse_qinq, parse_ipv4, parse_ipv6, parse_gre, parse_inner_ethernet,
  parse_inner_vlan, parse_inner_qinq, parse_inner_ipv4, parse_inner_ipv6,
}

-- `case PK_S_PARSE_ETHERNET`
unfoldable pub case_parse_ethernet : M Body State
case_parse_ethernet = do
  store (λ b. record b { ethernet_present = 1 })
  bytes 6 (λ v b. record b { ethernet = record (b.ethernet) { dst = u64 v } })
  bytes 6 (λ v b. record b { ethernet = record (b.ethernet) { src = u64 v } })
  bytes 2 (λ v b. record b { ethernet = record (b.ethernet) { ethertype = u16 v } })
  key0 ← fetch (λ b. b.ethernet.ethertype)
  if key0 == 2048
      then pure parse_ipv4
      else if key0 == 34525
      then pure parse_ipv6
      else if key0 == 33024
      then pure parse_vlan
      else if key0 == 34984
      then pure parse_qinq
      else if key0 == 34887
      then accept
      else if key0 == 34888
      then accept
      else if key0 == 25944
      then pure parse_inner_ethernet
      else if key0 == 1024
      then pure parse_inner_ipv4
      else if key0 == 10496
      then pure parse_inner_ipv6
      else if key0 == 12032
      then pure parse_gre
      else accept

-- `case PK_S_PARSE_VLAN`
unfoldable pub case_parse_vlan : M Body State
case_parse_vlan = do
  store (λ b. record b { vlan_present = 1 })
  bits 3 (λ v b. record b { vlan = record (b.vlan) { pcp = u8 v } })
  bits 1 (λ v b. record b { vlan = record (b.vlan) { dei = u8 v } })
  bits 12 (λ v b. record b { vlan = record (b.vlan) { vid = u16 v } })
  bytes 2 (λ v b. record b { vlan = record (b.vlan) { proto = u16 v } })
  key0 ← fetch (λ b. b.vlan.proto)
  if key0 == 2048
      then pure parse_ipv4
      else if key0 == 34525
      then pure parse_ipv6
      else if key0 == 25944
      then pure parse_inner_ethernet
      else if key0 == 33024
      then pure parse_inner_vlan
      else if key0 == 34984
      then pure parse_inner_qinq
      else if key0 == 1024
      then pure parse_inner_ipv4
      else if key0 == 10496
      then pure parse_inner_ipv6
      else if key0 == 12032
      then pure parse_gre
      else accept

-- `case PK_S_PARSE_QINQ`
unfoldable pub case_parse_qinq : M Body State
case_parse_qinq = do
  store (λ b. record b { qinq_present = 1 })
  bytes 4 (λ v b. record b { qinq = record (b.qinq) { first_tag = u32 v } })
  bytes 2 (λ v b. record b { qinq = record (b.qinq) { tci = u16 v } })
  bytes 2 (λ v b. record b { qinq = record (b.qinq) { proto = u16 v } })
  key0 ← fetch (λ b. b.qinq.proto)
  if key0 == 2048
      then pure parse_ipv4
      else if key0 == 34525
      then pure parse_ipv6
      else if key0 == 25944
      then pure parse_inner_ethernet
      else if key0 == 33024
      then pure parse_inner_vlan
      else if key0 == 34984
      then pure parse_inner_qinq
      else if key0 == 1024
      then pure parse_inner_ipv4
      else if key0 == 10496
      then pure parse_inner_ipv6
      else if key0 == 12032
      then pure parse_gre
      else accept
