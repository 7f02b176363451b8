-- ===== src/DpdkPtype/Tunnel.antt =====
-- GRE, TCP and the inner Ethernet.
-- Cases of the `switch` in benchmarks/industry/dpdk_ptype/gen/parser.c.
use pakeles.Base.{◌==◌, if◌then◌else◌, u8, u16, u32, u64, add64, mul64}
use pakeles.Core.{M, ◌>>=◌, ◌>>◌, pure, fetch, store, accept, bytes, bits, run_of}
use pakeles.DpdkPtype.Types.{
  Body, State, parse_gre_opt, parse_inner_ethernet, parse_inner_vlan, parse_inner_qinq,
  parse_inner_ipv4, parse_inner_ipv6,
}

-- `case PK_S_PARSE_GRE`
unfoldable pub case_parse_gre : M Body State
case_parse_gre = do
  store (λ b. record b { gre_present = 1 })
  bits 1 (λ v b. record b { gre = record (b.gre) { c = u8 v } })
  bits 1 (λ v b. record b { gre = record (b.gre) { r = u8 v } })
  bits 1 (λ v b. record b { gre = record (b.gre) { k = u8 v } })
  bits 1 (λ v b. record b { gre = record (b.gre) { s = u8 v } })
  bits 9 (λ v b. record b { gre = record (b.gre) { reserved = u16 v } })
  bits 3 (λ v b. record b { gre = record (b.gre) { version = u8 v } })
  bytes 2 (λ v b. record b { gre = record (b.gre) { proto = u16 v } })
  key0 ← fetch (λ b. b.gre.r)
  if key0 == 0 then pure parse_gre_opt else accept

-- `case PK_S_PARSE_GRE_OPT`
unfoldable pub case_parse_gre_opt : M Body State
case_parse_gre_opt = do
  store (λ b. record b { gre_opt_present = 1 })
  vlen ← fetch (λ b. mul64 (add64 (add64 (mul64 b.gre.c 4) (mul64 b.gre.k 4)) (mul64 b.gre.s 4)) 8)
  run_of vlen (λ off len b. record b {
    gre_opt = record (b.gre_opt) { body_bit_off = off; body_bit_len = len };
  })
  key0 ← fetch (λ b. b.gre.proto)
  if key0 == 2048
      then pure parse_inner_ipv4
      else if key0 == 34525
      then pure parse_inner_ipv6
      else if key0 == 25944
      then pure parse_inner_ethernet
      else if key0 == 33024
      then pure parse_inner_vlan
      else if key0 == 34984
      then pure parse_inner_qinq
      else accept

-- `case PK_S_PARSE_TCP`
unfoldable pub case_parse_tcp : M Body State
case_parse_tcp = do
  store (λ b. record b { tcp_present = 1 })
  bytes 2 (λ v b. record b { tcp = record (b.tcp) { sport = u16 v } })
  bytes 2 (λ v b. record b { tcp = record (b.tcp) { dport = u16 v } })
  bytes 4 (λ v b. record b { tcp = record (b.tcp) { seq = u32 v } })
  bytes 4 (λ v b. record b { tcp = record (b.tcp) { ack = u32 v } })
  bits 4 (λ v b. record b { tcp = record (b.tcp) { data_offset = u8 v } })
  bits 4 (λ v b. record b { tcp = record (b.tcp) { reserved = u8 v } })
  bytes 1 (λ v b. record b { tcp = record (b.tcp) { flags = u8 v } })
  bytes 2 (λ v b. record b { tcp = record (b.tcp) { window = u16 v } })
  bytes 2 (λ v b. record b { tcp = record (b.tcp) { checksum = u16 v } })
  bytes 2 (λ v b. record b { tcp = record (b.tcp) { urgent = u16 v } })
  accept

-- `case PK_S_PARSE_INNER_ETHERNET`
unfoldable pub case_parse_inner_ethernet : M Body State
case_parse_inner_ethernet = do
  store (λ b. record b { ethernet_present = 1 })
  bytes 6 (λ v b. record b { ethernet = record (b.ethernet) { dst = u64 v } })
  bytes 6 (λ v b. record b { ethernet = record (b.ethernet) { src = u64 v } })
  bytes 2 (λ v b. record b { ethernet = record (b.ethernet) { ethertype = u16 v } })
  key0 ← fetch (λ b. b.ethernet.ethertype)
  if key0 == 2048
      then pure parse_inner_ipv4
      else if key0 == 34525
      then pure parse_inner_ipv6
      else if key0 == 33024
      then pure parse_inner_vlan
      else if key0 == 34984
      then pure parse_inner_qinq
      else accept

-- `case PK_S_PARSE_INNER_VLAN`
unfoldable pub case_parse_inner_vlan : M Body State
case_parse_inner_vlan = do
  store (λ b. record b { vlan_present = 1 })
  bits 3 (λ v b. record b { vlan = record (b.vlan) { pcp = u8 v } })
  bits 1 (λ v b. record b { vlan = record (b.vlan) { dei = u8 v } })
  bits 12 (λ v b. record b { vlan = record (b.vlan) { vid = u16 v } })
  bytes 2 (λ v b. record b { vlan = record (b.vlan) { proto = u16 v } })
  key0 ← fetch (λ b. b.vlan.proto)
  if key0 == 2048
      then pure parse_inner_ipv4
      else if key0 == 34525
      then pure parse_inner_ipv6
      else accept

-- `case PK_S_PARSE_INNER_QINQ`
unfoldable pub case_parse_inner_qinq : M Body State
case_parse_inner_qinq = do
  store (λ b. record b { qinq_present = 1 })
  bytes 4 (λ v b. record b { qinq = record (b.qinq) { first_tag = u32 v } })
  bytes 2 (λ v b. record b { qinq = record (b.qinq) { tci = u16 v } })
  bytes 2 (λ v b. record b { qinq = record (b.qinq) { proto = u16 v } })
  key0 ← fetch (λ b. b.qinq.proto)
  if key0 == 2048
      then pure parse_inner_ipv4
      else if key0 == 34525
      then pure parse_inner_ipv6
      else accept
