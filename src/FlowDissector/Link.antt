-- ===== src/FlowDissector/Link.antt =====
-- Ethernet, VLAN tags and MPLS.
-- Cases of the `switch` in benchmarks/industry/linux_flow_dissector/gen/parser.c.
use pakeles.Base.{◌==◌, if◌then◌else◌, u8, u16, u32, u64}
use pakeles.Core.{M, ◌>>=◌, ◌>>◌, pure, fetch, store, reject, accept, bytes, bits}
use pakeles.FlowDissector.Types.{
  Body, State, parse_vlan_ad, parse_vlan_q, parse_ipv4, parse_ipv6, parse_mpls,
  802_1ad_must_be_followed_by_802_1q, unsupported_ethertype, vlan_stacking_beyond_kernel_depth,
}

-- `case PK_S_PARSE_ETHERNET`
unfoldable pub case_parse_ethernet : M Body State
case_parse_ethernet = do
  store (λ b. record b { ethernet_present = 1 })
  bytes 6 (λ v b. record b { ethernet = record (b.ethernet) { dst = u64 v } })
  bytes 6 (λ v b. record b { ethernet = record (b.ethernet) { src = u64 v } })
  bytes 2 (λ v b. record b { ethernet = record (b.ethernet) { ethertype = u16 v } })
  key0 ← fetch (λ b. b.ethernet.ethertype)
  if key0 == 2048
      then pure parse_ipv4
      else if key0 == 34525
      then pure parse_ipv6
      else if key0 == 33024
      then pure parse_vlan_q
      else if key0 == 34984
      then pure parse_vlan_ad
      else if key0 == 34887
      then pure parse_mpls
      else if key0 == 34888
      then pure parse_mpls
      else reject unsupported_ethertype

-- `case PK_S_PARSE_VLAN_AD`
unfoldable pub case_parse_vlan_ad : M Body State
case_parse_vlan_ad = do
  store (λ b. record b { vlan_ad_present = 1 })
  bits 3 (λ v b. record b { vlan_ad = record (b.vlan_ad) { pcp = u8 v } })
  bits 1 (λ v b. record b { vlan_ad = record (b.vlan_ad) { dei = u8 v } })
  bits 12 (λ v b. record b { vlan_ad = record (b.vlan_ad) { vid = u16 v } })
  bytes 2 (λ v b. record b { vlan_ad = record (b.vlan_ad) { encapsulated_proto = u16 v } })
  key0 ← fetch (λ b. b.vlan_ad.encapsulated_proto)
  if key0 == 33024 then pure parse_vlan_q else reject 802_1ad_must_be_followed_by_802_1q

-- `case PK_S_PARSE_VLAN_Q`
unfoldable pub case_parse_vlan_q : M Body State
case_parse_vlan_q = do
  store (λ b. record b { vlan_q_present = 1 })
  bits 3 (λ v b. record b { vlan_q = record (b.vlan_q) { pcp = u8 v } })
  bits 1 (λ v b. record b { vlan_q = record (b.vlan_q) { dei = u8 v } })
  bits 12 (λ v b. record b { vlan_q = record (b.vlan_q) { vid = u16 v } })
  bytes 2 (λ v b. record b { vlan_q = record (b.vlan_q) { encapsulated_proto = u16 v } })
  key0 ← fetch (λ b. b.vlan_q.encapsulated_proto)
  if key0 == 2048
      then pure parse_ipv4
      else if key0 == 34525
      then pure parse_ipv6
      else if key0 == 34887
      then pure parse_mpls
      else if key0 == 34888
      then pure parse_mpls
      else if key0 == 33024
      then reject vlan_stacking_beyond_kernel_depth
      else if key0 == 34984
      then reject vlan_stacking_beyond_kernel_depth
      else reject unsupported_ethertype

-- `case PK_S_PARSE_MPLS`
unfoldable pub case_parse_mpls : M Body State
case_parse_mpls = do
  store (λ b. record b { mpls_present = 1 })
  bits 20 (λ v b. record b { mpls = record (b.mpls) { label = u32 v } })
  bits 3 (λ v b. record b { mpls = record (b.mpls) { tc = u8 v } })
  bits 1 (λ v b. record b { mpls = record (b.mpls) { s = u8 v } })
  bytes 1 (λ v b. record b { mpls = record (b.mpls) { ttl = u8 v } })
  accept
