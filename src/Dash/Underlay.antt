-- ===== src/Dash/Underlay.antt =====
-- The outer packet.
-- Cases of the `switch` in benchmarks/industry/dash_parser/gen/parser.c.
use pakeles.Base.{◌==◌, if◌then◌else◌, leb, u8, u16, u32, u64, sub64, mul64}
use pakeles.Core.{M, ◌>>=◌, ◌>>◌, pure, fetch, store, reject, accept, bytes, bits, run_of}
use pakeles.Dash.Types.{
  Body, State, parse_u0_ipv4_ihl, parse_u0_ipv4options, dispatch_on_u0_protocol, parse_u0_udp,
  parse_u0_tcp, parse_u0_vxlan, parse_customer_ethernet, invalidipv4header, ipv4incorrectversion,
}

-- `case PK_S_PARSE_U0_IPV4`
unfoldable pub case_parse_u0_ipv4 : M Body State
case_parse_u0_ipv4 = do
  store (λ b. record b { u0_ipv4_present = 1 })
  bits 4 (λ v b. record b { u0_ipv4 = record (b.u0_ipv4) { version = u8 v } })
  bits 4 (λ v b. record b { u0_ipv4 = record (b.u0_ipv4) { ihl = u8 v } })
  bytes 1 (λ v b. record b { u0_ipv4 = record (b.u0_ipv4) { diffserv = u8 v } })
  bytes 2 (λ v b. record b { u0_ipv4 = record (b.u0_ipv4) { total_len = u16 v } })
  bytes 2 (λ v b. record b { u0_ipv4 = record (b.u0_ipv4) { identification = u16 v } })
  bits 3 (λ v b. record b { u0_ipv4 = record (b.u0_ipv4) { flags = u8 v } })
  bits 13 (λ v b. record b { u0_ipv4 = record (b.u0_ipv4) { frag_offset = u16 v } })
  bytes 1 (λ v b. record b { u0_ipv4 = record (b.u0_ipv4) { ttl = u8 v } })
  bytes 1 (λ v b. record b { u0_ipv4 = record (b.u0_ipv4) { protocol = u8 v } })
  bytes 2 (λ v b. record b { u0_ipv4 = record (b.u0_ipv4) { hdr_checksum = u16 v } })
  bytes 4 (λ v b. record b { u0_ipv4 = record (b.u0_ipv4) { src_addr = u32 v } })
  bytes 4 (λ v b. record b { u0_ipv4 = record (b.u0_ipv4) { dst_addr = u32 v } })
  key0 ← fetch (λ b. b.u0_ipv4.version)
  if key0 == 4 then pure parse_u0_ipv4_ihl else reject ipv4incorrectversion

-- `case PK_S_PARSE_U0_IPV4_IHL`
unfoldable pub case_parse_u0_ipv4_ihl : M Body State
case_parse_u0_ipv4_ihl = do
  key0 ← fetch (λ b. b.u0_ipv4.ihl)
  if leb key0 4
      then reject invalidipv4header
      else if key0 == 5
      then pure dispatch_on_u0_protocol
      else pure parse_u0_ipv4options

-- `case PK_S_PARSE_U0_IPV4OPTIONS`
unfoldable pub case_parse_u0_ipv4options : M Body State
case_parse_u0_ipv4options = do
  store (λ b. record b { u0_ipv4options_present = 1 })
  vlen ← fetch (λ b. mul64 (mul64 (sub64 b.u0_ipv4.ihl 5) 4) 8)
  run_of vlen (λ off len b. record b {
    u0_ipv4options = record (b.u0_ipv4options) { options_bit_off = off; options_bit_len = len };
  })
  pure dispatch_on_u0_protocol

-- `case PK_S_DISPATCH_ON_U0_PROTOCOL`
unfoldable pub case_dispatch_on_u0_protocol : M Body State
case_dispatch_on_u0_protocol = do
  key0 ← fetch (λ b. b.u0_ipv4.protocol)
  if key0 == 17 then pure parse_u0_udp else if key0 == 6 then pure parse_u0_tcp else accept

-- `case PK_S_PARSE_U0_IPV6`
unfoldable pub case_parse_u0_ipv6 : M Body State
case_parse_u0_ipv6 = do
  store (λ b. record b { u0_ipv6_present = 1 })
  bits 4 (λ v b. record b { u0_ipv6 = record (b.u0_ipv6) { version = u8 v } })
  bits 8 (λ v b. record b { u0_ipv6 = record (b.u0_ipv6) { traffic_class = u8 v } })
  bits 20 (λ v b. record b { u0_ipv6 = record (b.u0_ipv6) { flow_label = u32 v } })
  bytes 2 (λ v b. record b { u0_ipv6 = record (b.u0_ipv6) { payload_length = u16 v } })
  bytes 1 (λ v b. record b { u0_ipv6 = record (b.u0_ipv6) { next_header = u8 v } })
  bytes 1 (λ v b. record b { u0_ipv6 = record (b.u0_ipv6) { hop_limit = u8 v } })
  bytes 8 (λ v b. record b { u0_ipv6 = record (b.u0_ipv6) { src_addr_hi = u64 v } })
  bytes 8 (λ v b. record b { u0_ipv6 = record (b.u0_ipv6) { src_addr_lo = u64 v } })
  bytes 8 (λ v b. record b { u0_ipv6 = record (b.u0_ipv6) { dst_addr_hi = u64 v } })
  bytes 8 (λ v b. record b { u0_ipv6 = record (b.u0_ipv6) { dst_addr_lo = u64 v } })
  key0 ← fetch (λ b. b.u0_ipv6.next_header)
  if key0 == 17 then pure parse_u0_udp else if key0 == 6 then pure parse_u0_tcp else accept

-- `case PK_S_PARSE_U0_UDP`
unfoldable pub case_parse_u0_udp : M Body State
case_parse_u0_udp = do
  store (λ b. record b { u0_udp_present = 1 })
  bytes 2 (λ v b. record b { u0_udp = record (b.u0_udp) { src_port = u16 v } })
  bytes 2 (λ v b. record b { u0_udp = record (b.u0_udp) { dst_port = u16 v } })
  bytes 2 (λ v b. record b { u0_udp = record (b.u0_udp) { length = u16 v } })
  bytes 2 (λ v b. record b { u0_udp = record (b.u0_udp) { checksum = u16 v } })
  key0 ← fetch (λ b. b.u0_udp.dst_port)
  if key0 == 4789 then pure parse_u0_vxlan else accept

-- `case PK_S_PARSE_U0_TCP`
unfoldable pub case_parse_u0_tcp : M Body State
case_parse_u0_tcp = do
  store (λ b. record b { u0_tcp_present = 1 })
  bytes 2 (λ v b. record b { u0_tcp = record (b.u0_tcp) { src_port = u16 v } })
  bytes 2 (λ v b. record b { u0_tcp = record (b.u0_tcp) { dst_port = u16 v } })
  bytes 4 (λ v b. record b { u0_tcp = record (b.u0_tcp) { seq_no = u32 v } })
  bytes 4 (λ v b. record b { u0_tcp = record (b.u0_tcp) { ack_no = u32 v } })
  bits 4 (λ v b. record b { u0_tcp = record (b.u0_tcp) { data_offset = u8 v } })
  bits 3 (λ v b. record b { u0_tcp = record (b.u0_tcp) { res = u8 v } })
  bits 3 (λ v b. record b { u0_tcp = record (b.u0_tcp) { ecn = u8 v } })
  bits 6 (λ v b. record b { u0_tcp = record (b.u0_tcp) { flags = u8 v } })
  bytes 2 (λ v b. record b { u0_tcp = record (b.u0_tcp) { window = u16 v } })
  bytes 2 (λ v b. record b { u0_tcp = record (b.u0_tcp) { checksum = u16 v } })
  bytes 2 (λ v b. record b { u0_tcp = record (b.u0_tcp) { urgent_ptr = u16 v } })
  accept

-- `case PK_S_PARSE_U0_VXLAN`
unfoldable pub case_parse_u0_vxlan : M Body State
case_parse_u0_vxlan = do
  store (λ b. record b { u0_vxlan_present = 1 })
  bytes 1 (λ v b. record b { u0_vxlan = record (b.u0_vxlan) { flags = u8 v } })
  bytes 3 (λ v b. record b { u0_vxlan = record (b.u0_vxlan) { reserved = u32 v } })
  bytes 3 (λ v b. record b { u0_vxlan = record (b.u0_vxlan) { vni = u32 v } })
  bytes 1 (λ v b. record b { u0_vxlan = record (b.u0_vxlan) { reserved_2 = u8 v } })
  pure parse_customer_ethernet
