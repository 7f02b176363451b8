-- ===== src/Katran/Icmp.antt =====
-- ICMP, and the packet that an ICMP error carries.
-- Cases of the `switch` in benchmarks/industry/katran_parser/gen/parser.c.
use pakeles.Base.{◌==◌, if◌then◌else◌, bit_and, u8, u16, u32, mul64}
use pakeles.Core.{M, ◌>>=◌, ◌>>◌, pure, fetch, store, reject, accept, bytes, bits, run_of}
use pakeles.Katran.Types.{
  Body, State, parse_inner_ipv4, parse_inner_ipv4_proto, parse_inner_ipv6, parse_tcp, parse_udp,
  inner_ipv4_ihl_5,
}

-- `case PK_S_PARSE_ICMP`
unfoldable pub case_parse_icmp : M Body State
case_parse_icmp = do
  store (λ b. record b { icmp_present = 1 })
  bytes 1 (λ v b. record b { icmp = record (b.icmp) { type = u8 v } })
  bytes 1 (λ v b. record b { icmp = record (b.icmp) { code = u8 v } })
  bytes 2 (λ v b. record b { icmp = record (b.icmp) { checksum = u16 v } })
  bytes 4 (λ v b. record b { icmp = record (b.icmp) { rest = u32 v } })
  key0 ← fetch (λ b. b.icmp.type)
  if key0 == 3 then pure parse_inner_ipv4 else accept

-- `case PK_S_PARSE_ICMP6`
unfoldable pub case_parse_icmp6 : M Body State
case_parse_icmp6 = do
  store (λ b. record b { icmp_present = 1 })
  bytes 1 (λ v b. record b { icmp = record (b.icmp) { type = u8 v } })
  bytes 1 (λ v b. record b { icmp = record (b.icmp) { code = u8 v } })
  bytes 2 (λ v b. record b { icmp = record (b.icmp) { checksum = u16 v } })
  bytes 4 (λ v b. record b { icmp = record (b.icmp) { rest = u32 v } })
  key0 ← fetch (λ b. b.icmp.type)
  if key0 == 1 then pure parse_inner_ipv6 else if key0 == 2 then pure parse_inner_ipv6 else accept

-- `case PK_S_PARSE_INNER_IPV4`
unfoldable pub case_parse_inner_ipv4 : M Body State
case_parse_inner_ipv4 = do
  store (λ b. record b { inner_ipv4_present = 1 })
  bits 4 (λ v b. record b { inner_ipv4 = record (b.inner_ipv4) { version = u8 v } })
  bits 4 (λ v b. record b { inner_ipv4 = record (b.inner_ipv4) { ihl = u8 v } })
  bits 6 (λ v b. record b { inner_ipv4 = record (b.inner_ipv4) { dscp = u8 v } })
  bits 2 (λ v b. record b { inner_ipv4 = record (b.inner_ipv4) { ecn = u8 v } })
  bytes 2 (λ v b. record b { inner_ipv4 = record (b.inner_ipv4) { total_len = u16 v } })
  bytes 2 (λ v b. record b { inner_ipv4 = record (b.inner_ipv4) { id = u16 v } })
  bits 2 (λ v b. record b { inner_ipv4 = record (b.inner_ipv4) { flags_res_df = u8 v } })
  bits 14 (λ v b. record b { inner_ipv4 = record (b.inner_ipv4) { mf_frag_off = u16 v } })
  bytes 1 (λ v b. record b { inner_ipv4 = record (b.inner_ipv4) { ttl = u8 v } })
  bytes 1 (λ v b. record b { inner_ipv4 = record (b.inner_ipv4) { protocol = u8 v } })
  bytes 2 (λ v b. record b { inner_ipv4 = record (b.inner_ipv4) { checksum = u16 v } })
  bytes 4 (λ v b. record b { inner_ipv4 = record (b.inner_ipv4) { src = u32 v } })
  bytes 4 (λ v b. record b { inner_ipv4 = record (b.inner_ipv4) { dst = u32 v } })
  store (λ b. record b { m_is_icmp = bit_and 1 0x1 })
  key0 ← fetch (λ b. b.inner_ipv4.ihl)
  if key0 == 5 then pure parse_inner_ipv4_proto else reject inner_ipv4_ihl_5

-- `case PK_S_PARSE_INNER_IPV4_PROTO`
unfoldable pub case_parse_inner_ipv4_proto : M Body State
case_parse_inner_ipv4_proto = do
  key0 ← fetch (λ b. b.inner_ipv4.protocol)
  if key0 == 6 then pure parse_tcp else if key0 == 17 then pure parse_udp else accept

-- `case PK_S_PARSE_INNER_IPV6`
unfoldable pub case_parse_inner_ipv6 : M Body State
case_parse_inner_ipv6 = do
  store (λ b. record b { ipv6_present = 1 })
  bits 4 (λ v b. record b { ipv6 = record (b.ipv6) { version = u8 v } })
  bits 8 (λ v b. record b { ipv6 = record (b.ipv6) { traffic_class = u8 v } })
  bits 20 (λ v b. record b { ipv6 = record (b.ipv6) { flow_label = u32 v } })
  bytes 2 (λ v b. record b { ipv6 = record (b.ipv6) { payload_length = u16 v } })
  bytes 1 (λ v b. record b { ipv6 = record (b.ipv6) { next_header = u8 v } })
  bytes 1 (λ v b. record b { ipv6 = record (b.ipv6) { hop_limit = u8 v } })
  vlen ← fetch (λ b. mul64 16 8)
  run_of vlen
      (λ off len b. record b { ipv6 = record (b.ipv6) { src_bit_off = off; src_bit_len = len } })
  vlen ← fetch (λ b. mul64 16 8)
  run_of vlen
      (λ off len b. record b { ipv6 = record (b.ipv6) { dst_bit_off = off; dst_bit_len = len } })
  store (λ b. record b { m_is_icmp = bit_and 1 0x1 })
  key0 ← fetch (λ b. b.ipv6.next_header)
  if key0 == 6 then pure parse_tcp else if key0 == 17 then pure parse_udp else accept
