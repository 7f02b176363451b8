-- ===== src/Katran/Outer.antt =====
-- The outer packet.
-- Cases of the `switch` in benchmarks/industry/katran_parser/gen/parser.c.
use pakeles.Base.{◌==◌, ◌&&◌, if◌then◌else◌, u8, u16, u32, u64, mul64}
use pakeles.Core.{M, ◌>>=◌, ◌>>◌, pure, fetch, store, reject, accept, bytes, bits, run_of}
use pakeles.Katran.Types.{
  Body, State, parse_ipv4, parse_ipv4_proto, parse_ipv6, parse_icmp, parse_icmp6, parse_tcp,
  parse_udp, ipv4_ihl_5_or_fragmented, ipv6_fragment,
}

-- `case PK_S_PARSE_ETHERNET`
unfoldable pub case_parse_ethernet : M Body State
case_parse_ethernet = do
  store (λ b. record b { ethernet_present = 1 })
  bytes 6 (λ v b. record b { ethernet = record (b.ethernet) { dst = u64 v } })
  bytes 6 (λ v b. record b { ethernet = record (b.ethernet) { src = u64 v } })
  bytes 2 (λ v b. record b { ethernet = record (b.ethernet) { ethertype = u16 v } })
  key0 ← fetch (λ b. b.ethernet.ethertype)
  if key0 == 2048 then pure parse_ipv4 else if key0 == 34525 then pure parse_ipv6 else accept

-- `case PK_S_PARSE_IPV4`
unfoldable pub case_parse_ipv4 : M Body State
case_parse_ipv4 = do
  store (λ b. record b { ipv4_present = 1 })
  bits 4 (λ v b. record b { ipv4 = record (b.ipv4) { version = u8 v } })
  bits 4 (λ v b. record b { ipv4 = record (b.ipv4) { ihl = u8 v } })
  bits 6 (λ v b. record b { ipv4 = record (b.ipv4) { dscp = u8 v } })
  bits 2 (λ v b. record b { ipv4 = record (b.ipv4) { ecn = u8 v } })
  bytes 2 (λ v b. record b { ipv4 = record (b.ipv4) { total_len = u16 v } })
  bytes 2 (λ v b. record b { ipv4 = record (b.ipv4) { id = u16 v } })
  bits 2 (λ v b. record b { ipv4 = record (b.ipv4) { flags_res_df = u8 v } })
  bits 14 (λ v b. record b { ipv4 = record (b.ipv4) { mf_frag_off = u16 v } })
  bytes 1 (λ v b. record b { ipv4 = record (b.ipv4) { ttl = u8 v } })
  bytes 1 (λ v b. record b { ipv4 = record (b.ipv4) { protocol = u8 v } })
  bytes 2 (λ v b. record b { ipv4 = record (b.ipv4) { checksum = u16 v } })
  bytes 4 (λ v b. record b { ipv4 = record (b.ipv4) { src = u32 v } })
  bytes 4 (λ v b. record b { ipv4 = record (b.ipv4) { dst = u32 v } })
  key0 ← fetch (λ b. b.ipv4.ihl)
  key1 ← fetch (λ b. b.ipv4.mf_frag_off)
  if key0 == 5 && key1 == 0 then pure parse_ipv4_proto else reject ipv4_ihl_5_or_fragmented

-- `case PK_S_PARSE_IPV4_PROTO`
unfoldable pub case_parse_ipv4_proto : M Body State
case_parse_ipv4_proto = do
  key0 ← fetch (λ b. b.ipv4.protocol)
  if key0 == 1
      then pure parse_icmp
      else if key0 == 6
      then pure parse_tcp
      else if key0 == 17
      then pure parse_udp
      else accept

-- `case PK_S_PARSE_IPV6`
unfoldable pub case_parse_ipv6 : M Body State
case_parse_ipv6 = do
  store (λ b. record b { ipv6_present = 1 })
  bits 4 (λ v b. record b { ipv6 = record (b.ipv6) { version = u8 v } })
  bits 8 (λ v b. record b { ipv6 = record (b.ipv6) { traffic_class = u8 v } })
  bits 20 (λ v b. record b { ipv6 = record (b.ipv6) { flow_label = u32 v } })
  bytes 2 (λ v b. record b { ipv6 = record (b.ipv6) { payload_length = u16 v } })
  bytes 1 (λ v b. record b { ipv6 = record (b.ipv6) { next_header = u8 v } })
  bytes 1 (λ v b. record b { ipv6 = record (b.ipv6) { hop_limit = u8 v } })
  vlen ← fetch (λ b. mul64 16 8)
  run_of vlen
      (λ off len b. record b { ipv6 = record (b.ipv6) { src_bit_off = off; src_bit_len = len } })
  vlen ← fetch (λ b. mul64 16 8)
  run_of vlen
      (λ off len b. record b { ipv6 = record (b.ipv6) { dst_bit_off = off; dst_bit_len = len } })
  key0 ← fetch (λ b. b.ipv6.next_header)
  if key0 == 44
      then reject ipv6_fragment
      else if key0 == 58
      then pure parse_icmp6
      else if key0 == 6
      then pure parse_tcp
      else if key0 == 17
      then pure parse_udp
      else accept
