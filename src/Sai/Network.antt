-- ===== src/Sai/Network.antt =====
-- IPv4 and IPv6.
-- Cases of the `switch` in benchmarks/industry/sai_parser/gen/parser.c.
use pakeles.Base.{◌==◌, if◌then◌else◌, u8, u16, u32, mul64}
use pakeles.Core.{M, ◌>>=◌, ◌>>◌, pure, fetch, store, accept, bytes, bits, run_of}
use pakeles.Sai.Types.{Body, State, parse_icmp, parse_tcp, parse_udp}

-- `case PK_S_PARSE_IPV4`
unfoldable pub case_parse_ipv4 : M Body State
case_parse_ipv4 = do
  store (λ b. record b { ipv4_present = 1 })
  bits 4 (λ v b. record b { ipv4 = record (b.ipv4) { version = u8 v } })
  bits 4 (λ v b. record b { ipv4 = record (b.ipv4) { ihl = u8 v } })
  bits 6 (λ v b. record b { ipv4 = record (b.ipv4) { dscp = u8 v } })
  bits 2 (λ v b. record b { ipv4 = record (b.ipv4) { ecn = u8 v } })
  bytes 2 (λ v b. record b { ipv4 = record (b.ipv4) { total_len = u16 v } })
  bytes 2 (λ v b. record b { ipv4 = record (b.ipv4) { identification = u16 v } })
  bits 3 (λ v b. record b { ipv4 = record (b.ipv4) { flags = u8 v } })
  bits 13 (λ v b. record b { ipv4 = record (b.ipv4) { frag_offset = u16 v } })
  bytes 1 (λ v b. record b { ipv4 = record (b.ipv4) { ttl = u8 v } })
  bytes 1 (λ v b. record b { ipv4 = record (b.ipv4) { protocol = u8 v } })
  bytes 2 (λ v b. record b { ipv4 = record (b.ipv4) { header_checksum = u16 v } })
  bytes 4 (λ v b. record b { ipv4 = record (b.ipv4) { src_addr = u32 v } })
  bytes 4 (λ v b. record b { ipv4 = record (b.ipv4) { dst_addr = u32 v } })
  key0 ← fetch (λ b. b.ipv4.protocol)
  if key0 == 1
      then pure parse_icmp
      else if key0 == 6
      then pure parse_tcp
      else if key0 == 17
      then pure parse_udp
      else accept

-- `case PK_S_PARSE_IPV6`
unfoldable pub case_parse_ipv6 : M Body State
case_parse_ipv6 = do
  store (λ b. record b { ipv6_present = 1 })
  bits 4 (λ v b. record b { ipv6 = record (b.ipv6) { version = u8 v } })
  bits 8 (λ v b. record b { ipv6 = record (b.ipv6) { traffic_class = u8 v } })
  bits 20 (λ v b. record b { ipv6 = record (b.ipv6) { flow_label = u32 v } })
  bytes 2 (λ v b. record b { ipv6 = record (b.ipv6) { payload_length = u16 v } })
  bytes 1 (λ v b. record b { ipv6 = record (b.ipv6) { next_header = u8 v } })
  bytes 1 (λ v b. record b { ipv6 = record (b.ipv6) { hop_limit = u8 v } })
  vlen ← fetch (λ b. mul64 16 8)
  run_of vlen (λ off len b. record b {
    ipv6 = record (b.ipv6) { src_addr_bit_off = off; src_addr_bit_len = len };
  })
  vlen ← fetch (λ b. mul64 16 8)
  run_of vlen (λ off len b. record b {
    ipv6 = record (b.ipv6) { dst_addr_bit_off = off; dst_addr_bit_len = len };
  })
  key0 ← fetch (λ b. b.ipv6.next_header)
  if key0 == 58
      then pure parse_icmp
      else if key0 == 6
      then pure parse_tcp
      else if key0 == 17
      then pure parse_udp
      else accept
