-- ===== src/FlowDissector/Network.antt =====
-- IPv4, IPv6 and its extension headers.
-- Cases of the `switch` in benchmarks/industry/linux_flow_dissector/gen/parser.c.
use pakeles.Base.{◌==◌, if◌then◌else◌, u8, u16, u32, add64, sub64, mul64, shl64}
use pakeles.Core.{M, ◌>>=◌, ◌>>◌, pure, fetch, store, reject, accept, bytes, bits, run_of}
use pakeles.FlowDissector.Types.{
  Body, State, parse_ipv6_opt, parse_ipip, parse_ip6ip, parse_gre, parse_ipv6_frag, parse_tcp,
  parse_udp, unsupported_ip_protocol,
}

-- `case PK_S_PARSE_IPV4`
unfoldable pub case_parse_ipv4 : M Body State
case_parse_ipv4 = do
  store (λ b. record b { ipv4_present = 1 })
  bits 4 (λ v b. record b { ipv4 = record (b.ipv4) { version = u8 v } })
  bits 4 (λ v b. record b { ipv4 = record (b.ipv4) { ihl = u8 v } })
  bits 6 (λ v b. record b { ipv4 = record (b.ipv4) { dscp = u8 v } })
  bits 2 (λ v b. record b { ipv4 = record (b.ipv4) { ecn = u8 v } })
  bytes 2 (λ v b. record b { ipv4 = record (b.ipv4) { total_len = u16 v } })
  bytes 2 (λ v b. record b { ipv4 = record (b.ipv4) { id = u16 v } })
  bits 3 (λ v b. record b { ipv4 = record (b.ipv4) { flags = u8 v } })
  bits 13 (λ v b. record b { ipv4 = record (b.ipv4) { frag_offset = u16 v } })
  bytes 1 (λ v b. record b { ipv4 = record (b.ipv4) { ttl = u8 v } })
  bytes 1 (λ v b. record b { ipv4 = record (b.ipv4) { protocol = u8 v } })
  bytes 2 (λ v b. record b { ipv4 = record (b.ipv4) { checksum = u16 v } })
  bytes 4 (λ v b. record b { ipv4 = record (b.ipv4) { src = u32 v } })
  bytes 4 (λ v b. record b { ipv4 = record (b.ipv4) { dst = u32 v } })
  vlen ← fetch (λ b. mul64 (sub64 (mul64 b.ipv4.ihl 4) 20) 8)
  run_of vlen (λ off len b. record b {
    ipv4 = record (b.ipv4) { options_bit_off = off; options_bit_len = len };
  })
  key0 ← fetch (λ b. b.ipv4.protocol)
  if key0 == 4
      then pure parse_ipip
      else if key0 == 6
      then pure parse_tcp
      else if key0 == 17
      then pure parse_udp
      else if key0 == 41
      then pure parse_ip6ip
      else if key0 == 47
      then pure parse_gre
      else reject unsupported_ip_protocol

-- `case PK_S_PARSE_IPV6`
unfoldable pub case_parse_ipv6 : M Body State
case_parse_ipv6 = do
  store (λ b. record b { ipv6_present = 1 })
  bits 4 (λ v b. record b { ipv6 = record (b.ipv6) { version = u8 v } })
  bits 8 (λ v b. record b { ipv6 = record (b.ipv6) { traffic_class = u8 v } })
  bits 20 (λ v b. record b { ipv6 = record (b.ipv6) { flow_label = u32 v } })
  bytes 2 (λ v b. record b { ipv6 = record (b.ipv6) { payload_length = u16 v } })
  bytes 1 (λ v b. record b { ipv6 = record (b.ipv6) { next_header = u8 v } })
  bytes 1 (λ v b. record b { ipv6 = record (b.ipv6) { hop_limit = u8 v } })
  vlen ← fetch (λ b. mul64 16 8)
  run_of vlen
      (λ off len b. record b { ipv6 = record (b.ipv6) { src_bit_off = off; src_bit_len = len } })
  vlen ← fetch (λ b. mul64 16 8)
  run_of vlen
      (λ off len b. record b { ipv6 = record (b.ipv6) { dst_bit_off = off; dst_bit_len = len } })
  key0 ← fetch (λ b. b.ipv6.next_header)
  if key0 == 0
      then pure parse_ipv6_opt
      else if key0 == 60
      then pure parse_ipv6_opt
      else if key0 == 44
      then pure parse_ipv6_frag
      else if key0 == 4
      then pure parse_ipip
      else if key0 == 6
      then pure parse_tcp
      else if key0 == 17
      then pure parse_udp
      else if key0 == 41
      then pure parse_ip6ip
      else if key0 == 47
      then pure parse_gre
      else reject unsupported_ip_protocol

-- `case PK_S_PARSE_IPV6_OPT`
unfoldable pub case_parse_ipv6_opt : M Body State
case_parse_ipv6_opt = do
  store (λ b. record b { ext_opt_present = 1 })
  bytes 1 (λ v b. record b { ext_opt = record (b.ext_opt) { next_header = u8 v } })
  bytes 1 (λ v b. record b { ext_opt = record (b.ext_opt) { hdr_ext_len = u8 v } })
  vlen ← fetch (λ b. mul64 (sub64 (shl64 (add64 1 b.ext_opt.hdr_ext_len) 3) 2) 8)
  run_of vlen (λ off len b. record b {
    ext_opt = record (b.ext_opt) { body_bit_off = off; body_bit_len = len };
  })
  key0 ← fetch (λ b. b.ext_opt.next_header)
  if key0 == 0
      then pure parse_ipv6_opt
      else if key0 == 60
      then pure parse_ipv6_opt
      else if key0 == 44
      then pure parse_ipv6_frag
      else if key0 == 4
      then pure parse_ipip
      else if key0 == 6
      then pure parse_tcp
      else if key0 == 17
      then pure parse_udp
      else if key0 == 41
      then pure parse_ip6ip
      else if key0 == 47
      then pure parse_gre
      else reject unsupported_ip_protocol

-- `case PK_S_PARSE_IPV6_FRAG`
unfoldable pub case_parse_ipv6_frag : M Body State
case_parse_ipv6_frag = do
  store (λ b. record b { ext_frag_present = 1 })
  bytes 1 (λ v b. record b { ext_frag = record (b.ext_frag) { next_header = u8 v } })
  bytes 1 (λ v b. record b { ext_frag = record (b.ext_frag) { reserved = u8 v } })
  bits 13 (λ v b. record b { ext_frag = record (b.ext_frag) { frag_off = u16 v } })
  bits 2 (λ v b. record b { ext_frag = record (b.ext_frag) { res2 = u8 v } })
  bits 1 (λ v b. record b { ext_frag = record (b.ext_frag) { m_flag = u8 v } })
  bytes 4 (λ v b. record b { ext_frag = record (b.ext_frag) { identification = u32 v } })
  accept
