-- ===== src/DpdkPtype/Network.antt =====
-- IPv4, and IPv6 with its extension headers.
-- Cases of the `switch` in benchmarks/industry/dpdk_ptype/gen/parser.c.
use pakeles.Base.{◌==◌, ◌&&◌, if◌then◌else◌, u8, u16, u32, add64, sub64, mul64, shl64}
use pakeles.Core.{M, ◌>>=◌, ◌>>◌, pure, fetch, store, accept, bytes, bits, run_of}
use pakeles.DpdkPtype.Types.{
  Body, State, parse_ext_opt1, parse_ext_opt2, parse_ext_opt3, parse_ext_opt4, parse_ext_opt5,
  parse_ext_frag, parse_gre, parse_tcp, parse_inner_vlan, parse_inner_ipv4, parse_inner_ipv6,
}

-- `case PK_S_PARSE_IPV4`
unfoldable pub case_parse_ipv4 : M Body State
case_parse_ipv4 = do
  store (λ b. record b { ipv4_present = 1 })
  bits 4 (λ v b. record b { ipv4 = record (b.ipv4) { version = u8 v } })
  bits 4 (λ v b. record b { ipv4 = record (b.ipv4) { ihl = u8 v } })
  bits 6 (λ v b. record b { ipv4 = record (b.ipv4) { dscp = u8 v } })
  bits 2 (λ v b. record b { ipv4 = record (b.ipv4) { ecn = u8 v } })
  bytes 2 (λ v b. record b { ipv4 = record (b.ipv4) { total_len = u16 v } })
  bytes 2 (λ v b. record b { ipv4 = record (b.ipv4) { id = u16 v } })
  bits 2 (λ v b. record b { ipv4 = record (b.ipv4) { flags_res_df = u8 v } })
  bits 14 (λ v b. record b { ipv4 = record (b.ipv4) { mf_frag_off = u16 v } })
  bytes 1 (λ v b. record b { ipv4 = record (b.ipv4) { ttl = u8 v } })
  bytes 1 (λ v b. record b { ipv4 = record (b.ipv4) { protocol = u8 v } })
  bytes 2 (λ v b. record b { ipv4 = record (b.ipv4) { checksum = u16 v } })
  bytes 4 (λ v b. record b { ipv4 = record (b.ipv4) { src = u32 v } })
  bytes 4 (λ v b. record b { ipv4 = record (b.ipv4) { dst = u32 v } })
  vlen ← fetch (λ b. mul64 (sub64 (mul64 b.ipv4.ihl 4) 20) 8)
  run_of vlen (λ off len b. record b {
    ipv4 = record (b.ipv4) { options_bit_off = off; options_bit_len = len };
  })
  key0 ← fetch (λ b. b.ipv4.mf_frag_off)
  key1 ← fetch (λ b. b.ipv4.protocol)
  if key0 == 0 && key1 == 6
      then pure parse_tcp
      else if key0 == 0 && key1 == 4
      then pure parse_inner_ipv4
      else if key0 == 0 && key1 == 41
      then pure parse_inner_ipv6
      else if key0 == 0 && key1 == 47
      then pure parse_gre
      else if key0 == 0 && key1 == 8
      then pure parse_inner_ipv4
      else if key0 == 0 && key1 == 129
      then pure parse_inner_vlan
      else accept

-- `case PK_S_PARSE_IPV6`
unfoldable pub case_parse_ipv6 : M Body State
case_parse_ipv6 = do
  store (λ b. record b { ipv6_present = 1 })
  bits 4 (λ v b. record b { ipv6 = record (b.ipv6) { version = u8 v } })
  bits 8 (λ v b. record b { ipv6 = record (b.ipv6) { traffic_class = u8 v } })
  bits 20 (λ v b. record b { ipv6 = record (b.ipv6) { flow_label = u32 v } })
  bytes 2 (λ v b. record b { ipv6 = record (b.ipv6) { payload_length = u16 v } })
  bytes 1 (λ v b. record b { ipv6 = record (b.ipv6) { next_header = u8 v } })
  bytes 1 (λ v b. record b { ipv6 = record (b.ipv6) { hop_limit = u8 v } })
  vlen ← fetch (λ b. mul64 16 8)
  run_of vlen
      (λ off len b. record b { ipv6 = record (b.ipv6) { src_bit_off = off; src_bit_len = len } })
  vlen ← fetch (λ b. mul64 16 8)
  run_of vlen
      (λ off len b. record b { ipv6 = record (b.ipv6) { dst_bit_off = off; dst_bit_len = len } })
  key0 ← fetch (λ b. b.ipv6.next_header)
  if key0 == 0
      then pure parse_ext_opt1
      else if key0 == 43
      then pure parse_ext_opt1
      else if key0 == 60
      then pure parse_ext_opt1
      else if key0 == 44
      then pure parse_ext_frag
      else if key0 == 6
      then pure parse_tcp
      else if key0 == 4
      then pure parse_inner_ipv4
      else if key0 == 41
      then pure parse_inner_ipv6
      else if key0 == 47
      then pure parse_gre
      else if key0 == 8
      then pure parse_inner_ipv4
      else if key0 == 129
      then pure parse_inner_vlan
      else accept

-- `case PK_S_PARSE_EXT_OPT1`
unfoldable pub case_parse_ext_opt1 : M Body State
case_parse_ext_opt1 = do
  store (λ b. record b { ipv6_ext_opt_present = 1 })
  bytes 1 (λ v b. record b { ipv6_ext_opt = record (b.ipv6_ext_opt) { next_header = u8 v } })
  bytes 1 (λ v b. record b { ipv6_ext_opt = record (b.ipv6_ext_opt) { hdr_ext_len = u8 v } })
  vlen ← fetch (λ b. mul64 (sub64 (shl64 (add64 1 b.ipv6_ext_opt.hdr_ext_len) 3) 2) 8)
  run_of vlen (λ off len b. record b {
    ipv6_ext_opt = record (b.ipv6_ext_opt) { body_bit_off = off; body_bit_len = len };
  })
  key0 ← fetch (λ b. b.ipv6_ext_opt.next_header)
  if key0 == 0
      then pure parse_ext_opt2
      else if key0 == 43
      then pure parse_ext_opt2
      else if key0 == 60
      then pure parse_ext_opt2
      else if key0 == 44
      then pure parse_ext_frag
      else if key0 == 6
      then pure parse_tcp
      else if key0 == 4
      then pure parse_inner_ipv4
      else if key0 == 41
      then pure parse_inner_ipv6
      else if key0 == 47
      then pure parse_gre
      else if key0 == 8
      then pure parse_inner_ipv4
      else if key0 == 129
      then pure parse_inner_vlan
      else accept

-- `case PK_S_PARSE_EXT_OPT2`
unfoldable pub case_parse_ext_opt2 : M Body State
case_parse_ext_opt2 = do
  store (λ b. record b { ipv6_ext_opt_present = 1 })
  bytes 1 (λ v b. record b { ipv6_ext_opt = record (b.ipv6_ext_opt) { next_header = u8 v } })
  bytes 1 (λ v b. record b { ipv6_ext_opt = record (b.ipv6_ext_opt) { hdr_ext_len = u8 v } })
  vlen ← fetch (λ b. mul64 (sub64 (shl64 (add64 1 b.ipv6_ext_opt.hdr_ext_len) 3) 2) 8)
  run_of vlen (λ off len b. record b {
    ipv6_ext_opt = record (b.ipv6_ext_opt) { body_bit_off = off; body_bit_len = len };
  })
  key0 ← fetch (λ b. b.ipv6_ext_opt.next_header)
  if key0 == 0
      then pure parse_ext_opt3
      else if key0 == 43
      then pure parse_ext_opt3
      else if key0 == 60
      then pure parse_ext_opt3
      else if key0 == 44
      then pure parse_ext_frag
      else if key0 == 6
      then pure parse_tcp
      else if key0 == 4
      then pure parse_inner_ipv4
      else if key0 == 41
      then pure parse_inner_ipv6
      else if key0 == 47
      then pure parse_gre
      else if key0 == 8
      then pure parse_inner_ipv4
      else if key0 == 129
      then pure parse_inner_vlan
      else accept

-- `case PK_S_PARSE_EXT_OPT3`
unfoldable pub case_parse_ext_opt3 : M Body State
case_parse_ext_opt3 = do
  store (λ b. record b { ipv6_ext_opt_present = 1 })
  bytes 1 (λ v b. record b { ipv6_ext_opt = record (b.ipv6_ext_opt) { next_header = u8 v } })
  bytes 1 (λ v b. record b { ipv6_ext_opt = record (b.ipv6_ext_opt) { hdr_ext_len = u8 v } })
  vlen ← fetch (λ b. mul64 (sub64 (shl64 (add64 1 b.ipv6_ext_opt.hdr_ext_len) 3) 2) 8)
  run_of vlen (λ off len b. record b {
    ipv6_ext_opt = record (b.ipv6_ext_opt) { body_bit_off = off; body_bit_len = len };
  })
  key0 ← fetch (λ b. b.ipv6_ext_opt.next_header)
  if key0 == 0
      then pure parse_ext_opt4
      else if key0 == 43
      then pure parse_ext_opt4
      else if key0 == 60
      then pure parse_ext_opt4
      else if key0 == 44
      then pure parse_ext_frag
      else if key0 == 6
      then pure parse_tcp
      else if key0 == 4
      then pure parse_inner_ipv4
      else if key0 == 41
      then pure parse_inner_ipv6
      else if key0 == 47
      then pure parse_gre
      else if key0 == 8
      then pure parse_inner_ipv4
      else if key0 == 129
      then pure parse_inner_vlan
      else accept

-- `case PK_S_PARSE_EXT_OPT4`
unfoldable pub case_parse_ext_opt4 : M Body State
case_parse_ext_opt4 = do
  store (λ b. record b { ipv6_ext_opt_present = 1 })
  bytes 1 (λ v b. record b { ipv6_ext_opt = record (b.ipv6_ext_opt) { next_header = u8 v } })
  bytes 1 (λ v b. record b { ipv6_ext_opt = record (b.ipv6_ext_opt) { hdr_ext_len = u8 v } })
  vlen ← fetch (λ b. mul64 (sub64 (shl64 (add64 1 b.ipv6_ext_opt.hdr_ext_len) 3) 2) 8)
  run_of vlen (λ off len b. record b {
    ipv6_ext_opt = record (b.ipv6_ext_opt) { body_bit_off = off; body_bit_len = len };
  })
  key0 ← fetch (λ b. b.ipv6_ext_opt.next_header)
  if key0 == 0
      then pure parse_ext_opt5
      else if key0 == 43
      then pure parse_ext_opt5
      else if key0 == 60
      then pure parse_ext_opt5
      else if key0 == 44
      then pure parse_ext_frag
      else if key0 == 6
      then pure parse_tcp
      else if key0 == 4
      then pure parse_inner_ipv4
      else if key0 == 41
      then pure parse_inner_ipv6
      else if key0 == 47
      then pure parse_gre
      else if key0 == 8
      then pure parse_inner_ipv4
      else if key0 == 129
      then pure parse_inner_vlan
      else accept

-- `case PK_S_PARSE_EXT_OPT5`
unfoldable pub case_parse_ext_opt5 : M Body State
case_parse_ext_opt5 = do
  store (λ b. record b { ipv6_ext_opt_present = 1 })
  bytes 1 (λ v b. record b { ipv6_ext_opt = record (b.ipv6_ext_opt) { next_header = u8 v } })
  bytes 1 (λ v b. record b { ipv6_ext_opt = record (b.ipv6_ext_opt) { hdr_ext_len = u8 v } })
  vlen ← fetch (λ b. mul64 (sub64 (shl64 (add64 1 b.ipv6_ext_opt.hdr_ext_len) 3) 2) 8)
  run_of vlen (λ off len b. record b {
    ipv6_ext_opt = record (b.ipv6_ext_opt) { body_bit_off = off; body_bit_len = len };
  })
  accept

-- `case PK_S_PARSE_EXT_FRAG`
unfoldable pub case_parse_ext_frag : M Body State
case_parse_ext_frag = do
  store (λ b. record b { ipv6_frag_present = 1 })
  bytes 1 (λ v b. record b { ipv6_frag = record (b.ipv6_frag) { next_header = u8 v } })
  bytes 1 (λ v b. record b { ipv6_frag = record (b.ipv6_frag) { reserved = u8 v } })
  bits 13 (λ v b. record b { ipv6_frag = record (b.ipv6_frag) { frag_off = u16 v } })
  bits 2 (λ v b. record b { ipv6_frag = record (b.ipv6_frag) { res2 = u8 v } })
  bits 1 (λ v b. record b { ipv6_frag = record (b.ipv6_frag) { m_flag = u8 v } })
  bytes 4 (λ v b. record b { ipv6_frag = record (b.ipv6_frag) { identification = u32 v } })
  accept
