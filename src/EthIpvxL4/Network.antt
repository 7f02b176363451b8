-- ===== src/EthIpvxL4/Network.antt =====
-- Ethernet, IPv4 and IPv6.
-- Cases of the `switch` in examples/eth_ipvx_l4/gen/parser.c.
use pakeles.Base.{◌==◌, if◌then◌else◌, u8, u16, u32, u64, sub64, mul64}
use pakeles.Core.{M, ◌>>=◌, ◌>>◌, pure, fetch, store, reject, bytes, bits, run_of}
use pakeles.EthIpvxL4.Types.{
  Body, State, parse_ipv4, parse_ipv6, parse_tcp, parse_udp, unsupported_ethertype,
  unsupported_ip_protocol,
}

-- `case PK_S_PARSE_ETHERNET`
unfoldable pub case_parse_ethernet : M Body State
case_parse_ethernet = do
  store (λ b. record b { ethernet_present = 1 })
  bytes 6 (λ v b. record b { ethernet = record (b.ethernet) { dst = u64 v } })
  bytes 6 (λ v b. record b { ethernet = record (b.ethernet) { src = u64 v } })
  bytes 2 (λ v b. record b { ethernet = record (b.ethernet) { ethertype = u16 v } })
  key0 ← fetch (λ b. b.ethernet.ethertype)
  if key0 == 2048
      then pure parse_ipv4
      else if key0 == 34525
      then pure parse_ipv6
      else reject unsupported_ethertype

-- `case PK_S_PARSE_IPV4`
unfoldable pub case_parse_ipv4 : M Body State
case_parse_ipv4 = do
  store (λ b. record b { ipv4_present = 1 })
  bits 4 (λ v b. record b { ipv4 = record (b.ipv4) { version = u8 v } })
  bits 4 (λ v b. record b { ipv4 = record (b.ipv4) { ihl = u8 v } })
  bits 6 (λ v b. record b { ipv4 = record (b.ipv4) { dscp = u8 v } })
  bits 2 (λ v b. record b { ipv4 = record (b.ipv4) { ecn = u8 v } })
  bytes 2 (λ v b. record b { ipv4 = record (b.ipv4) { total_len = u16 v } })
  bytes 2 (λ v b. record b { ipv4 = record (b.ipv4) { id = u16 v } })
  bits 3 (λ v b. record b { ipv4 = record (b.ipv4) { flags = u8 v } })
  bits 13 (λ v b. record b { ipv4 = record (b.ipv4) { frag_offset = u16 v } })
  bytes 1 (λ v b. record b { ipv4 = record (b.ipv4) { ttl = u8 v } })
  bytes 1 (λ v b. record b { ipv4 = record (b.ipv4) { protocol = u8 v } })
  bytes 2 (λ v b. record b { ipv4 = record (b.ipv4) { checksum = u16 v } })
  bytes 4 (λ v b. record b { ipv4 = record (b.ipv4) { src = u32 v } })
  bytes 4 (λ v b. record b { ipv4 = record (b.ipv4) { dst = u32 v } })
  vlen ← fetch (λ b. mul64 (sub64 (mul64 b.ipv4.ihl 4) 20) 8)
  run_of vlen (λ off len b. record b {
    ipv4 = record (b.ipv4) { options_bit_off = off; options_bit_len = len };
  })
  key0 ← fetch (λ b. b.ipv4.protocol)
  if key0 == 6
      then pure parse_tcp
      else if key0 == 17
      then pure parse_udp
      else reject unsupported_ip_protocol

-- `case PK_S_PARSE_IPV6`
unfoldable pub case_parse_ipv6 : M Body State
case_parse_ipv6 = do
  store (λ b. record b { ipv6_present = 1 })
  bits 4 (λ v b. record b { ipv6 = record (b.ipv6) { version = u8 v } })
  bits 8 (λ v b. record b { ipv6 = record (b.ipv6) { traffic_class = u8 v } })
  bits 20 (λ v b. record b { ipv6 = record (b.ipv6) { flow_label = u32 v } })
  bytes 2 (λ v b. record b { ipv6 = record (b.ipv6) { payload_length = u16 v } })
  bytes 1 (λ v b. record b { ipv6 = record (b.ipv6) { next_header = u8 v } })
  bytes 1 (λ v b. record b { ipv6 = record (b.ipv6) { hop_limit = u8 v } })
  vlen ← fetch (λ b. mul64 16 8)
  run_of vlen
      (λ off len b. record b { ipv6 = record (b.ipv6) { src_bit_off = off; src_bit_len = len } })
  vlen ← fetch (λ b. mul64 16 8)
  run_of vlen
      (λ off len b. record b { ipv6 = record (b.ipv6) { dst_bit_off = off; dst_bit_len = len } })
  key0 ← fetch (λ b. b.ipv6.next_header)
  if key0 == 6
      then pure parse_tcp
      else if key0 == 17
      then pure parse_udp
      else reject unsupported_ip_protocol
