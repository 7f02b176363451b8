-- ===== src/Dash/Customer.antt =====
-- The inner packet.
-- Cases of the `switch` in benchmarks/industry/dash_parser/gen/parser.c.
use pakeles.Base.{◌==◌, if◌then◌else◌, u8, u16, u32, u64}
use pakeles.Core.{M, ◌>>=◌, ◌>>◌, pure, fetch, store, reject, accept, bytes, bits}
use pakeles.Dash.Types.{
  Body, State, parse_customer_ipv4, parse_customer_ipv4_ihl, dispatch_on_customer_protocol,
  parse_customer_ipv6, parse_customer_udp, parse_customer_tcp, ipv4incorrectversion,
  ipv4optionsnotsupported,
}

-- `case PK_S_PARSE_CUSTOMER_ETHERNET`
unfoldable pub case_parse_customer_ethernet : M Body State
case_parse_customer_ethernet = do
  store (λ b. record b { customer_ethernet_present = 1 })
  bytes 6
      (λ v b. record b { customer_ethernet = record (b.customer_ethernet) { dst_addr = u64 v } })
  bytes 6
      (λ v b. record b { customer_ethernet = record (b.customer_ethernet) { src_addr = u64 v } })
  bytes 2
      (λ v b. record b { customer_ethernet = record (b.customer_ethernet) { ether_type = u16 v } })
  key0 ← fetch (λ b. b.customer_ethernet.ether_type)
  if key0 == 2048
      then pure parse_customer_ipv4
      else if key0 == 34525
      then pure parse_customer_ipv6
      else accept

-- `case PK_S_PARSE_CUSTOMER_IPV4`
unfoldable pub case_parse_customer_ipv4 : M Body State
case_parse_customer_ipv4 = do
  store (λ b. record b { customer_ipv4_present = 1 })
  bits 4 (λ v b. record b { customer_ipv4 = record (b.customer_ipv4) { version = u8 v } })
  bits 4 (λ v b. record b { customer_ipv4 = record (b.customer_ipv4) { ihl = u8 v } })
  bytes 1 (λ v b. record b { customer_ipv4 = record (b.customer_ipv4) { diffserv = u8 v } })
  bytes 2 (λ v b. record b { customer_ipv4 = record (b.customer_ipv4) { total_len = u16 v } })
  bytes 2 (λ v b. record b { customer_ipv4 = record (b.customer_ipv4) { identification = u16 v } })
  bits 3 (λ v b. record b { customer_ipv4 = record (b.customer_ipv4) { flags = u8 v } })
  bits 13 (λ v b. record b { customer_ipv4 = record (b.customer_ipv4) { frag_offset = u16 v } })
  bytes 1 (λ v b. record b { customer_ipv4 = record (b.customer_ipv4) { ttl = u8 v } })
  bytes 1 (λ v b. record b { customer_ipv4 = record (b.customer_ipv4) { protocol = u8 v } })
  bytes 2 (λ v b. record b { customer_ipv4 = record (b.customer_ipv4) { hdr_checksum = u16 v } })
  bytes 4 (λ v b. record b { customer_ipv4 = record (b.customer_ipv4) { src_addr = u32 v } })
  bytes 4 (λ v b. record b { customer_ipv4 = record (b.customer_ipv4) { dst_addr = u32 v } })
  key0 ← fetch (λ b. b.customer_ipv4.version)
  if key0 == 4 then pure parse_customer_ipv4_ihl else reject ipv4incorrectversion

-- `case PK_S_PARSE_CUSTOMER_IPV4_IHL`
unfoldable pub case_parse_customer_ipv4_ihl : M Body State
case_parse_customer_ipv4_ihl = do
  key0 ← fetch (λ b. b.customer_ipv4.ihl)
  if key0 == 5 then pure dispatch_on_customer_protocol else reject ipv4optionsnotsupported

-- `case PK_S_DISPATCH_ON_CUSTOMER_PROTOCOL`
unfoldable pub case_dispatch_on_customer_protocol : M Body State
case_dispatch_on_customer_protocol = do
  key0 ← fetch (λ b. b.customer_ipv4.protocol)
  if key0 == 17
      then pure parse_customer_udp
      else if key0 == 6
      then pure parse_customer_tcp
      else accept

-- `case PK_S_PARSE_CUSTOMER_IPV6`
unfoldable pub case_parse_customer_ipv6 : M Body State
case_parse_customer_ipv6 = do
  store (λ b. record b { customer_ipv6_present = 1 })
  bits 4 (λ v b. record b { customer_ipv6 = record (b.customer_ipv6) { version = u8 v } })
  bits 8 (λ v b. record b { customer_ipv6 = record (b.customer_ipv6) { traffic_class = u8 v } })
  bits 20 (λ v b. record b { customer_ipv6 = record (b.customer_ipv6) { flow_label = u32 v } })
  bytes 2 (λ v b. record b { customer_ipv6 = record (b.customer_ipv6) { payload_length = u16 v } })
  bytes 1 (λ v b. record b { customer_ipv6 = record (b.customer_ipv6) { next_header = u8 v } })
  bytes 1 (λ v b. record b { customer_ipv6 = record (b.customer_ipv6) { hop_limit = u8 v } })
  bytes 8 (λ v b. record b { customer_ipv6 = record (b.customer_ipv6) { src_addr_hi = u64 v } })
  bytes 8 (λ v b. record b { customer_ipv6 = record (b.customer_ipv6) { src_addr_lo = u64 v } })
  bytes 8 (λ v b. record b { customer_ipv6 = record (b.customer_ipv6) { dst_addr_hi = u64 v } })
  bytes 8 (λ v b. record b { customer_ipv6 = record (b.customer_ipv6) { dst_addr_lo = u64 v } })
  key0 ← fetch (λ b. b.customer_ipv6.next_header)
  if key0 == 17
      then pure parse_customer_udp
      else if key0 == 6
      then pure parse_customer_tcp
      else accept

-- `case PK_S_PARSE_CUSTOMER_UDP`
unfoldable pub case_parse_customer_udp : M Body State
case_parse_customer_udp = do
  store (λ b. record b { customer_udp_present = 1 })
  bytes 2 (λ v b. record b { customer_udp = record (b.customer_udp) { src_port = u16 v } })
  bytes 2 (λ v b. record b { customer_udp = record (b.customer_udp) { dst_port = u16 v } })
  bytes 2 (λ v b. record b { customer_udp = record (b.customer_udp) { length = u16 v } })
  bytes 2 (λ v b. record b { customer_udp = record (b.customer_udp) { checksum = u16 v } })
  accept

-- `case PK_S_PARSE_CUSTOMER_TCP`
unfoldable pub case_parse_customer_tcp : M Body State
case_parse_customer_tcp = do
  store (λ b. record b { customer_tcp_present = 1 })
  bytes 2 (λ v b. record b { customer_tcp = record (b.customer_tcp) { src_port = u16 v } })
  bytes 2 (λ v b. record b { customer_tcp = record (b.customer_tcp) { dst_port = u16 v } })
  bytes 4 (λ v b. record b { customer_tcp = record (b.customer_tcp) { seq_no = u32 v } })
  bytes 4 (λ v b. record b { customer_tcp = record (b.customer_tcp) { ack_no = u32 v } })
  bits 4 (λ v b. record b { customer_tcp = record (b.customer_tcp) { data_offset = u8 v } })
  bits 3 (λ v b. record b { customer_tcp = record (b.customer_tcp) { res = u8 v } })
  bits 3 (λ v b. record b { customer_tcp = record (b.customer_tcp) { ecn = u8 v } })
  bits 6 (λ v b. record b { customer_tcp = record (b.customer_tcp) { flags = u8 v } })
  bytes 2 (λ v b. record b { customer_tcp = record (b.customer_tcp) { window = u16 v } })
  bytes 2 (λ v b. record b { customer_tcp = record (b.customer_tcp) { checksum = u16 v } })
  bytes 2 (λ v b. record b { customer_tcp = record (b.customer_tcp) { urgent_ptr = u16 v } })
  accept
