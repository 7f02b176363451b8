-- ===== src/FlowDissector/Transport.antt =====
-- TCP and UDP.
-- Cases of the `switch` in benchmarks/industry/linux_flow_dissector/gen/parser.c.
use pakeles.Base.{u8, u16, u32, sub64, mul64}
use pakeles.Core.{M, ◌>>=◌, ◌>>◌, fetch, store, accept, bytes, bits, run_of}
use pakeles.FlowDissector.Types.{Body, State}

-- `case PK_S_PARSE_TCP`
unfoldable pub case_parse_tcp : M Body State
case_parse_tcp = do
  store (λ b. record b { tcp_present = 1 })
  bytes 2 (λ v b. record b { tcp = record (b.tcp) { sport = u16 v } })
  bytes 2 (λ v b. record b { tcp = record (b.tcp) { dport = u16 v } })
  bytes 4 (λ v b. record b { tcp = record (b.tcp) { seq = u32 v } })
  bytes 4 (λ v b. record b { tcp = record (b.tcp) { ack = u32 v } })
  bits 4 (λ v b. record b { tcp = record (b.tcp) { data_offset = u8 v } })
  bits 4 (λ v b. record b { tcp = record (b.tcp) { reserved = u8 v } })
  bytes 1 (λ v b. record b { tcp = record (b.tcp) { flags = u8 v } })
  bytes 2 (λ v b. record b { tcp = record (b.tcp) { window = u16 v } })
  bytes 2 (λ v b. record b { tcp = record (b.tcp) { checksum = u16 v } })
  bytes 2 (λ v b. record b { tcp = record (b.tcp) { urgent = u16 v } })
  vlen ← fetch (λ b. mul64 (sub64 (mul64 b.tcp.data_offset 4) 20) 8)
  run_of vlen (λ off len b. record b {
    tcp = record (b.tcp) { options_bit_off = off; options_bit_len = len };
  })
  accept

-- `case PK_S_PARSE_UDP`
unfoldable pub case_parse_udp : M Body State
case_parse_udp = do
  store (λ b. record b { udp_present = 1 })
  bytes 2 (λ v b. record b { udp = record (b.udp) { sport = u16 v } })
  bytes 2 (λ v b. record b { udp = record (b.udp) { dport = u16 v } })
  bytes 2 (λ v b. record b { udp = record (b.udp) { length = u16 v } })
  bytes 2 (λ v b. record b { udp = record (b.udp) { checksum = u16 v } })
  accept
