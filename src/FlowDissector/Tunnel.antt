-- ===== src/FlowDissector/Tunnel.antt =====
-- IP in IP and GRE.
-- Cases of the `switch` in benchmarks/industry/linux_flow_dissector/gen/parser.c.
use pakeles.Base.{◌==◌, if◌then◌else◌, bit_and, u8, u16, add64, mul64}
use pakeles.Core.{M, ◌>>=◌, ◌>>◌, pure, fetch, store, reject, accept, bytes, bits, run_of}
use pakeles.FlowDissector.Types.{
  Body, State, parse_ethernet, parse_ipv4, parse_ipv6, parse_gre_opt, unsupported_gre_proto,
}

-- `case PK_S_PARSE_IPIP`
unfoldable pub case_parse_ipip : M Body State
case_parse_ipip = do store (λ b. record b { m_is_encap = bit_and 1 0x1 }); pure parse_ipv4

-- `case PK_S_PARSE_IP6IP`
unfoldable pub case_parse_ip6ip : M Body State
case_parse_ip6ip = do store (λ b. record b { m_is_encap = bit_and 1 0x1 }); pure parse_ipv6

-- `case PK_S_PARSE_GRE`
unfoldable pub case_parse_gre : M Body State
case_parse_gre = do
  store (λ b. record b { gre_present = 1 })
  bits 1 (λ v b. record b { gre = record (b.gre) { c = u8 v } })
  bits 1 (λ v b. record b { gre = record (b.gre) { routing = u8 v } })
  bits 1 (λ v b. record b { gre = record (b.gre) { key_flag = u8 v } })
  bits 1 (λ v b. record b { gre = record (b.gre) { seq_flag = u8 v } })
  bits 9 (λ v b. record b { gre = record (b.gre) { reserved = u16 v } })
  bits 3 (λ v b. record b { gre = record (b.gre) { version = u8 v } })
  bytes 2 (λ v b. record b { gre = record (b.gre) { proto = u16 v } })
  key0 ← fetch (λ b. b.gre.version)
  if key0 == 0 then pure parse_gre_opt else accept

-- `case PK_S_PARSE_GRE_OPT`
unfoldable pub case_parse_gre_opt : M Body State
case_parse_gre_opt = do
  store (λ b. record b { gre_opt_present = 1 })
  vlen ← fetch (λ b.
      mul64 (add64 (add64 (mul64 b.gre.c 4) (mul64 b.gre.key_flag 4)) (mul64 b.gre.seq_flag 4)) 8)
  run_of vlen (λ off len b. record b {
    gre_opt = record (b.gre_opt) { body_bit_off = off; body_bit_len = len };
  })
  store (λ b. record b { m_is_encap = bit_and 1 0x1 })
  key0 ← fetch (λ b. b.gre.proto)
  if key0 == 2048
      then pure parse_ipv4
      else if key0 == 34525
      then pure parse_ipv6
      else if key0 == 25944
      then pure parse_ethernet
      else reject unsupported_gre_proto
