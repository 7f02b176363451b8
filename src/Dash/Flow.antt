-- ===== src/Dash/Flow.antt =====
-- The packet_in header and the flow entry that it may carry.
-- Cases of the `switch` in benchmarks/industry/dash_parser/gen/parser.c.
use pakeles.Base.{◌==◌, if◌then◌else◌, bit_and, u8, u16, u32, u64, mul64}
use pakeles.Core.{M, ◌>>=◌, ◌>>◌, pure, fetch, store, accept, bytes, bits, run_of}
use pakeles.Dash.Types.{
  Body, State, parse_dash_hdr, parse_flow_key, parse_flow_data, parse_flow_overlay_data,
  parse_flow_encap_u0, parse_flow_encap_u1, parse_flow_encap_u0_u1, parse_u0_ipv4, parse_u0_ipv6,
  parse_customer_ethernet,
}

-- `case PK_S_PARSE_U0_ETHERNET`
unfoldable pub case_parse_u0_ethernet : M Body State
case_parse_u0_ethernet = do
  store (λ b. record b { u0_ethernet_present = 1 })
  bytes 6 (λ v b. record b { u0_ethernet = record (b.u0_ethernet) { dst_addr = u64 v } })
  bytes 6 (λ v b. record b { u0_ethernet = record (b.u0_ethernet) { src_addr = u64 v } })
  bytes 2 (λ v b. record b { u0_ethernet = record (b.u0_ethernet) { ether_type = u16 v } })
  key0 ← fetch (λ b. b.u0_ethernet.ether_type)
  if key0 == 2048
      then pure parse_u0_ipv4
      else if key0 == 34525
      then pure parse_u0_ipv6
      else if key0 == 34669
      then pure parse_dash_hdr
      else accept

-- `case PK_S_PARSE_DASH_HDR`
unfoldable pub case_parse_dash_hdr : M Body State
case_parse_dash_hdr = do
  store (λ b. record b { packet_meta_present = 1 })
  bytes 1 (λ v b. record b { packet_meta = record (b.packet_meta) { packet_source = u8 v } })
  bits 4 (λ v b. record b { packet_meta = record (b.packet_meta) { packet_type = u8 v } })
  bits 4 (λ v b. record b { packet_meta = record (b.packet_meta) { packet_subtype = u8 v } })
  bytes 2 (λ v b. record b { packet_meta = record (b.packet_meta) { length = u16 v } })
  key0 ← fetch (λ b. b.packet_meta.packet_subtype)
  if key0 == 1
      then pure parse_flow_key
      else if key0 == 2
      then pure parse_flow_key
      else if key0 == 3
      then pure parse_flow_key
      else pure parse_customer_ethernet

-- `case PK_S_PARSE_FLOW_KEY`
unfoldable pub case_parse_flow_key : M Body State
case_parse_flow_key = do
  store (λ b. record b { flow_key_present = 1 })
  bytes 6 (λ v b. record b { flow_key = record (b.flow_key) { eni_mac = u64 v } })
  bytes 2 (λ v b. record b { flow_key = record (b.flow_key) { vnet_id = u16 v } })
  vlen ← fetch (λ b. mul64 16 8)
  run_of vlen (λ off len b. record b {
    flow_key = record (b.flow_key) { src_ip_bit_off = off; src_ip_bit_len = len };
  })
  vlen ← fetch (λ b. mul64 16 8)
  run_of vlen (λ off len b. record b {
    flow_key = record (b.flow_key) { dst_ip_bit_off = off; dst_ip_bit_len = len };
  })
  bytes 2 (λ v b. record b { flow_key = record (b.flow_key) { src_port = u16 v } })
  bytes 2 (λ v b. record b { flow_key = record (b.flow_key) { dst_port = u16 v } })
  bytes 1 (λ v b. record b { flow_key = record (b.flow_key) { ip_proto = u8 v } })
  bits 7 (λ v b. record b { flow_key = record (b.flow_key) { reserved = u8 v } })
  bits 1 (λ v b. record b { flow_key = record (b.flow_key) { is_ip_v6 = u8 v } })
  key0 ← fetch (λ b. b.packet_meta.packet_subtype)
  if key0 == 3 then pure parse_flow_data else pure parse_customer_ethernet

-- `case PK_S_PARSE_FLOW_DATA`
unfoldable pub case_parse_flow_data : M Body State
case_parse_flow_data = do
  store (λ b. record b { flow_data_present = 1 })
  bits 7 (λ v b. record b { flow_data = record (b.flow_data) { reserved = u8 v } })
  bits 1 (λ v b. record b { flow_data = record (b.flow_data) { is_unidirectional = u8 v } })
  bytes 2 (λ v b. record b { flow_data = record (b.flow_data) { direction = u16 v } })
  bytes 4 (λ v b. record b { flow_data = record (b.flow_data) { version = u32 v } })
  bytes 4 (λ v b. record b { flow_data = record (b.flow_data) { actions = u32 v } })
  bytes 4 (λ v b. record b { flow_data = record (b.flow_data) { meter_class = u32 v } })
  bytes 4 (λ v b. record b { flow_data = record (b.flow_data) { idle_timeout_in_ms = u32 v } })
  key0 ← fetch (λ b. b.flow_data.actions)
  if key0 == 0
      then pure parse_customer_ethernet
      else if bit_and key0 3 == 3
      then pure parse_flow_encap_u0_u1
      else if bit_and key0 3 == 1
      then pure parse_flow_encap_u0
      else if bit_and key0 3 == 2
      then pure parse_flow_encap_u1
      else pure parse_flow_overlay_data

-- `case PK_S_PARSE_FLOW_OVERLAY_DATA`
unfoldable pub case_parse_flow_overlay_data : M Body State
case_parse_flow_overlay_data = do
  store (λ b. record b { flow_overlay_data_present = 1 })
  bytes 6 (λ v b. record b { flow_overlay_data = record (b.flow_overlay_data) { dmac = u64 v } })
  vlen ← fetch (λ b. mul64 16 8)
  run_of vlen (λ off len b. record b {
    flow_overlay_data = record (b.flow_overlay_data) { sip_bit_off = off; sip_bit_len = len };
  })
  vlen ← fetch (λ b. mul64 16 8)
  run_of vlen (λ off len b. record b {
    flow_overlay_data = record (b.flow_overlay_data) { dip_bit_off = off; dip_bit_len = len };
  })
  vlen ← fetch (λ b. mul64 16 8)
  run_of vlen (λ off len b. record b {
    flow_overlay_data = record (b.flow_overlay_data) {
      sip_mask_bit_off = off;
      sip_mask_bit_len = len;
    };
  })
  vlen ← fetch (λ b. mul64 16 8)
  run_of vlen (λ off len b. record b {
    flow_overlay_data = record (b.flow_overlay_data) {
      dip_mask_bit_off = off;
      dip_mask_bit_len = len;
    };
  })
  bytes 2 (λ v b. record b { flow_overlay_data = record (b.flow_overlay_data) { sport = u16 v } })
  bytes 2 (λ v b. record b { flow_overlay_data = record (b.flow_overlay_data) { dport = u16 v } })
  bits 7 (λ v b. record b { flow_overlay_data = record (b.flow_overlay_data) { reserved = u8 v } })
  bits 1 (λ v b. record b { flow_overlay_data = record (b.flow_overlay_data) { is_ipv6 = u8 v } })
  pure parse_customer_ethernet
