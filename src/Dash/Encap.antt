-- ===== src/Dash/Encap.antt =====
-- The encapsulations of a flow entry.
-- Cases of the `switch` in benchmarks/industry/dash_parser/gen/parser.c.
use pakeles.Base.{u8, u16, u32, u64, mul64}
use pakeles.Core.{M, ◌>>=◌, ◌>>◌, pure, fetch, store, bytes, bits, run_of}
use pakeles.Dash.Types.{Body, State, parse_customer_ethernet}

-- `case PK_S_PARSE_FLOW_ENCAP_U0`
unfoldable pub case_parse_flow_encap_u0 : M Body State
case_parse_flow_encap_u0 = do
  store (λ b. record b { flow_overlay_data_present = 1 })
  bytes 6 (λ v b. record b { flow_overlay_data = record (b.flow_overlay_data) { dmac = u64 v } })
  vlen ← fetch (λ b. mul64 16 8)
  run_of vlen (λ off len b. record b {
    flow_overlay_data = record (b.flow_overlay_data) { sip_bit_off = off; sip_bit_len = len };
  })
  vlen ← fetch (λ b. mul64 16 8)
  run_of vlen (λ off len b. record b {
    flow_overlay_data = record (b.flow_overlay_data) { dip_bit_off = off; dip_bit_len = len };
  })
  vlen ← fetch (λ b. mul64 16 8)
  run_of vlen (λ off len b. record b {
    flow_overlay_data = record (b.flow_overlay_data) {
      sip_mask_bit_off = off;
      sip_mask_bit_len = len;
    };
  })
  vlen ← fetch (λ b. mul64 16 8)
  run_of vlen (λ off len b. record b {
    flow_overlay_data = record (b.flow_overlay_data) {
      dip_mask_bit_off = off;
      dip_mask_bit_len = len;
    };
  })
  bytes 2 (λ v b. record b { flow_overlay_data = record (b.flow_overlay_data) { sport = u16 v } })
  bytes 2 (λ v b. record b { flow_overlay_data = record (b.flow_overlay_data) { dport = u16 v } })
  bits 7 (λ v b. record b { flow_overlay_data = record (b.flow_overlay_data) { reserved = u8 v } })
  bits 1 (λ v b. record b { flow_overlay_data = record (b.flow_overlay_data) { is_ipv6 = u8 v } })
  store (λ b. record b { flow_u0_encap_data_present = 1 })
  bytes 3 (λ v b. record b { flow_u0_encap_data = record (b.flow_u0_encap_data) { vni = u32 v } })
  bytes 1
      (λ v b. record b { flow_u0_encap_data = record (b.flow_u0_encap_data) { reserved = u8 v } })
  bytes 4 (λ v b. record b {
    flow_u0_encap_data = record (b.flow_u0_encap_data) { underlay_sip = u32 v };
  })
  bytes 4 (λ v b. record b {
    flow_u0_encap_data = record (b.flow_u0_encap_data) { underlay_dip = u32 v };
  })
  bytes 6 (λ v b. record b {
    flow_u0_encap_data = record (b.flow_u0_encap_data) { underlay_smac = u64 v };
  })
  bytes 6 (λ v b. record b {
    flow_u0_encap_data = record (b.flow_u0_encap_data) { underlay_dmac = u64 v };
  })
  bytes 2 (λ v b. record b {
    flow_u0_encap_data = record (b.flow_u0_encap_data) { dash_encapsulation = u16 v };
  })
  pure parse_customer_ethernet

-- `case PK_S_PARSE_FLOW_ENCAP_U1`
unfoldable pub case_parse_flow_encap_u1 : M Body State
case_parse_flow_encap_u1 = do
  store (λ b. record b { flow_overlay_data_present = 1 })
  bytes 6 (λ v b. record b { flow_overlay_data = record (b.flow_overlay_data) { dmac = u64 v } })
  vlen ← fetch (λ b. mul64 16 8)
  run_of vlen (λ off len b. record b {
    flow_overlay_data = record (b.flow_overlay_data) { sip_bit_off = off; sip_bit_len = len };
  })
  vlen ← fetch (λ b. mul64 16 8)
  run_of vlen (λ off len b. record b {
    flow_overlay_data = record (b.flow_overlay_data) { dip_bit_off = off; dip_bit_len = len };
  })
  vlen ← fetch (λ b. mul64 16 8)
  run_of vlen (λ off len b. record b {
    flow_overlay_data = record (b.flow_overlay_data) {
      sip_mask_bit_off = off;
      sip_mask_bit_len = len;
    };
  })
  vlen ← fetch (λ b. mul64 16 8)
  run_of vlen (λ off len b. record b {
    flow_overlay_data = record (b.flow_overlay_data) {
      dip_mask_bit_off = off;
      dip_mask_bit_len = len;
    };
  })
  bytes 2 (λ v b. record b { flow_overlay_data = record (b.flow_overlay_data) { sport = u16 v } })
  bytes 2 (λ v b. record b { flow_overlay_data = record (b.flow_overlay_data) { dport = u16 v } })
  bits 7 (λ v b. record b { flow_overlay_data = record (b.flow_overlay_data) { reserved = u8 v } })
  bits 1 (λ v b. record b { flow_overlay_data = record (b.flow_overlay_data) { is_ipv6 = u8 v } })
  store (λ b. record b { flow_u1_encap_data_present = 1 })
  bytes 3 (λ v b. record b { flow_u1_encap_data = record (b.flow_u1_encap_data) { vni = u32 v } })
  bytes 1
      (λ v b. record b { flow_u1_encap_data = record (b.flow_u1_encap_data) { reserved = u8 v } })
  bytes 4 (λ v b. record b {
    flow_u1_encap_data = record (b.flow_u1_encap_data) { underlay_sip = u32 v };
  })
  bytes 4 (λ v b. record b {
    flow_u1_encap_data = record (b.flow_u1_encap_data) { underlay_dip = u32 v };
  })
  bytes 6 (λ v b. record b {
    flow_u1_encap_data = record (b.flow_u1_encap_data) { underlay_smac = u64 v };
  })
  bytes 6 (λ v b. record b {
    flow_u1_encap_data = record (b.flow_u1_encap_data) { underlay_dmac = u64 v };
  })
  bytes 2 (λ v b. record b {
    flow_u1_encap_data = record (b.flow_u1_encap_data) { dash_encapsulation = u16 v };
  })
  pure parse_customer_ethernet

-- `case PK_S_PARSE_FLOW_ENCAP_U0_U1`
unfoldable pub case_parse_flow_encap_u0_u1 : M Body State
case_parse_flow_encap_u0_u1 = do
  store (λ b. record b { flow_overlay_data_present = 1 })
  bytes 6 (λ v b. record b { flow_overlay_data = record (b.flow_overlay_data) { dmac = u64 v } })
  vlen ← fetch (λ b. mul64 16 8)
  run_of vlen (λ off len b. record b {
    flow_overlay_data = record (b.flow_overlay_data) { sip_bit_off = off; sip_bit_len = len };
  })
  vlen ← fetch (λ b. mul64 16 8)
  run_of vlen (λ off len b. record b {
    flow_overlay_data = record (b.flow_overlay_data) { dip_bit_off = off; dip_bit_len = len };
  })
  vlen ← fetch (λ b. mul64 16 8)
  run_of vlen (λ off len b. record b {
    flow_overlay_data = record (b.flow_overlay_data) {
      sip_mask_bit_off = off;
      sip_mask_bit_len = len;
    };
  })
  vlen ← fetch (λ b. mul64 16 8)
  run_of vlen (λ off len b. record b {
    flow_overlay_data = record (b.flow_overlay_data) {
      dip_mask_bit_off = off;
      dip_mask_bit_len = len;
    };
  })
  bytes 2 (λ v b. record b { flow_overlay_data = record (b.flow_overlay_data) { sport = u16 v } })
  bytes 2 (λ v b. record b { flow_overlay_data = record (b.flow_overlay_data) { dport = u16 v } })
  bits 7 (λ v b. record b { flow_overlay_data = record (b.flow_overlay_data) { reserved = u8 v } })
  bits 1 (λ v b. record b { flow_overlay_data = record (b.flow_overlay_data) { is_ipv6 = u8 v } })
  store (λ b. record b { flow_u0_encap_data_present = 1 })
  bytes 3 (λ v b. record b { flow_u0_encap_data = record (b.flow_u0_encap_data) { vni = u32 v } })
  bytes 1
      (λ v b. record b { flow_u0_encap_data = record (b.flow_u0_encap_data) { reserved = u8 v } })
  bytes 4 (λ v b. record b {
    flow_u0_encap_data = record (b.flow_u0_encap_data) { underlay_sip = u32 v };
  })
  bytes 4 (λ v b. record b {
    flow_u0_encap_data = record (b.flow_u0_encap_data) { underlay_dip = u32 v };
  })
  bytes 6 (λ v b. record b {
    flow_u0_encap_data = record (b.flow_u0_encap_data) { underlay_smac = u64 v };
  })
  bytes 6 (λ v b. record b {
    flow_u0_encap_data = record (b.flow_u0_encap_data) { underlay_dmac = u64 v };
  })
  bytes 2 (λ v b. record b {
    flow_u0_encap_data = record (b.flow_u0_encap_data) { dash_encapsulation = u16 v };
  })
  store (λ b. record b { flow_u1_encap_data_present = 1 })
  bytes 3 (λ v b. record b { flow_u1_encap_data = record (b.flow_u1_encap_data) { vni = u32 v } })
  bytes 1
      (λ v b. record b { flow_u1_encap_data = record (b.flow_u1_encap_data) { reserved = u8 v } })
  bytes 4 (λ v b. record b {
    flow_u1_encap_data = record (b.flow_u1_encap_data) { underlay_sip = u32 v };
  })
  bytes 4 (λ v b. record b {
    flow_u1_encap_data = record (b.flow_u1_encap_data) { underlay_dip = u32 v };
  })
  bytes 6 (λ v b. record b {
    flow_u1_encap_data = record (b.flow_u1_encap_data) { underlay_smac = u64 v };
  })
  bytes 6 (λ v b. record b {
    flow_u1_encap_data = record (b.flow_u1_encap_data) { underlay_dmac = u64 v };
  })
  bytes 2 (λ v b. record b {
    flow_u1_encap_data = record (b.flow_u1_encap_data) { dash_encapsulation = u16 v };
  })
  pure parse_customer_ethernet
