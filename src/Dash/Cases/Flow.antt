-- ===== src/Dash/Cases/Flow.antt =====
-- The rules of `Safety` at the cases of dash_parser in Dash/Flow.antt.
use pakeles.Base.{refl, arith, ◌==◌, bit_and}
use pakeles.Safety.{
  Triple, Triple-pure, Triple-accept, Triple-if, Triple-store, Triple-fetch, ◌⨾◌, ◌▸◌, Triple-bytes,
  Triple-bits, Triple-run_of,
}
use pakeles.Dash.Types.{
  parse_dash_hdr, parse_flow_key, parse_flow_data, parse_flow_overlay_data, parse_flow_encap_u0,
  parse_flow_encap_u1, parse_flow_encap_u0_u1, parse_u0_ipv4, parse_u0_ipv6,
  parse_customer_ethernet,
}
use pakeles.Dash.Flow.{
  case_parse_u0_ethernet, case_parse_dash_hdr, case_parse_flow_key, case_parse_flow_data,
  case_parse_flow_overlay_data,
}
use pakeles.Dash.Cases.Depths.{named, depth_of, names}

pub case_parse_u0_ethernet-Triple : Triple 0 named 0 case_parse_u0_ethernet depth_of
unfolding case_parse_u0_ethernet
case_parse_u0_ethernet-Triple =
    Triple-store _
    ▸ Triple-bytes _ _ (omega arith)
    ▸ Triple-bytes _ _ (omega arith)
    ▸ Triple-bytes _ _ (omega arith)
    ▸ Triple-fetch _
    ⨾ λ key0. Triple-if (key0 == 2048) (Triple-pure parse_u0_ipv4 refl) (
        Triple-if (key0 == 34525) (Triple-pure parse_u0_ipv6 refl)
          (Triple-if (key0 == 34669) (Triple-pure parse_dash_hdr refl) Triple-accept))

pub case_parse_dash_hdr-Triple : Triple 0 named 0 case_parse_dash_hdr depth_of
unfolding case_parse_dash_hdr
case_parse_dash_hdr-Triple =
    Triple-store _
    ▸ Triple-bytes _ _ (omega arith)
    ▸ Triple-bits _ _ (omega arith)
    ▸ Triple-bits _ _ (omega arith)
    ▸ Triple-bytes _ _ (omega arith)
    ▸ Triple-fetch _
    ⨾ λ key0. Triple-if (key0 == 1) (Triple-pure parse_flow_key refl) (
        Triple-if (key0 == 2) (Triple-pure parse_flow_key refl) (
          Triple-if (key0 == 3) (Triple-pure parse_flow_key refl)
            (Triple-pure parse_customer_ethernet refl)))

pub case_parse_flow_key-Triple : Triple 0 named 0 case_parse_flow_key depth_of
unfolding case_parse_flow_key
case_parse_flow_key-Triple =
    Triple-store _
    ▸ Triple-bytes _ _ (omega arith)
    ▸ Triple-bytes _ _ (omega arith)
    ▸ Triple-fetch _
    ⨾ λ vlen. Triple-run_of vlen _ ▸ Triple-fetch _ ⨾ λ vlen.
        Triple-run_of vlen _
        ▸ Triple-bytes _ _ (omega arith)
        ▸ Triple-bytes _ _ (omega arith)
        ▸ Triple-bytes _ _ (omega arith)
        ▸ Triple-bits _ _ (omega arith)
        ▸ Triple-bits _ _ (omega arith)
        ▸ Triple-fetch _
        ⨾ λ key0.
            Triple-if (key0 == 3) (Triple-pure parse_flow_data refl)
              (Triple-pure parse_customer_ethernet refl)

pub case_parse_flow_data-Triple : Triple 0 named 0 case_parse_flow_data depth_of
unfolding case_parse_flow_data
case_parse_flow_data-Triple =
    Triple-store _
    ▸ Triple-bits _ _ (omega arith)
    ▸ Triple-bits _ _ (omega arith)
    ▸ Triple-bytes _ _ (omega arith)
    ▸ Triple-bytes _ _ (omega arith)
    ▸ Triple-bytes _ _ (omega arith)
    ▸ Triple-bytes _ _ (omega arith)
    ▸ Triple-bytes _ _ (omega arith)
    ▸ Triple-fetch _
    ⨾ λ key0. Triple-if (key0 == 0) (Triple-pure parse_customer_ethernet refl) (
        Triple-if (bit_and key0 3 == 3) (Triple-pure parse_flow_encap_u0_u1 refl) (
          Triple-if (bit_and key0 3 == 1) (Triple-pure parse_flow_encap_u0 refl) (
            Triple-if (bit_and key0 3 == 2) (Triple-pure parse_flow_encap_u1 refl)
              (Triple-pure parse_flow_overlay_data refl))))

pub case_parse_flow_overlay_data-Triple : Triple 0 named 0 case_parse_flow_overlay_data depth_of
unfolding case_parse_flow_overlay_data
case_parse_flow_overlay_data-Triple =
    Triple-store _ ▸ Triple-bytes _ _ (omega arith) ▸ Triple-fetch _ ⨾ λ vlen.
    Triple-run_of vlen _ ▸ Triple-fetch _ ⨾ λ vlen. Triple-run_of vlen _ ▸ Triple-fetch _ ⨾ λ vlen.
    Triple-run_of vlen _ ▸ Triple-fetch _ ⨾ λ vlen.
    Triple-run_of vlen _
    ▸ Triple-bytes _ _ (omega arith)
    ▸ Triple-bytes _ _ (omega arith)
    ▸ Triple-bits _ _ (omega arith)
    ▸ Triple-bits _ _ (omega arith)
    ▸ Triple-pure parse_customer_ethernet refl
