-- ===== src/Dash/Cases/Encap.antt =====
-- The rules of `Safety` at the cases of dash_parser in Dash/Encap.antt.
use pakeles.Base.{refl, arith}
use pakeles.Safety.{
  Triple, Triple-pure, Triple-store, Triple-fetch, ◌⨾◌, ◌▸◌, Triple-bytes, Triple-bits,
  Triple-run_of,
}
use pakeles.Dash.Types.{parse_customer_ethernet}
use pakeles.Dash.Encap.{
  case_parse_flow_encap_u0, case_parse_flow_encap_u1, case_parse_flow_encap_u0_u1,
}
use pakeles.Dash.Cases.Depths.{named, depth_of, names}

pub case_parse_flow_encap_u0-Triple : Triple 0 named 0 case_parse_flow_encap_u0 depth_of
unfolding case_parse_flow_encap_u0
case_parse_flow_encap_u0-Triple =
    Triple-store _ ▸ Triple-bytes _ _ (omega arith) ▸ Triple-fetch _ ⨾ λ vlen.
    Triple-run_of vlen _ ▸ Triple-fetch _ ⨾ λ vlen. Triple-run_of vlen _ ▸ Triple-fetch _ ⨾ λ vlen.
    Triple-run_of vlen _ ▸ Triple-fetch _ ⨾ λ vlen.
    Triple-run_of vlen _
    ▸ Triple-bytes _ _ (omega arith)
    ▸ Triple-bytes _ _ (omega arith)
    ▸ Triple-bits _ _ (omega arith)
    ▸ Triple-bits _ _ (omega arith)
    ▸ Triple-store _
    ▸ Triple-bytes _ _ (omega arith)
    ▸ Triple-bytes _ _ (omega arith)
    ▸ Triple-bytes _ _ (omega arith)
    ▸ Triple-bytes _ _ (omega arith)
    ▸ Triple-bytes _ _ (omega arith)
    ▸ Triple-bytes _ _ (omega arith)
    ▸ Triple-bytes _ _ (omega arith)
    ▸ Triple-pure parse_customer_ethernet refl

pub case_parse_flow_encap_u1-Triple : Triple 0 named 0 case_parse_flow_encap_u1 depth_of
unfolding case_parse_flow_encap_u1
case_parse_flow_encap_u1-Triple =
    Triple-store _ ▸ Triple-bytes _ _ (omega arith) ▸ Triple-fetch _ ⨾ λ vlen.
    Triple-run_of vlen _ ▸ Triple-fetch _ ⨾ λ vlen. Triple-run_of vlen _ ▸ Triple-fetch _ ⨾ λ vlen.
    Triple-run_of vlen _ ▸ Triple-fetch _ ⨾ λ vlen.
    Triple-run_of vlen _
    ▸ Triple-bytes _ _ (omega arith)
    ▸ Triple-bytes _ _ (omega arith)
    ▸ Triple-bits _ _ (omega arith)
    ▸ Triple-bits _ _ (omega arith)
    ▸ Triple-store _
    ▸ Triple-bytes _ _ (omega arith)
    ▸ Triple-bytes _ _ (omega arith)
    ▸ Triple-bytes _ _ (omega arith)
    ▸ Triple-bytes _ _ (omega arith)
    ▸ Triple-bytes _ _ (omega arith)
    ▸ Triple-bytes _ _ (omega arith)
    ▸ Triple-bytes _ _ (omega arith)
    ▸ Triple-pure parse_customer_ethernet refl

pub case_parse_flow_encap_u0_u1-Triple : Triple 0 named 0 case_parse_flow_encap_u0_u1 depth_of
unfolding case_parse_flow_encap_u0_u1
case_parse_flow_encap_u0_u1-Triple =
    Triple-store _ ▸ Triple-bytes _ _ (omega arith) ▸ Triple-fetch _ ⨾ λ vlen.
    Triple-run_of vlen _ ▸ Triple-fetch _ ⨾ λ vlen. Triple-run_of vlen _ ▸ Triple-fetch _ ⨾ λ vlen.
    Triple-run_of vlen _ ▸ Triple-fetch _ ⨾ λ vlen.
    Triple-run_of vlen _
    ▸ Triple-bytes _ _ (omega arith)
    ▸ Triple-bytes _ _ (omega arith)
    ▸ Triple-bits _ _ (omega arith)
    ▸ Triple-bits _ _ (omega arith)
    ▸ Triple-store _
    ▸ Triple-bytes _ _ (omega arith)
    ▸ Triple-bytes _ _ (omega arith)
    ▸ Triple-bytes _ _ (omega arith)
    ▸ Triple-bytes _ _ (omega arith)
    ▸ Triple-bytes _ _ (omega arith)
    ▸ Triple-bytes _ _ (omega arith)
    ▸ Triple-bytes _ _ (omega arith)
    ▸ Triple-store _
    ▸ Triple-bytes _ _ (omega arith)
    ▸ Triple-bytes _ _ (omega arith)
    ▸ Triple-bytes _ _ (omega arith)
    ▸ Triple-bytes _ _ (omega arith)
    ▸ Triple-bytes _ _ (omega arith)
    ▸ Triple-bytes _ _ (omega arith)
    ▸ Triple-bytes _ _ (omega arith)
    ▸ Triple-pure parse_customer_ethernet refl
