-- ===== src/Dash/Cases/Underlay.antt =====
-- The rules of `Safety` at the cases of dash_parser in Dash/Underlay.antt.
use pakeles.Base.{refl, arith, ◌==◌, leb}
use pakeles.Safety.{
  Triple, Triple-pure, Triple-accept, Triple-reject, Triple-if, Triple-store, Triple-fetch, ◌⨾◌,
  ◌▸◌, Triple-bytes, Triple-bits, Triple-run_of,
}
use pakeles.Dash.Types.{
  parse_u0_ipv4_ihl, parse_u0_ipv4options, dispatch_on_u0_protocol, parse_u0_udp, parse_u0_tcp,
  parse_u0_vxlan, parse_customer_ethernet, ipv4incorrectversion, invalidipv4header, reason_str,
}
use pakeles.Dash.Underlay.{
  case_parse_u0_ipv4, case_parse_u0_ipv4_ihl, case_parse_u0_ipv4options,
  case_dispatch_on_u0_protocol, case_parse_u0_ipv6, case_parse_u0_udp, case_parse_u0_tcp,
  case_parse_u0_vxlan,
}
use pakeles.Dash.Cases.Depths.{named, depth_of, names}

pub case_parse_u0_ipv4-Triple : Triple 0 named 0 case_parse_u0_ipv4 depth_of
unfolding case_parse_u0_ipv4 reason_str
case_parse_u0_ipv4-Triple =
    Triple-store _
    ▸ Triple-bits _ _ (omega arith)
    ▸ Triple-bits _ _ (omega arith)
    ▸ Triple-bytes _ _ (omega arith)
    ▸ Triple-bytes _ _ (omega arith)
    ▸ Triple-bytes _ _ (omega arith)
    ▸ Triple-bits _ _ (omega arith)
    ▸ Triple-bits _ _ (omega arith)
    ▸ Triple-bytes _ _ (omega arith)
    ▸ Triple-bytes _ _ (omega arith)
    ▸ Triple-bytes _ _ (omega arith)
    ▸ Triple-bytes _ _ (omega arith)
    ▸ Triple-bytes _ _ (omega arith)
    ▸ Triple-fetch _
    ⨾ λ key0.
        Triple-if (key0 == 4) (Triple-pure parse_u0_ipv4_ihl refl)
          (Triple-reject ipv4incorrectversion refl)

pub case_parse_u0_ipv4_ihl-Triple : Triple 0 named 0 case_parse_u0_ipv4_ihl depth_of
unfolding case_parse_u0_ipv4_ihl reason_str
case_parse_u0_ipv4_ihl-Triple = Triple-fetch _ ⨾ λ key0.
    Triple-if (leb key0 4) (Triple-reject invalidipv4header refl) (
      Triple-if (key0 == 5) (Triple-pure dispatch_on_u0_protocol refl)
        (Triple-pure parse_u0_ipv4options refl))

pub case_parse_u0_ipv4options-Triple : Triple 0 named 0 case_parse_u0_ipv4options depth_of
unfolding case_parse_u0_ipv4options
case_parse_u0_ipv4options-Triple = Triple-store _ ▸ Triple-fetch _ ⨾ λ vlen.
    Triple-run_of vlen _ ▸ Triple-pure dispatch_on_u0_protocol refl

pub case_dispatch_on_u0_protocol-Triple : Triple 0 named 0 case_dispatch_on_u0_protocol depth_of
unfolding case_dispatch_on_u0_protocol
case_dispatch_on_u0_protocol-Triple = Triple-fetch _ ⨾ λ key0.
    Triple-if (key0 == 17) (Triple-pure parse_u0_udp refl)
      (Triple-if (key0 == 6) (Triple-pure parse_u0_tcp refl) Triple-accept)

pub case_parse_u0_ipv6-Triple : Triple 0 named 0 case_parse_u0_ipv6 depth_of
unfolding case_parse_u0_ipv6
case_parse_u0_ipv6-Triple =
    Triple-store _
    ▸ Triple-bits _ _ (omega arith)
    ▸ Triple-bits _ _ (omega arith)
    ▸ Triple-bits _ _ (omega arith)
    ▸ Triple-bytes _ _ (omega arith)
    ▸ Triple-bytes _ _ (omega arith)
    ▸ Triple-bytes _ _ (omega arith)
    ▸ Triple-bytes _ _ (omega arith)
    ▸ Triple-bytes _ _ (omega arith)
    ▸ Triple-bytes _ _ (omega arith)
    ▸ Triple-bytes _ _ (omega arith)
    ▸ Triple-fetch _
    ⨾ λ key0.
        Triple-if (key0 == 17) (Triple-pure parse_u0_udp refl)
          (Triple-if (key0 == 6) (Triple-pure parse_u0_tcp refl) Triple-accept)

pub case_parse_u0_udp-Triple : Triple 0 named 0 case_parse_u0_udp depth_of
unfolding case_parse_u0_udp
case_parse_u0_udp-Triple =
    Triple-store _
    ▸ Triple-bytes _ _ (omega arith)
    ▸ Triple-bytes _ _ (omega arith)
    ▸ Triple-bytes _ _ (omega arith)
    ▸ Triple-bytes _ _ (omega arith)
    ▸ Triple-fetch _
    ⨾ λ key0. Triple-if (key0 == 4789) (Triple-pure parse_u0_vxlan refl) Triple-accept

pub case_parse_u0_tcp-Triple : Triple 0 named 0 case_parse_u0_tcp depth_of
unfolding case_parse_u0_tcp
case_parse_u0_tcp-Triple =
    Triple-store _
    ▸ Triple-bytes _ _ (omega arith)
    ▸ Triple-bytes _ _ (omega arith)
    ▸ Triple-bytes _ _ (omega arith)
    ▸ Triple-bytes _ _ (omega arith)
    ▸ Triple-bits _ _ (omega arith)
    ▸ Triple-bits _ _ (omega arith)
    ▸ Triple-bits _ _ (omega arith)
    ▸ Triple-bits _ _ (omega arith)
    ▸ Triple-bytes _ _ (omega arith)
    ▸ Triple-bytes _ _ (omega arith)
    ▸ Triple-bytes _ _ (omega arith)
    ▸ Triple-accept

pub case_parse_u0_vxlan-Triple : Triple 0 named 0 case_parse_u0_vxlan depth_of
unfolding case_parse_u0_vxlan
case_parse_u0_vxlan-Triple =
    Triple-store _
    ▸ Triple-bytes _ _ (omega arith)
    ▸ Triple-bytes _ _ (omega arith)
    ▸ Triple-bytes _ _ (omega arith)
    ▸ Triple-bytes _ _ (omega arith)
    ▸ Triple-pure parse_customer_ethernet refl
