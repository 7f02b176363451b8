-- ===== src/FlowDissector/Cases/Tunnel.antt =====
-- The rules of `Safety` at the cases of linux_flow_dissector in FlowDissector/Tunnel.antt.
use pakeles.Base.{refl, arith, ◌==◌}
use pakeles.Safety.{
  Triple, Triple-pure, Triple-accept, Triple-reject, Triple-if, Triple-store, Triple-fetch, ◌⨾◌,
  ◌▸◌, Triple-bytes, Triple-bits, Triple-run_of,
}
use pakeles.FlowDissector.Types.{
  parse_ethernet, parse_ipv4, parse_ipv6, parse_gre_opt, unsupported_gre_proto, reason_str,
}
use pakeles.FlowDissector.Tunnel.{
  case_parse_ipip, case_parse_ip6ip, case_parse_gre, case_parse_gre_opt,
}
use pakeles.FlowDissector.Cases.Depths.{named, depth_of, names}

pub case_parse_ipip-Triple : Triple 0 named 0 case_parse_ipip depth_of
unfolding case_parse_ipip
case_parse_ipip-Triple = Triple-store _ ▸ Triple-pure parse_ipv4 refl

pub case_parse_ip6ip-Triple : Triple 0 named 0 case_parse_ip6ip depth_of
unfolding case_parse_ip6ip
case_parse_ip6ip-Triple = Triple-store _ ▸ Triple-pure parse_ipv6 refl

pub case_parse_gre-Triple : Triple 0 named 0 case_parse_gre depth_of
unfolding case_parse_gre
case_parse_gre-Triple =
    Triple-store _
    ▸ Triple-bits _ _ (omega arith)
    ▸ Triple-bits _ _ (omega arith)
    ▸ Triple-bits _ _ (omega arith)
    ▸ Triple-bits _ _ (omega arith)
    ▸ Triple-bits _ _ (omega arith)
    ▸ Triple-bits _ _ (omega arith)
    ▸ Triple-bytes _ _ (omega arith)
    ▸ Triple-fetch _
    ⨾ λ key0. Triple-if (key0 == 0) (Triple-pure parse_gre_opt refl) Triple-accept

pub case_parse_gre_opt-Triple : Triple 0 named 0 case_parse_gre_opt depth_of
unfolding case_parse_gre_opt reason_str
case_parse_gre_opt-Triple = Triple-store _ ▸ Triple-fetch _ ⨾ λ vlen.
    Triple-run_of vlen _ ▸ Triple-store _ ▸ Triple-fetch _ ⨾ λ key0.
    Triple-if (key0 == 2048) (Triple-pure parse_ipv4 refl) (
      Triple-if (key0 == 34525) (Triple-pure parse_ipv6 refl) (
        Triple-if (key0 == 25944) (Triple-pure parse_ethernet refl)
          (Triple-reject unsupported_gre_proto refl)))
