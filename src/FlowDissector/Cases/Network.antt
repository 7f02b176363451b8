-- ===== src/FlowDissector/Cases/Network.antt =====
-- The rules of `Safety` at the cases of linux_flow_dissector in FlowDissector/Network.antt.
use pakeles.Base.{refl, arith, ◌==◌}
use pakeles.Safety.{
  Triple, Triple-pure, Triple-accept, Triple-reject, Triple-if, Triple-store, Triple-fetch, ◌⨾◌,
  ◌▸◌, Triple-bytes, Triple-bits, Triple-run_of,
}
use pakeles.FlowDissector.Types.{
  parse_ipv6_opt, parse_ipip, parse_ip6ip, parse_gre, parse_ipv6_frag, parse_tcp, parse_udp,
  unsupported_ip_protocol, reason_str,
}
use pakeles.FlowDissector.Network.{
  case_parse_ipv4, case_parse_ipv6, case_parse_ipv6_opt, case_parse_ipv6_frag,
}
use pakeles.FlowDissector.Cases.Depths.{named, depth_of, names}

pub case_parse_ipv4-Triple : Triple 0 named 0 case_parse_ipv4 depth_of
unfolding case_parse_ipv4 reason_str
case_parse_ipv4-Triple =
    Triple-store _
    ▸ Triple-bits _ _ (omega arith)
    ▸ Triple-bits _ _ (omega arith)
    ▸ Triple-bits _ _ (omega arith)
    ▸ Triple-bits _ _ (omega arith)
    ▸ Triple-bytes _ _ (omega arith)
    ▸ Triple-bytes _ _ (omega arith)
    ▸ Triple-bits _ _ (omega arith)
    ▸ Triple-bits _ _ (omega arith)
    ▸ Triple-bytes _ _ (omega arith)
    ▸ Triple-bytes _ _ (omega arith)
    ▸ Triple-bytes _ _ (omega arith)
    ▸ Triple-bytes _ _ (omega arith)
    ▸ Triple-bytes _ _ (omega arith)
    ▸ Triple-fetch _
    ⨾ λ vlen. Triple-run_of vlen _ ▸ Triple-fetch _ ⨾ λ key0.
        Triple-if (key0 == 4) (Triple-pure parse_ipip refl) (
          Triple-if (key0 == 6) (Triple-pure parse_tcp refl) (
            Triple-if (key0 == 17) (Triple-pure parse_udp refl) (
              Triple-if (key0 == 41) (Triple-pure parse_ip6ip refl) (
                Triple-if (key0 == 47) (Triple-pure parse_gre refl)
                  (Triple-reject unsupported_ip_protocol refl)))))

pub case_parse_ipv6-Triple : Triple 0 named 0 case_parse_ipv6 depth_of
unfolding case_parse_ipv6 reason_str
case_parse_ipv6-Triple =
    Triple-store _
    ▸ Triple-bits _ _ (omega arith)
    ▸ Triple-bits _ _ (omega arith)
    ▸ Triple-bits _ _ (omega arith)
    ▸ Triple-bytes _ _ (omega arith)
    ▸ Triple-bytes _ _ (omega arith)
    ▸ Triple-bytes _ _ (omega arith)
    ▸ Triple-fetch _
    ⨾ λ vlen. Triple-run_of vlen _ ▸ Triple-fetch _ ⨾ λ vlen.
        Triple-run_of vlen _ ▸ Triple-fetch _ ⨾ λ key0.
        Triple-if (key0 == 0) (Triple-pure parse_ipv6_opt refl) (
          Triple-if (key0 == 60) (Triple-pure parse_ipv6_opt refl) (
            Triple-if (key0 == 44) (Triple-pure parse_ipv6_frag refl) (
              Triple-if (key0 == 4) (Triple-pure parse_ipip refl) (
                Triple-if (key0 == 6) (Triple-pure parse_tcp refl) (
                  Triple-if (key0 == 17) (Triple-pure parse_udp refl) (
                    Triple-if (key0 == 41) (Triple-pure parse_ip6ip refl) (
                      Triple-if (key0 == 47) (Triple-pure parse_gre refl)
                        (Triple-reject unsupported_ip_protocol refl))))))))

pub case_parse_ipv6_opt-Triple : Triple 0 named 0 case_parse_ipv6_opt depth_of
unfolding case_parse_ipv6_opt reason_str
case_parse_ipv6_opt-Triple =
    Triple-store _
    ▸ Triple-bytes _ _ (omega arith)
    ▸ Triple-bytes _ _ (omega arith)
    ▸ Triple-fetch _
    ⨾ λ vlen. Triple-run_of vlen _ ▸ Triple-fetch _ ⨾ λ key0.
        Triple-if (key0 == 0) (Triple-pure parse_ipv6_opt refl) (
          Triple-if (key0 == 60) (Triple-pure parse_ipv6_opt refl) (
            Triple-if (key0 == 44) (Triple-pure parse_ipv6_frag refl) (
              Triple-if (key0 == 4) (Triple-pure parse_ipip refl) (
                Triple-if (key0 == 6) (Triple-pure parse_tcp refl) (
                  Triple-if (key0 == 17) (Triple-pure parse_udp refl) (
                    Triple-if (key0 == 41) (Triple-pure parse_ip6ip refl) (
                      Triple-if (key0 == 47) (Triple-pure parse_gre refl)
                        (Triple-reject unsupported_ip_protocol refl))))))))

pub case_parse_ipv6_frag-Triple : Triple 0 named 0 case_parse_ipv6_frag depth_of
unfolding case_parse_ipv6_frag
case_parse_ipv6_frag-Triple =
    Triple-store _
    ▸ Triple-bytes _ _ (omega arith)
    ▸ Triple-bytes _ _ (omega arith)
    ▸ Triple-bits _ _ (omega arith)
    ▸ Triple-bits _ _ (omega arith)
    ▸ Triple-bits _ _ (omega arith)
    ▸ Triple-bytes _ _ (omega arith)
    ▸ Triple-accept
