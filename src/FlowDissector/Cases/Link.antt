-- ===== src/FlowDissector/Cases/Link.antt =====
-- The rules of `Safety` at the cases of linux_flow_dissector in FlowDissector/Link.antt.
use pakeles.Base.{refl, arith, ◌==◌}
use pakeles.Safety.{
  Triple, Triple-pure, Triple-accept, Triple-reject, Triple-if, Triple-store, Triple-fetch, ◌⨾◌,
  ◌▸◌, Triple-bytes, Triple-bits,
}
use pakeles.FlowDissector.Types.{
  parse_vlan_ad, parse_vlan_q, parse_ipv4, parse_ipv6, parse_mpls,
  802_1ad_must_be_followed_by_802_1q, unsupported_ethertype, vlan_stacking_beyond_kernel_depth,
  reason_str,
}
use pakeles.FlowDissector.Link.{
  case_parse_ethernet, case_parse_vlan_ad, case_parse_vlan_q, case_parse_mpls,
}
use pakeles.FlowDissector.Cases.Depths.{named, depth_of, names}

pub case_parse_ethernet-Triple : Triple 0 named 0 case_parse_ethernet depth_of
unfolding case_parse_ethernet reason_str
case_parse_ethernet-Triple =
    Triple-store _
    ▸ Triple-bytes _ _ (omega arith)
    ▸ Triple-bytes _ _ (omega arith)
    ▸ Triple-bytes _ _ (omega arith)
    ▸ Triple-fetch _
    ⨾ λ key0. Triple-if (key0 == 2048) (Triple-pure parse_ipv4 refl) (
        Triple-if (key0 == 34525) (Triple-pure parse_ipv6 refl) (
          Triple-if (key0 == 33024) (Triple-pure parse_vlan_q refl) (
            Triple-if (key0 == 34984) (Triple-pure parse_vlan_ad refl) (
              Triple-if (key0 == 34887) (Triple-pure parse_mpls refl) (
                Triple-if (key0 == 34888) (Triple-pure parse_mpls refl)
                  (Triple-reject unsupported_ethertype refl))))))

pub case_parse_vlan_ad-Triple : Triple 0 named 0 case_parse_vlan_ad depth_of
unfolding case_parse_vlan_ad reason_str
case_parse_vlan_ad-Triple =
    Triple-store _
    ▸ Triple-bits _ _ (omega arith)
    ▸ Triple-bits _ _ (omega arith)
    ▸ Triple-bits _ _ (omega arith)
    ▸ Triple-bytes _ _ (omega arith)
    ▸ Triple-fetch _
    ⨾ λ key0.
        Triple-if (key0 == 33024) (Triple-pure parse_vlan_q refl)
          (Triple-reject 802_1ad_must_be_followed_by_802_1q refl)

pub case_parse_vlan_q-Triple : Triple 0 named 0 case_parse_vlan_q depth_of
unfolding case_parse_vlan_q reason_str
case_parse_vlan_q-Triple =
    Triple-store _
    ▸ Triple-bits _ _ (omega arith)
    ▸ Triple-bits _ _ (omega arith)
    ▸ Triple-bits _ _ (omega arith)
    ▸ Triple-bytes _ _ (omega arith)
    ▸ Triple-fetch _
    ⨾ λ key0. Triple-if (key0 == 2048) (Triple-pure parse_ipv4 refl) (
        Triple-if (key0 == 34525) (Triple-pure parse_ipv6 refl) (
          Triple-if (key0 == 34887) (Triple-pure parse_mpls refl) (
            Triple-if (key0 == 34888) (Triple-pure parse_mpls refl) (
              Triple-if (key0 == 33024) (Triple-reject vlan_stacking_beyond_kernel_depth refl) (
                Triple-if (key0 == 34984) (Triple-reject vlan_stacking_beyond_kernel_depth refl)
                  (Triple-reject unsupported_ethertype refl))))))

pub case_parse_mpls-Triple : Triple 0 named 0 case_parse_mpls depth_of
unfolding case_parse_mpls
case_parse_mpls-Triple =
    Triple-store _
    ▸ Triple-bits _ _ (omega arith)
    ▸ Triple-bits _ _ (omega arith)
    ▸ Triple-bits _ _ (omega arith)
    ▸ Triple-bytes _ _ (omega arith)
    ▸ Triple-accept
