-- ===== src/DpdkPtype/Cases/Link.antt =====
-- The rules of `Safety` at the cases of dpdk_ptype in DpdkPtype/Link.antt.
use pakeles.Base.{refl, arith, ◌==◌}
use pakeles.Safety.{
  Triple, Triple-pure, Triple-accept, Triple-if, Triple-store, Triple-fetch, ◌⨾◌, ◌▸◌, Triple-bytes,
  Triple-bits,
}
use pakeles.DpdkPtype.Types.{
  parse_vlan, parse_qinq, parse_ipv4, parse_ipv6, parse_gre, parse_inner_ethernet, parse_inner_vlan,
  parse_inner_qinq, parse_inner_ipv4, parse_inner_ipv6,
}
use pakeles.DpdkPtype.Link.{case_parse_ethernet, case_parse_vlan, case_parse_qinq}
use pakeles.DpdkPtype.Cases.Depths.{named, depth_of, names}

pub case_parse_ethernet-Triple : Triple 0 named 0 case_parse_ethernet depth_of
unfolding case_parse_ethernet
case_parse_ethernet-Triple =
    Triple-store _
    ▸ Triple-bytes _ _ (omega arith)
    ▸ Triple-bytes _ _ (omega arith)
    ▸ Triple-bytes _ _ (omega arith)
    ▸ Triple-fetch _
    ⨾ λ key0. Triple-if (key0 == 2048) (Triple-pure parse_ipv4 refl) (
        Triple-if (key0 == 34525) (Triple-pure parse_ipv6 refl) (
          Triple-if (key0 == 33024) (Triple-pure parse_vlan refl) (
            Triple-if (key0 == 34984) (Triple-pure parse_qinq refl) (
              Triple-if (key0 == 34887) Triple-accept (
                Triple-if (key0 == 34888) Triple-accept (
                  Triple-if (key0 == 25944) (Triple-pure parse_inner_ethernet refl) (
                    Triple-if (key0 == 1024) (Triple-pure parse_inner_ipv4 refl) (
                      Triple-if (key0 == 10496) (Triple-pure parse_inner_ipv6 refl) (
                        Triple-if (key0 == 12032) (Triple-pure parse_gre refl)
                          Triple-accept)))))))))

pub case_parse_vlan-Triple : Triple 0 named 0 case_parse_vlan depth_of
unfolding case_parse_vlan
case_parse_vlan-Triple =
    Triple-store _
    ▸ Triple-bits _ _ (omega arith)
    ▸ Triple-bits _ _ (omega arith)
    ▸ Triple-bits _ _ (omega arith)
    ▸ Triple-bytes _ _ (omega arith)
    ▸ Triple-fetch _
    ⨾ λ key0. Triple-if (key0 == 2048) (Triple-pure parse_ipv4 refl) (
        Triple-if (key0 == 34525) (Triple-pure parse_ipv6 refl) (
          Triple-if (key0 == 25944) (Triple-pure parse_inner_ethernet refl) (
            Triple-if (key0 == 33024) (Triple-pure parse_inner_vlan refl) (
              Triple-if (key0 == 34984) (Triple-pure parse_inner_qinq refl) (
                Triple-if (key0 == 1024) (Triple-pure parse_inner_ipv4 refl) (
                  Triple-if (key0 == 10496) (Triple-pure parse_inner_ipv6 refl)
                    (Triple-if (key0 == 12032) (Triple-pure parse_gre refl) Triple-accept)))))))

pub case_parse_qinq-Triple : Triple 0 named 0 case_parse_qinq depth_of
unfolding case_parse_qinq
case_parse_qinq-Triple =
    Triple-store _
    ▸ Triple-bytes _ _ (omega arith)
    ▸ Triple-bytes _ _ (omega arith)
    ▸ Triple-bytes _ _ (omega arith)
    ▸ Triple-fetch _
    ⨾ λ key0. Triple-if (key0 == 2048) (Triple-pure parse_ipv4 refl) (
        Triple-if (key0 == 34525) (Triple-pure parse_ipv6 refl) (
          Triple-if (key0 == 25944) (Triple-pure parse_inner_ethernet refl) (
            Triple-if (key0 == 33024) (Triple-pure parse_inner_vlan refl) (
              Triple-if (key0 == 34984) (Triple-pure parse_inner_qinq refl) (
                Triple-if (key0 == 1024) (Triple-pure parse_inner_ipv4 refl) (
                  Triple-if (key0 == 10496) (Triple-pure parse_inner_ipv6 refl)
                    (Triple-if (key0 == 12032) (Triple-pure parse_gre refl) Triple-accept)))))))
