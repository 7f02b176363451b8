-- ===== src/DpdkPtype/Cases/Tunnel.antt =====
-- The rules of `Safety` at the cases of dpdk_ptype in DpdkPtype/Tunnel.antt.
use pakeles.Base.{refl, arith, ◌==◌}
use pakeles.Safety.{
  Triple, Triple-pure, Triple-accept, Triple-if, Triple-store, Triple-fetch, ◌⨾◌, ◌▸◌, Triple-bytes,
  Triple-bits, Triple-run_of,
}
use pakeles.DpdkPtype.Types.{
  parse_gre_opt, parse_inner_ethernet, parse_inner_vlan, parse_inner_qinq, parse_inner_ipv4,
  parse_inner_ipv6,
}
use pakeles.DpdkPtype.Tunnel.{
  case_parse_gre, case_parse_gre_opt, case_parse_tcp, case_parse_inner_ethernet,
  case_parse_inner_vlan, case_parse_inner_qinq,
}
use pakeles.DpdkPtype.Cases.Depths.{named, depth_of, names}

pub case_parse_gre-Triple : Triple 0 named 0 case_parse_gre depth_of
unfolding case_parse_gre
case_parse_gre-Triple =
    Triple-store _
    ▸ Triple-bits _ _ (omega arith)
    ▸ Triple-bits _ _ (omega arith)
    ▸ Triple-bits _ _ (omega arith)
    ▸ Triple-bits _ _ (omega arith)
    ▸ Triple-bits _ _ (omega arith)
    ▸ Triple-bits _ _ (omega arith)
    ▸ Triple-bytes _ _ (omega arith)
    ▸ Triple-fetch _
    ⨾ λ key0. Triple-if (key0 == 0) (Triple-pure parse_gre_opt refl) Triple-accept

pub case_parse_gre_opt-Triple : Triple 0 named 0 case_parse_gre_opt depth_of
unfolding case_parse_gre_opt
case_parse_gre_opt-Triple = Triple-store _ ▸ Triple-fetch _ ⨾ λ vlen.
    Triple-run_of vlen _ ▸ Triple-fetch _ ⨾ λ key0.
    Triple-if (key0 == 2048) (Triple-pure parse_inner_ipv4 refl) (
      Triple-if (key0 == 34525) (Triple-pure parse_inner_ipv6 refl) (
        Triple-if (key0 == 25944) (Triple-pure parse_inner_ethernet refl) (
          Triple-if (key0 == 33024) (Triple-pure parse_inner_vlan refl)
            (Triple-if (key0 == 34984) (Triple-pure parse_inner_qinq refl) Triple-accept))))

pub case_parse_tcp-Triple : Triple 0 named 0 case_parse_tcp depth_of
unfolding case_parse_tcp
case_parse_tcp-Triple =
    Triple-store _
    ▸ Triple-bytes _ _ (omega arith)
    ▸ Triple-bytes _ _ (omega arith)
    ▸ Triple-bytes _ _ (omega arith)
    ▸ Triple-bytes _ _ (omega arith)
    ▸ Triple-bits _ _ (omega arith)
    ▸ Triple-bits _ _ (omega arith)
    ▸ Triple-bytes _ _ (omega arith)
    ▸ Triple-bytes _ _ (omega arith)
    ▸ Triple-bytes _ _ (omega arith)
    ▸ Triple-bytes _ _ (omega arith)
    ▸ Triple-accept

pub case_parse_inner_ethernet-Triple : Triple 0 named 0 case_parse_inner_ethernet depth_of
unfolding case_parse_inner_ethernet
case_parse_inner_ethernet-Triple =
    Triple-store _
    ▸ Triple-bytes _ _ (omega arith)
    ▸ Triple-bytes _ _ (omega arith)
    ▸ Triple-bytes _ _ (omega arith)
    ▸ Triple-fetch _
    ⨾ λ key0. Triple-if (key0 == 2048) (Triple-pure parse_inner_ipv4 refl) (
        Triple-if (key0 == 34525) (Triple-pure parse_inner_ipv6 refl) (
          Triple-if (key0 == 33024) (Triple-pure parse_inner_vlan refl)
            (Triple-if (key0 == 34984) (Triple-pure parse_inner_qinq refl) Triple-accept)))

pub case_parse_inner_vlan-Triple : Triple 0 named 0 case_parse_inner_vlan depth_of
unfolding case_parse_inner_vlan
case_parse_inner_vlan-Triple =
    Triple-store _
    ▸ Triple-bits _ _ (omega arith)
    ▸ Triple-bits _ _ (omega arith)
    ▸ Triple-bits _ _ (omega arith)
    ▸ Triple-bytes _ _ (omega arith)
    ▸ Triple-fetch _
    ⨾ λ key0.
        Triple-if (key0 == 2048) (Triple-pure parse_inner_ipv4 refl)
          (Triple-if (key0 == 34525) (Triple-pure parse_inner_ipv6 refl) Triple-accept)

pub case_parse_inner_qinq-Triple : Triple 0 named 0 case_parse_inner_qinq depth_of
unfolding case_parse_inner_qinq
case_parse_inner_qinq-Triple =
    Triple-store _
    ▸ Triple-bytes _ _ (omega arith)
    ▸ Triple-bytes _ _ (omega arith)
    ▸ Triple-bytes _ _ (omega arith)
    ▸ Triple-fetch _
    ⨾ λ key0.
        Triple-if (key0 == 2048) (Triple-pure parse_inner_ipv4 refl)
          (Triple-if (key0 == 34525) (Triple-pure parse_inner_ipv6 refl) Triple-accept)
