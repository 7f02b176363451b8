-- ===== src/DpdkPtype/Cases/Inner.antt =====
-- The rules of `Safety` at the cases of dpdk_ptype in DpdkPtype/Inner.antt.
use pakeles.Base.{refl, arith, ◌==◌, ◌&&◌}
use pakeles.Safety.{
  Triple, Triple-pure, Triple-accept, Triple-if, Triple-store, Triple-fetch, ◌⨾◌, ◌▸◌, Triple-bytes,
  Triple-bits, Triple-run_of,
}
use pakeles.DpdkPtype.Types.{
  parse_inner_ext_opt1, parse_inner_ext_opt2, parse_inner_ext_opt3, parse_inner_ext_opt4,
  parse_inner_ext_opt5, parse_inner_ext_frag, parse_inner_tcp,
}
use pakeles.DpdkPtype.Inner.{
  case_parse_inner_ipv4, case_parse_inner_ipv6, case_parse_inner_ext_opt1,
  case_parse_inner_ext_opt2, case_parse_inner_ext_opt3, case_parse_inner_ext_opt4,
  case_parse_inner_ext_opt5, case_parse_inner_ext_frag, case_parse_inner_tcp,
}
use pakeles.DpdkPtype.Cases.Depths.{named, depth_of, names}

pub case_parse_inner_ipv4-Triple : Triple 0 named 0 case_parse_inner_ipv4 depth_of
unfolding case_parse_inner_ipv4
case_parse_inner_ipv4-Triple =
    Triple-store _
    ▸ Triple-bits _ _ (omega arith)
    ▸ Triple-bits _ _ (omega arith)
    ▸ Triple-bits _ _ (omega arith)
    ▸ Triple-bits _ _ (omega arith)
    ▸ Triple-bytes _ _ (omega arith)
    ▸ Triple-bytes _ _ (omega arith)
    ▸ Triple-bits _ _ (omega arith)
    ▸ Triple-bits _ _ (omega arith)
    ▸ Triple-bytes _ _ (omega arith)
    ▸ Triple-bytes _ _ (omega arith)
    ▸ Triple-bytes _ _ (omega arith)
    ▸ Triple-bytes _ _ (omega arith)
    ▸ Triple-bytes _ _ (omega arith)
    ▸ Triple-fetch _
    ⨾ λ vlen. Triple-run_of vlen _ ▸ Triple-fetch _ ⨾ λ key0. Triple-fetch _ ⨾ λ key1.
        Triple-if (key0 == 0 && key1 == 6) (Triple-pure parse_inner_tcp refl) Triple-accept

pub case_parse_inner_ipv6-Triple : Triple 0 named 0 case_parse_inner_ipv6 depth_of
unfolding case_parse_inner_ipv6
case_parse_inner_ipv6-Triple =
    Triple-store _
    ▸ Triple-bits _ _ (omega arith)
    ▸ Triple-bits _ _ (omega arith)
    ▸ Triple-bits _ _ (omega arith)
    ▸ Triple-bytes _ _ (omega arith)
    ▸ Triple-bytes _ _ (omega arith)
    ▸ Triple-bytes _ _ (omega arith)
    ▸ Triple-fetch _
    ⨾ λ vlen. Triple-run_of vlen _ ▸ Triple-fetch _ ⨾ λ vlen.
        Triple-run_of vlen _ ▸ Triple-fetch _ ⨾ λ key0.
        Triple-if (key0 == 0) (Triple-pure parse_inner_ext_opt1 refl) (
          Triple-if (key0 == 43) (Triple-pure parse_inner_ext_opt1 refl) (
            Triple-if (key0 == 60) (Triple-pure parse_inner_ext_opt1 refl) (
              Triple-if (key0 == 44) (Triple-pure parse_inner_ext_frag refl)
                (Triple-if (key0 == 6) (Triple-pure parse_inner_tcp refl) Triple-accept))))

pub case_parse_inner_ext_opt1-Triple : Triple 0 named 0 case_parse_inner_ext_opt1 depth_of
unfolding case_parse_inner_ext_opt1
case_parse_inner_ext_opt1-Triple =
    Triple-store _
    ▸ Triple-bytes _ _ (omega arith)
    ▸ Triple-bytes _ _ (omega arith)
    ▸ Triple-fetch _
    ⨾ λ vlen. Triple-run_of vlen _ ▸ Triple-fetch _ ⨾ λ key0.
        Triple-if (key0 == 0) (Triple-pure parse_inner_ext_opt2 refl) (
          Triple-if (key0 == 43) (Triple-pure parse_inner_ext_opt2 refl) (
            Triple-if (key0 == 60) (Triple-pure parse_inner_ext_opt2 refl) (
              Triple-if (key0 == 44) (Triple-pure parse_inner_ext_frag refl)
                (Triple-if (key0 == 6) (Triple-pure parse_inner_tcp refl) Triple-accept))))

pub case_parse_inner_ext_opt2-Triple : Triple 0 named 0 case_parse_inner_ext_opt2 depth_of
unfolding case_parse_inner_ext_opt2
case_parse_inner_ext_opt2-Triple =
    Triple-store _
    ▸ Triple-bytes _ _ (omega arith)
    ▸ Triple-bytes _ _ (omega arith)
    ▸ Triple-fetch _
    ⨾ λ vlen. Triple-run_of vlen _ ▸ Triple-fetch _ ⨾ λ key0.
        Triple-if (key0 == 0) (Triple-pure parse_inner_ext_opt3 refl) (
          Triple-if (key0 == 43) (Triple-pure parse_inner_ext_opt3 refl) (
            Triple-if (key0 == 60) (Triple-pure parse_inner_ext_opt3 refl) (
              Triple-if (key0 == 44) (Triple-pure parse_inner_ext_frag refl)
                (Triple-if (key0 == 6) (Triple-pure parse_inner_tcp refl) Triple-accept))))

pub case_parse_inner_ext_opt3-Triple : Triple 0 named 0 case_parse_inner_ext_opt3 depth_of
unfolding case_parse_inner_ext_opt3
case_parse_inner_ext_opt3-Triple =
    Triple-store _
    ▸ Triple-bytes _ _ (omega arith)
    ▸ Triple-bytes _ _ (omega arith)
    ▸ Triple-fetch _
    ⨾ λ vlen. Triple-run_of vlen _ ▸ Triple-fetch _ ⨾ λ key0.
        Triple-if (key0 == 0) (Triple-pure parse_inner_ext_opt4 refl) (
          Triple-if (key0 == 43) (Triple-pure parse_inner_ext_opt4 refl) (
            Triple-if (key0 == 60) (Triple-pure parse_inner_ext_opt4 refl) (
              Triple-if (key0 == 44) (Triple-pure parse_inner_ext_frag refl)
                (Triple-if (key0 == 6) (Triple-pure parse_inner_tcp refl) Triple-accept))))

pub case_parse_inner_ext_opt4-Triple : Triple 0 named 0 case_parse_inner_ext_opt4 depth_of
unfolding case_parse_inner_ext_opt4
case_parse_inner_ext_opt4-Triple =
    Triple-store _
    ▸ Triple-bytes _ _ (omega arith)
    ▸ Triple-bytes _ _ (omega arith)
    ▸ Triple-fetch _
    ⨾ λ vlen. Triple-run_of vlen _ ▸ Triple-fetch _ ⨾ λ key0.
        Triple-if (key0 == 0) (Triple-pure parse_inner_ext_opt5 refl) (
          Triple-if (key0 == 43) (Triple-pure parse_inner_ext_opt5 refl) (
            Triple-if (key0 == 60) (Triple-pure parse_inner_ext_opt5 refl) (
              Triple-if (key0 == 44) (Triple-pure parse_inner_ext_frag refl)
                (Triple-if (key0 == 6) (Triple-pure parse_inner_tcp refl) Triple-accept))))

pub case_parse_inner_ext_opt5-Triple : Triple 0 named 0 case_parse_inner_ext_opt5 depth_of
unfolding case_parse_inner_ext_opt5
case_parse_inner_ext_opt5-Triple =
    Triple-store _
    ▸ Triple-bytes _ _ (omega arith)
    ▸ Triple-bytes _ _ (omega arith)
    ▸ Triple-fetch _
    ⨾ λ vlen. Triple-run_of vlen _ ▸ Triple-accept

pub case_parse_inner_ext_frag-Triple : Triple 0 named 0 case_parse_inner_ext_frag depth_of
unfolding case_parse_inner_ext_frag
case_parse_inner_ext_frag-Triple =
    Triple-store _
    ▸ Triple-bytes _ _ (omega arith)
    ▸ Triple-bytes _ _ (omega arith)
    ▸ Triple-bits _ _ (omega arith)
    ▸ Triple-bits _ _ (omega arith)
    ▸ Triple-bits _ _ (omega arith)
    ▸ Triple-bytes _ _ (omega arith)
    ▸ Triple-accept

pub case_parse_inner_tcp-Triple : Triple 0 named 0 case_parse_inner_tcp depth_of
unfolding case_parse_inner_tcp
case_parse_inner_tcp-Triple =
    Triple-store _
    ▸ Triple-bytes _ _ (omega arith)
    ▸ Triple-bytes _ _ (omega arith)
    ▸ Triple-bytes _ _ (omega arith)
    ▸ Triple-bytes _ _ (omega arith)
    ▸ Triple-bits _ _ (omega arith)
    ▸ Triple-bits _ _ (omega arith)
    ▸ Triple-bytes _ _ (omega arith)
    ▸ Triple-bytes _ _ (omega arith)
    ▸ Triple-bytes _ _ (omega arith)
    ▸ Triple-bytes _ _ (omega arith)
    ▸ Triple-accept
