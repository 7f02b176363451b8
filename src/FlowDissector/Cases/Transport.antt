-- ===== src/FlowDissector/Cases/Transport.antt =====
-- The rules of `Safety` at the cases of linux_flow_dissector in FlowDissector/Transport.antt.
use pakeles.Base.{arith}
use pakeles.Safety.{
  Triple, Triple-accept, Triple-store, Triple-fetch, ◌⨾◌, ◌▸◌, Triple-bytes, Triple-bits,
  Triple-run_of,
}
use pakeles.FlowDissector.Transport.{case_parse_tcp, case_parse_udp}
use pakeles.FlowDissector.Cases.Depths.{named, depth_of, names}

pub case_parse_tcp-Triple : Triple 0 named 0 case_parse_tcp depth_of
unfolding case_parse_tcp
case_parse_tcp-Triple =
    Triple-store _
    ▸ Triple-bytes _ _ (omega arith)
    ▸ Triple-bytes _ _ (omega arith)
    ▸ Triple-bytes _ _ (omega arith)
    ▸ Triple-bytes _ _ (omega arith)
    ▸ Triple-bits _ _ (omega arith)
    ▸ Triple-bits _ _ (omega arith)
    ▸ Triple-bytes _ _ (omega arith)
    ▸ Triple-bytes _ _ (omega arith)
    ▸ Triple-bytes _ _ (omega arith)
    ▸ Triple-bytes _ _ (omega arith)
    ▸ Triple-fetch _
    ⨾ λ vlen. Triple-run_of vlen _ ▸ Triple-accept

pub case_parse_udp-Triple : Triple 0 named 0 case_parse_udp depth_of
unfolding case_parse_udp
case_parse_udp-Triple =
    Triple-store _
    ▸ Triple-bytes _ _ (omega arith)
    ▸ Triple-bytes _ _ (omega arith)
    ▸ Triple-bytes _ _ (omega arith)
    ▸ Triple-bytes _ _ (omega arith)
    ▸ Triple-accept
