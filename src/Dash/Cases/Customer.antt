-- ===== src/Dash/Cases/Customer.antt =====
-- The rules of `Safety` at the cases of dash_parser in Dash/Customer.antt.
use pakeles.Base.{refl, arith, ◌==◌}
use pakeles.Safety.{
  Triple, Triple-pure, Triple-accept, Triple-reject, Triple-if, Triple-store, Triple-fetch, ◌⨾◌,
  ◌▸◌, Triple-bytes, Triple-bits,
}
use pakeles.Dash.Types.{
  parse_customer_ipv4, parse_customer_ipv4_ihl, dispatch_on_customer_protocol, parse_customer_ipv6,
  parse_customer_udp, parse_customer_tcp, ipv4incorrectversion, ipv4optionsnotsupported, reason_str,
}
use pakeles.Dash.Customer.{
  case_parse_customer_ethernet, case_parse_customer_ipv4, case_parse_customer_ipv4_ihl,
  case_dispatch_on_customer_protocol, case_parse_customer_ipv6, case_parse_customer_udp,
  case_parse_customer_tcp,
}
use pakeles.Dash.Cases.Depths.{named, depth_of, names}

pub case_parse_customer_ethernet-Triple : Triple 0 named 0 case_parse_customer_ethernet depth_of
unfolding case_parse_customer_ethernet
case_parse_customer_ethernet-Triple =
    Triple-store _
    ▸ Triple-bytes _ _ (omega arith)
    ▸ Triple-bytes _ _ (omega arith)
    ▸ Triple-bytes _ _ (omega arith)
    ▸ Triple-fetch _
    ⨾ λ key0.
        Triple-if (key0 == 2048) (Triple-pure parse_customer_ipv4 refl)
          (Triple-if (key0 == 34525) (Triple-pure parse_customer_ipv6 refl) Triple-accept)

pub case_parse_customer_ipv4-Triple : Triple 0 named 0 case_parse_customer_ipv4 depth_of
unfolding case_parse_customer_ipv4 reason_str
case_parse_customer_ipv4-Triple =
    Triple-store _
    ▸ Triple-bits _ _ (omega arith)
    ▸ Triple-bits _ _ (omega arith)
    ▸ Triple-bytes _ _ (omega arith)
    ▸ Triple-bytes _ _ (omega arith)
    ▸ Triple-bytes _ _ (omega arith)
    ▸ Triple-bits _ _ (omega arith)
    ▸ Triple-bits _ _ (omega arith)
    ▸ Triple-bytes _ _ (omega arith)
    ▸ Triple-bytes _ _ (omega arith)
    ▸ Triple-bytes _ _ (omega arith)
    ▸ Triple-bytes _ _ (omega arith)
    ▸ Triple-bytes _ _ (omega arith)
    ▸ Triple-fetch _
    ⨾ λ key0.
        Triple-if (key0 == 4) (Triple-pure parse_customer_ipv4_ihl refl)
          (Triple-reject ipv4incorrectversion refl)

pub case_parse_customer_ipv4_ihl-Triple : Triple 0 named 0 case_parse_customer_ipv4_ihl depth_of
unfolding case_parse_customer_ipv4_ihl reason_str
case_parse_customer_ipv4_ihl-Triple = Triple-fetch _ ⨾ λ key0.
    Triple-if (key0 == 5) (Triple-pure dispatch_on_customer_protocol refl)
      (Triple-reject ipv4optionsnotsupported refl)

pub case_dispatch_on_customer_protocol-Triple :
    Triple 0 named 0 case_dispatch_on_customer_protocol depth_of
unfolding case_dispatch_on_customer_protocol
case_dispatch_on_customer_protocol-Triple = Triple-fetch _ ⨾ λ key0.
    Triple-if (key0 == 17) (Triple-pure parse_customer_udp refl)
      (Triple-if (key0 == 6) (Triple-pure parse_customer_tcp refl) Triple-accept)

pub case_parse_customer_ipv6-Triple : Triple 0 named 0 case_parse_customer_ipv6 depth_of
unfolding case_parse_customer_ipv6
case_parse_customer_ipv6-Triple =
    Triple-store _
    ▸ Triple-bits _ _ (omega arith)
    ▸ Triple-bits _ _ (omega arith)
    ▸ Triple-bits _ _ (omega arith)
    ▸ Triple-bytes _ _ (omega arith)
    ▸ Triple-bytes _ _ (omega arith)
    ▸ Triple-bytes _ _ (omega arith)
    ▸ Triple-bytes _ _ (omega arith)
    ▸ Triple-bytes _ _ (omega arith)
    ▸ Triple-bytes _ _ (omega arith)
    ▸ Triple-bytes _ _ (omega arith)
    ▸ Triple-fetch _
    ⨾ λ key0.
        Triple-if (key0 == 17) (Triple-pure parse_customer_udp refl)
          (Triple-if (key0 == 6) (Triple-pure parse_customer_tcp refl) Triple-accept)

pub case_parse_customer_udp-Triple : Triple 0 named 0 case_parse_customer_udp depth_of
unfolding case_parse_customer_udp
case_parse_customer_udp-Triple =
    Triple-store _
    ▸ Triple-bytes _ _ (omega arith)
    ▸ Triple-bytes _ _ (omega arith)
    ▸ Triple-bytes _ _ (omega arith)
    ▸ Triple-bytes _ _ (omega arith)
    ▸ Triple-accept

pub case_parse_customer_tcp-Triple : Triple 0 named 0 case_parse_customer_tcp depth_of
unfolding case_parse_customer_tcp
case_parse_customer_tcp-Triple =
    Triple-store _
    ▸ Triple-bytes _ _ (omega arith)
    ▸ Triple-bytes _ _ (omega arith)
    ▸ Triple-bytes _ _ (omega arith)
    ▸ Triple-bytes _ _ (omega arith)
    ▸ Triple-bits _ _ (omega arith)
    ▸ Triple-bits _ _ (omega arith)
    ▸ Triple-bits _ _ (omega arith)
    ▸ Triple-bits _ _ (omega arith)
    ▸ Triple-bytes _ _ (omega arith)
    ▸ Triple-bytes _ _ (omega arith)
    ▸ Triple-bytes _ _ (omega arith)
    ▸ Triple-accept
