-- ===== src/Katran/Cases.antt =====
-- The rules of `Safety` at the cases of katran_parser.
use text.Mathlib.Text.{◌==◌ as str_eq}
use pakeles.Base.{ℕ, refl, Bool, not, arith, ◌==◌, ◌&&◌}
use pakeles.Safety.{
  Triple, Triple-pure, Triple-accept, Triple-reject, Triple-if, Triple-store, Triple-fetch, ◌⨾◌,
  ◌▸◌, Triple-bytes, Triple-bits, Triple-run_of, NamesBuiltIn,
}
use pakeles.Katran.Types.{
  State, parse_ethernet, parse_ipv4, parse_ipv4_proto, parse_ipv6, parse_icmp, parse_icmp6,
  parse_inner_ipv4, parse_inner_ipv4_proto, parse_inner_ipv6, parse_tcp, parse_udp,
  inner_ipv4_ihl_5, ipv4_ihl_5_or_fragmented, ipv6_fragment, reason_str,
}
use pakeles.Katran.Outer.{
  case_parse_ethernet, case_parse_ipv4, case_parse_ipv4_proto, case_parse_ipv6,
}
use pakeles.Katran.Icmp.{
  case_parse_icmp, case_parse_icmp6, case_parse_inner_ipv4, case_parse_inner_ipv4_proto,
  case_parse_inner_ipv6,
}
use pakeles.Katran.Transport.{case_parse_tcp, case_parse_udp}
use pakeles.Katran.Parse.{step}

-- `reason_str` has words for the code.
abbrev pub named : ℕ → Bool
unfolding reason_str
named r = not (str_eq (reason_str r) "")

-- How many regions are open when a state is entered.
abbrev pub depth_of : State → ℕ
depth_of s = 0

instance pub names : NamesBuiltIn named
unfolding reason_str
names = record { oob = refl; oorb = refl; robb = refl; rne = refl }

case_parse_ethernet-Triple : Triple 0 named 0 case_parse_ethernet depth_of
unfolding case_parse_ethernet
case_parse_ethernet-Triple =
    Triple-store _
    ▸ Triple-bytes _ _ (omega arith)
    ▸ Triple-bytes _ _ (omega arith)
    ▸ Triple-bytes _ _ (omega arith)
    ▸ Triple-fetch _
    ⨾ λ key0.
        Triple-if (key0 == 2048) (Triple-pure parse_ipv4 refl)
          (Triple-if (key0 == 34525) (Triple-pure parse_ipv6 refl) Triple-accept)

case_parse_ipv4-Triple : Triple 0 named 0 case_parse_ipv4 depth_of
unfolding case_parse_ipv4 reason_str
case_parse_ipv4-Triple =
    Triple-store _
    ▸ Triple-bits _ _ (omega arith)
    ▸ Triple-bits _ _ (omega arith)
    ▸ Triple-bits _ _ (omega arith)
    ▸ Triple-bits _ _ (omega arith)
    ▸ Triple-bytes _ _ (omega arith)
    ▸ Triple-bytes _ _ (omega arith)
    ▸ Triple-bits _ _ (omega arith)
    ▸ Triple-bits _ _ (omega arith)
    ▸ Triple-bytes _ _ (omega arith)
    ▸ Triple-bytes _ _ (omega arith)
    ▸ Triple-bytes _ _ (omega arith)
    ▸ Triple-bytes _ _ (omega arith)
    ▸ Triple-bytes _ _ (omega arith)
    ▸ Triple-fetch _
    ⨾ λ key0. Triple-fetch _ ⨾ λ key1.
        Triple-if (key0 == 5 && key1 == 0) (Triple-pure parse_ipv4_proto refl)
          (Triple-reject ipv4_ihl_5_or_fragmented refl)

case_parse_ipv4_proto-Triple : Triple 0 named 0 case_parse_ipv4_proto depth_of
unfolding case_parse_ipv4_proto
case_parse_ipv4_proto-Triple = Triple-fetch _ ⨾ λ key0.
    Triple-if (key0 == 1) (Triple-pure parse_icmp refl) (
      Triple-if (key0 == 6) (Triple-pure parse_tcp refl)
        (Triple-if (key0 == 17) (Triple-pure parse_udp refl) Triple-accept))

case_parse_ipv6-Triple : Triple 0 named 0 case_parse_ipv6 depth_of
unfolding case_parse_ipv6 reason_str
case_parse_ipv6-Triple =
    Triple-store _
    ▸ Triple-bits _ _ (omega arith)
    ▸ Triple-bits _ _ (omega arith)
    ▸ Triple-bits _ _ (omega arith)
    ▸ Triple-bytes _ _ (omega arith)
    ▸ Triple-bytes _ _ (omega arith)
    ▸ Triple-bytes _ _ (omega arith)
    ▸ Triple-fetch _
    ⨾ λ vlen. Triple-run_of vlen _ ▸ Triple-fetch _ ⨾ λ vlen.
        Triple-run_of vlen _ ▸ Triple-fetch _ ⨾ λ key0.
        Triple-if (key0 == 44) (Triple-reject ipv6_fragment refl) (
          Triple-if (key0 == 58) (Triple-pure parse_icmp6 refl) (
            Triple-if (key0 == 6) (Triple-pure parse_tcp refl)
              (Triple-if (key0 == 17) (Triple-pure parse_udp refl) Triple-accept)))

case_parse_icmp-Triple : Triple 0 named 0 case_parse_icmp depth_of
unfolding case_parse_icmp
case_parse_icmp-Triple =
    Triple-store _
    ▸ Triple-bytes _ _ (omega arith)
    ▸ Triple-bytes _ _ (omega arith)
    ▸ Triple-bytes _ _ (omega arith)
    ▸ Triple-bytes _ _ (omega arith)
    ▸ Triple-fetch _
    ⨾ λ key0. Triple-if (key0 == 3) (Triple-pure parse_inner_ipv4 refl) Triple-accept

case_parse_icmp6-Triple : Triple 0 named 0 case_parse_icmp6 depth_of
unfolding case_parse_icmp6
case_parse_icmp6-Triple =
    Triple-store _
    ▸ Triple-bytes _ _ (omega arith)
    ▸ Triple-bytes _ _ (omega arith)
    ▸ Triple-bytes _ _ (omega arith)
    ▸ Triple-bytes _ _ (omega arith)
    ▸ Triple-fetch _
    ⨾ λ key0.
        Triple-if (key0 == 1) (Triple-pure parse_inner_ipv6 refl)
          (Triple-if (key0 == 2) (Triple-pure parse_inner_ipv6 refl) Triple-accept)

case_parse_inner_ipv4-Triple : Triple 0 named 0 case_parse_inner_ipv4 depth_of
unfolding case_parse_inner_ipv4 reason_str
case_parse_inner_ipv4-Triple =
    Triple-store _
    ▸ Triple-bits _ _ (omega arith)
    ▸ Triple-bits _ _ (omega arith)
    ▸ Triple-bits _ _ (omega arith)
    ▸ Triple-bits _ _ (omega arith)
    ▸ Triple-bytes _ _ (omega arith)
    ▸ Triple-bytes _ _ (omega arith)
    ▸ Triple-bits _ _ (omega arith)
    ▸ Triple-bits _ _ (omega arith)
    ▸ Triple-bytes _ _ (omega arith)
    ▸ Triple-bytes _ _ (omega arith)
    ▸ Triple-bytes _ _ (omega arith)
    ▸ Triple-bytes _ _ (omega arith)
    ▸ Triple-bytes _ _ (omega arith)
    ▸ Triple-store _
    ▸ Triple-fetch _
    ⨾ λ key0.
        Triple-if (key0 == 5) (Triple-pure parse_inner_ipv4_proto refl)
          (Triple-reject inner_ipv4_ihl_5 refl)

case_parse_inner_ipv4_proto-Triple : Triple 0 named 0 case_parse_inner_ipv4_proto depth_of
unfolding case_parse_inner_ipv4_proto
case_parse_inner_ipv4_proto-Triple = Triple-fetch _ ⨾ λ key0.
    Triple-if (key0 == 6) (Triple-pure parse_tcp refl)
      (Triple-if (key0 == 17) (Triple-pure parse_udp refl) Triple-accept)

case_parse_inner_ipv6-Triple : Triple 0 named 0 case_parse_inner_ipv6 depth_of
unfolding case_parse_inner_ipv6
case_parse_inner_ipv6-Triple =
    Triple-store _
    ▸ Triple-bits _ _ (omega arith)
    ▸ Triple-bits _ _ (omega arith)
    ▸ Triple-bits _ _ (omega arith)
    ▸ Triple-bytes _ _ (omega arith)
    ▸ Triple-bytes _ _ (omega arith)
    ▸ Triple-bytes _ _ (omega arith)
    ▸ Triple-fetch _
    ⨾ λ vlen. Triple-run_of vlen _ ▸ Triple-fetch _ ⨾ λ vlen.
        Triple-run_of vlen _ ▸ Triple-store _ ▸ Triple-fetch _ ⨾ λ key0.
        Triple-if (key0 == 6) (Triple-pure parse_tcp refl)
          (Triple-if (key0 == 17) (Triple-pure parse_udp refl) Triple-accept)

case_parse_tcp-Triple : Triple 0 named 0 case_parse_tcp depth_of
unfolding case_parse_tcp
case_parse_tcp-Triple =
    Triple-store _
    ▸ Triple-bytes _ _ (omega arith)
    ▸ Triple-bytes _ _ (omega arith)
    ▸ Triple-bytes _ _ (omega arith)
    ▸ Triple-bytes _ _ (omega arith)
    ▸ Triple-bits _ _ (omega arith)
    ▸ Triple-bits _ _ (omega arith)
    ▸ Triple-bytes _ _ (omega arith)
    ▸ Triple-bytes _ _ (omega arith)
    ▸ Triple-bytes _ _ (omega arith)
    ▸ Triple-bytes _ _ (omega arith)
    ▸ Triple-accept

case_parse_udp-Triple : Triple 0 named 0 case_parse_udp depth_of
unfolding case_parse_udp
case_parse_udp-Triple =
    Triple-store _
    ▸ Triple-bytes _ _ (omega arith)
    ▸ Triple-bytes _ _ (omega arith)
    ▸ Triple-bytes _ _ (omega arith)
    ▸ Triple-bytes _ _ (omega arith)
    ▸ Triple-accept

-- Every state keeps the invariant.
pub step-Triple : (s : State) → Triple 0 named (depth_of s) (step s) depth_of
unfolding step
step-Triple parse_ethernet = case_parse_ethernet-Triple
step-Triple parse_ipv4 = case_parse_ipv4-Triple
step-Triple parse_ipv4_proto = case_parse_ipv4_proto-Triple
step-Triple parse_ipv6 = case_parse_ipv6-Triple
step-Triple parse_icmp = case_parse_icmp-Triple
step-Triple parse_icmp6 = case_parse_icmp6-Triple
step-Triple parse_inner_ipv4 = case_parse_inner_ipv4-Triple
step-Triple parse_inner_ipv4_proto = case_parse_inner_ipv4_proto-Triple
step-Triple parse_inner_ipv6 = case_parse_inner_ipv6-Triple
step-Triple parse_tcp = case_parse_tcp-Triple
step-Triple parse_udp = case_parse_udp-Triple
