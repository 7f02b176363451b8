-- ===== src/Sai/Cases.antt =====
-- The rules of `Safety` at the cases of sai_parser.
use text.Mathlib.Text.{◌==◌ as str_eq}
use pakeles.Base.{ℕ, refl, Bool, not, arith, ◌==◌}
use pakeles.Safety.{
  Triple, Triple-pure, Triple-accept, Triple-if, Triple-store, Triple-fetch, ◌⨾◌, ◌▸◌, Triple-bytes,
  Triple-bits, Triple-run_of, NamesBuiltIn,
}
use pakeles.Sai.Types.{
  State, parse_ethernet, parse_vlan, parse_ipv4, parse_ipv6, parse_arp, parse_icmp, parse_tcp,
  parse_udp, reason_str,
}
use pakeles.Sai.Link.{case_parse_ethernet, case_parse_vlan, case_parse_arp}
use pakeles.Sai.Network.{case_parse_ipv4, case_parse_ipv6}
use pakeles.Sai.Transport.{case_parse_icmp, case_parse_tcp, case_parse_udp}
use pakeles.Sai.Parse.{step}

-- `reason_str` has words for the code.
abbrev pub named : ℕ → Bool
unfolding reason_str
named r = not (str_eq (reason_str r) "")

-- How many regions are open when a state is entered.
abbrev pub depth_of : State → ℕ
depth_of s = 0

instance pub names : NamesBuiltIn named
unfolding reason_str
names = record { oob = refl; oorb = refl; robb = refl; rne = refl }

case_parse_ethernet-Triple : Triple 0 named 0 case_parse_ethernet depth_of
unfolding case_parse_ethernet
case_parse_ethernet-Triple =
    Triple-store _
    ▸ Triple-bytes _ _ (omega arith)
    ▸ Triple-bytes _ _ (omega arith)
    ▸ Triple-bytes _ _ (omega arith)
    ▸ Triple-fetch _
    ⨾ λ key0. Triple-if (key0 == 2048) (Triple-pure parse_ipv4 refl) (
        Triple-if (key0 == 34525) (Triple-pure parse_ipv6 refl) (
          Triple-if (key0 == 2054) (Triple-pure parse_arp refl)
            (Triple-if (key0 == 33024) (Triple-pure parse_vlan refl) Triple-accept)))

case_parse_vlan-Triple : Triple 0 named 0 case_parse_vlan depth_of
unfolding case_parse_vlan
case_parse_vlan-Triple =
    Triple-store _
    ▸ Triple-bits _ _ (omega arith)
    ▸ Triple-bits _ _ (omega arith)
    ▸ Triple-bits _ _ (omega arith)
    ▸ Triple-bytes _ _ (omega arith)
    ▸ Triple-fetch _
    ⨾ λ key0. Triple-if (key0 == 2048) (Triple-pure parse_ipv4 refl) (
        Triple-if (key0 == 34525) (Triple-pure parse_ipv6 refl)
          (Triple-if (key0 == 2054) (Triple-pure parse_arp refl) Triple-accept))

case_parse_ipv4-Triple : Triple 0 named 0 case_parse_ipv4 depth_of
unfolding case_parse_ipv4
case_parse_ipv4-Triple =
    Triple-store _
    ▸ Triple-bits _ _ (omega arith)
    ▸ Triple-bits _ _ (omega arith)
    ▸ Triple-bits _ _ (omega arith)
    ▸ Triple-bits _ _ (omega arith)
    ▸ Triple-bytes _ _ (omega arith)
    ▸ Triple-bytes _ _ (omega arith)
    ▸ Triple-bits _ _ (omega arith)
    ▸ Triple-bits _ _ (omega arith)
    ▸ Triple-bytes _ _ (omega arith)
    ▸ Triple-bytes _ _ (omega arith)
    ▸ Triple-bytes _ _ (omega arith)
    ▸ Triple-bytes _ _ (omega arith)
    ▸ Triple-bytes _ _ (omega arith)
    ▸ Triple-fetch _
    ⨾ λ key0. Triple-if (key0 == 1) (Triple-pure parse_icmp refl) (
        Triple-if (key0 == 6) (Triple-pure parse_tcp refl)
          (Triple-if (key0 == 17) (Triple-pure parse_udp refl) Triple-accept))

case_parse_ipv6-Triple : Triple 0 named 0 case_parse_ipv6 depth_of
unfolding case_parse_ipv6
case_parse_ipv6-Triple =
    Triple-store _
    ▸ Triple-bits _ _ (omega arith)
    ▸ Triple-bits _ _ (omega arith)
    ▸ Triple-bits _ _ (omega arith)
    ▸ Triple-bytes _ _ (omega arith)
    ▸ Triple-bytes _ _ (omega arith)
    ▸ Triple-bytes _ _ (omega arith)
    ▸ Triple-fetch _
    ⨾ λ vlen. Triple-run_of vlen _ ▸ Triple-fetch _ ⨾ λ vlen.
        Triple-run_of vlen _ ▸ Triple-fetch _ ⨾ λ key0.
        Triple-if (key0 == 58) (Triple-pure parse_icmp refl) (
          Triple-if (key0 == 6) (Triple-pure parse_tcp refl)
            (Triple-if (key0 == 17) (Triple-pure parse_udp refl) Triple-accept))

case_parse_arp-Triple : Triple 0 named 0 case_parse_arp depth_of
unfolding case_parse_arp
case_parse_arp-Triple =
    Triple-store _
    ▸ Triple-bytes _ _ (omega arith)
    ▸ Triple-bytes _ _ (omega arith)
    ▸ Triple-bytes _ _ (omega arith)
    ▸ Triple-bytes _ _ (omega arith)
    ▸ Triple-bytes _ _ (omega arith)
    ▸ Triple-bytes _ _ (omega arith)
    ▸ Triple-bytes _ _ (omega arith)
    ▸ Triple-bytes _ _ (omega arith)
    ▸ Triple-bytes _ _ (omega arith)
    ▸ Triple-accept

case_parse_icmp-Triple : Triple 0 named 0 case_parse_icmp depth_of
unfolding case_parse_icmp
case_parse_icmp-Triple =
    Triple-store _
    ▸ Triple-bytes _ _ (omega arith)
    ▸ Triple-bytes _ _ (omega arith)
    ▸ Triple-bytes _ _ (omega arith)
    ▸ Triple-bytes _ _ (omega arith)
    ▸ Triple-accept

case_parse_tcp-Triple : Triple 0 named 0 case_parse_tcp depth_of
unfolding case_parse_tcp
case_parse_tcp-Triple =
    Triple-store _
    ▸ Triple-bytes _ _ (omega arith)
    ▸ Triple-bytes _ _ (omega arith)
    ▸ Triple-bytes _ _ (omega arith)
    ▸ Triple-bytes _ _ (omega arith)
    ▸ Triple-bits _ _ (omega arith)
    ▸ Triple-bits _ _ (omega arith)
    ▸ Triple-bytes _ _ (omega arith)
    ▸ Triple-bytes _ _ (omega arith)
    ▸ Triple-bytes _ _ (omega arith)
    ▸ Triple-bytes _ _ (omega arith)
    ▸ Triple-accept

case_parse_udp-Triple : Triple 0 named 0 case_parse_udp depth_of
unfolding case_parse_udp
case_parse_udp-Triple =
    Triple-store _
    ▸ Triple-bytes _ _ (omega arith)
    ▸ Triple-bytes _ _ (omega arith)
    ▸ Triple-bytes _ _ (omega arith)
    ▸ Triple-bytes _ _ (omega arith)
    ▸ Triple-accept

-- Every state keeps the invariant.
pub step-Triple : (s : State) → Triple 0 named (depth_of s) (step s) depth_of
unfolding step
step-Triple parse_ethernet = case_parse_ethernet-Triple
step-Triple parse_vlan = case_parse_vlan-Triple
step-Triple parse_ipv4 = case_parse_ipv4-Triple
step-Triple parse_ipv6 = case_parse_ipv6-Triple
step-Triple parse_arp = case_parse_arp-Triple
step-Triple parse_icmp = case_parse_icmp-Triple
step-Triple parse_tcp = case_parse_tcp-Triple
step-Triple parse_udp = case_parse_udp-Triple
