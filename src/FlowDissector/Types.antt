-- ===== src/FlowDissector/Types.antt =====
-- The result of linux_flow_dissector and its states: benchmarks/industry/linux_flow_dissector/gen/parser.h, and the state numbers of parser.c.
use pakeles.Base.{ℕ, ◌==◌, if◌then◌else◌}
use Prim.Native.String.{String}

-- `pk_linux_flow_dissector_ethernet_t`
pub record Ethernet : Type 0 where
  pub dst : ℕ
  pub src : ℕ
  pub ethertype : ℕ

-- `pk_linux_flow_dissector_vlan_ad_t`
pub record VlanAd : Type 0 where
  pub pcp : ℕ
  pub dei : ℕ
  pub vid : ℕ
  pub encapsulated_proto : ℕ

-- `pk_linux_flow_dissector_vlan_q_t`
pub record VlanQ : Type 0 where
  pub pcp : ℕ
  pub dei : ℕ
  pub vid : ℕ
  pub encapsulated_proto : ℕ

-- `pk_linux_flow_dissector_ipv4_t`
pub record Ipv4 : Type 0 where
  pub version : ℕ
  pub ihl : ℕ
  pub dscp : ℕ
  pub ecn : ℕ
  pub total_len : ℕ
  pub id : ℕ
  pub flags : ℕ
  pub frag_offset : ℕ
  pub ttl : ℕ
  pub protocol : ℕ
  pub checksum : ℕ
  pub src : ℕ
  pub dst : ℕ
  pub options_bit_off : ℕ
  pub options_bit_len : ℕ

-- `pk_linux_flow_dissector_ipv6_t`
pub record Ipv6 : Type 0 where
  pub version : ℕ
  pub traffic_class : ℕ
  pub flow_label : ℕ
  pub payload_length : ℕ
  pub next_header : ℕ
  pub hop_limit : ℕ
  pub src_bit_off : ℕ
  pub src_bit_len : ℕ
  pub dst_bit_off : ℕ
  pub dst_bit_len : ℕ

-- `pk_linux_flow_dissector_ext_opt_t`
pub record ExtOpt : Type 0 where
  pub next_header : ℕ
  pub hdr_ext_len : ℕ
  pub body_bit_off : ℕ
  pub body_bit_len : ℕ

-- `pk_linux_flow_dissector_gre_t`
pub record Gre : Type 0 where
  pub c : ℕ
  pub routing : ℕ
  pub key_flag : ℕ
  pub seq_flag : ℕ
  pub reserved : ℕ
  pub version : ℕ
  pub proto : ℕ

-- `pk_linux_flow_dissector_gre_opt_t`
pub record GreOpt : Type 0 where
  pub body_bit_off : ℕ
  pub body_bit_len : ℕ

-- `pk_linux_flow_dissector_ext_frag_t`
pub record ExtFrag : Type 0 where
  pub next_header : ℕ
  pub reserved : ℕ
  pub frag_off : ℕ
  pub res2 : ℕ
  pub m_flag : ℕ
  pub identification : ℕ

-- `pk_linux_flow_dissector_mpls_t`
pub record Mpls : Type 0 where
  pub label : ℕ
  pub tc : ℕ
  pub s : ℕ
  pub ttl : ℕ

-- `pk_linux_flow_dissector_tcp_t`
pub record Tcp : Type 0 where
  pub sport : ℕ
  pub dport : ℕ
  pub seq : ℕ
  pub ack : ℕ
  pub data_offset : ℕ
  pub reserved : ℕ
  pub flags : ℕ
  pub window : ℕ
  pub checksum : ℕ
  pub urgent : ℕ
  pub options_bit_off : ℕ
  pub options_bit_len : ℕ

-- `pk_linux_flow_dissector_udp_t`
pub record Udp : Type 0 where
  pub sport : ℕ
  pub dport : ℕ
  pub length : ℕ
  pub checksum : ℕ

-- `pk_linux_flow_dissector_result_t` without its first three fields.
pub record Body : Type 0 where
  pub ethernet_present : ℕ
  pub ethernet : Ethernet
  pub vlan_ad_present : ℕ
  pub vlan_ad : VlanAd
  pub vlan_q_present : ℕ
  pub vlan_q : VlanQ
  pub ipv4_present : ℕ
  pub ipv4 : Ipv4
  pub ipv6_present : ℕ
  pub ipv6 : Ipv6
  pub ext_opt_present : ℕ
  pub ext_opt : ExtOpt
  pub gre_present : ℕ
  pub gre : Gre
  pub gre_opt_present : ℕ
  pub gre_opt : GreOpt
  pub ext_frag_present : ℕ
  pub ext_frag : ExtFrag
  pub mpls_present : ℕ
  pub mpls : Mpls
  pub tcp_present : ℕ
  pub tcp : Tcp
  pub udp_present : ℕ
  pub udp : Udp
  pub m_is_encap : ℕ

-- `pk_linux_flow_dissector_result_t zero = {0}`
abbrev pub zero_body : Body
zero_body = record {
  ethernet_present = 0;
  ethernet = record { dst = 0; src = 0; ethertype = 0 };
  vlan_ad_present = 0;
  vlan_ad = record { pcp = 0; dei = 0; vid = 0; encapsulated_proto = 0 };
  vlan_q_present = 0;
  vlan_q = record { pcp = 0; dei = 0; vid = 0; encapsulated_proto = 0 };
  ipv4_present = 0;
  ipv4 = record {
    version = 0;
    ihl = 0;
    dscp = 0;
    ecn = 0;
    total_len = 0;
    id = 0;
    flags = 0;
    frag_offset = 0;
    ttl = 0;
    protocol = 0;
    checksum = 0;
    src = 0;
    dst = 0;
    options_bit_off = 0;
    options_bit_len = 0;
  };
  ipv6_present = 0;
  ipv6 = record {
    version = 0;
    traffic_class = 0;
    flow_label = 0;
    payload_length = 0;
    next_header = 0;
    hop_limit = 0;
    src_bit_off = 0;
    src_bit_len = 0;
    dst_bit_off = 0;
    dst_bit_len = 0;
  };
  ext_opt_present = 0;
  ext_opt = record { next_header = 0; hdr_ext_len = 0; body_bit_off = 0; body_bit_len = 0 };
  gre_present = 0;
  gre = record {
    c = 0;
    routing = 0;
    key_flag = 0;
    seq_flag = 0;
    reserved = 0;
    version = 0;
    proto = 0;
  };
  gre_opt_present = 0;
  gre_opt = record { body_bit_off = 0; body_bit_len = 0 };
  ext_frag_present = 0;
  ext_frag = record {
    next_header = 0;
    reserved = 0;
    frag_off = 0;
    res2 = 0;
    m_flag = 0;
    identification = 0;
  };
  mpls_present = 0;
  mpls = record { label = 0; tc = 0; s = 0; ttl = 0 };
  tcp_present = 0;
  tcp = record {
    sport = 0;
    dport = 0;
    seq = 0;
    ack = 0;
    data_offset = 0;
    reserved = 0;
    flags = 0;
    window = 0;
    checksum = 0;
    urgent = 0;
    options_bit_off = 0;
    options_bit_len = 0;
  };
  udp_present = 0;
  udp = record { sport = 0; dport = 0; length = 0; checksum = 0 };
  m_is_encap = 0;
}

pub data State : Type 0 where
  parse_ethernet parse_vlan_ad parse_vlan_q parse_ipv4 parse_ipv6 parse_ipv6_opt parse_ipip
        parse_ip6ip parse_gre parse_gre_opt parse_ipv6_frag parse_mpls parse_tcp parse_udp :
      State

abbrev pub 802_1ad_must_be_followed_by_802_1q : ℕ
802_1ad_must_be_followed_by_802_1q = 16

abbrev pub unsupported_ethertype : ℕ
unsupported_ethertype = 17

abbrev pub unsupported_gre_proto : ℕ
unsupported_gre_proto = 18

abbrev pub unsupported_ip_protocol : ℕ
unsupported_ip_protocol = 19

abbrev pub vlan_stacking_beyond_kernel_depth : ℕ
vlan_stacking_beyond_kernel_depth = 20

-- `pk_linux_flow_dissector_reason_str`
unfoldable pub reason_str : ℕ → String
reason_str reason =
    if reason == 1
    then "out of bounds"
    else if reason == 2
    then "max depth exceeded"
    else if reason == 3
    then "no matching select arm"
    else if reason == 4
    then "out of region bounds"
    else if reason == 5
    then "region out of bounds"
    else if reason == 6
    then "region not exhausted"
    else if reason == 16
    then "802.1AD must be followed by 802.1Q"
    else if reason == 17
    then "unsupported ethertype"
    else if reason == 18
    then "unsupported gre proto"
    else if reason == 19
    then "unsupported ip protocol"
    else if reason == 20
    then "vlan stacking beyond kernel depth"
    else ""
