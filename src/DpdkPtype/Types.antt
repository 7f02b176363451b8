-- ===== src/DpdkPtype/Types.antt =====
-- The result of dpdk_ptype and its states: benchmarks/industry/dpdk_ptype/gen/parser.h, and the state numbers of parser.c.
use pakeles.Base.{ℕ, ◌==◌, if◌then◌else◌}
use Prim.Native.String.{String}

-- `pk_dpdk_ptype_ethernet_t`
pub record Ethernet : Type 0 where
  pub dst : ℕ
  pub src : ℕ
  pub ethertype : ℕ

-- `pk_dpdk_ptype_vlan_t`
pub record Vlan : Type 0 where
  pub pcp : ℕ
  pub dei : ℕ
  pub vid : ℕ
  pub proto : ℕ

-- `pk_dpdk_ptype_qinq_t`
pub record Qinq : Type 0 where
  pub first_tag : ℕ
  pub tci : ℕ
  pub proto : ℕ

-- `pk_dpdk_ptype_ipv4_t`
pub record Ipv4 : Type 0 where
  pub version : ℕ
  pub ihl : ℕ
  pub dscp : ℕ
  pub ecn : ℕ
  pub total_len : ℕ
  pub id : ℕ
  pub flags_res_df : ℕ
  pub mf_frag_off : ℕ
  pub ttl : ℕ
  pub protocol : ℕ
  pub checksum : ℕ
  pub src : ℕ
  pub dst : ℕ
  pub options_bit_off : ℕ
  pub options_bit_len : ℕ

-- `pk_dpdk_ptype_ipv6_t`
pub record Ipv6 : Type 0 where
  pub version : ℕ
  pub traffic_class : ℕ
  pub flow_label : ℕ
  pub payload_length : ℕ
  pub next_header : ℕ
  pub hop_limit : ℕ
  pub src_bit_off : ℕ
  pub src_bit_len : ℕ
  pub dst_bit_off : ℕ
  pub dst_bit_len : ℕ

-- `pk_dpdk_ptype_ipv6_ext_opt_t`
pub record Ipv6ExtOpt : Type 0 where
  pub next_header : ℕ
  pub hdr_ext_len : ℕ
  pub body_bit_off : ℕ
  pub body_bit_len : ℕ

-- `pk_dpdk_ptype_ipv6_frag_t`
pub record Ipv6Frag : Type 0 where
  pub next_header : ℕ
  pub reserved : ℕ
  pub frag_off : ℕ
  pub res2 : ℕ
  pub m_flag : ℕ
  pub identification : ℕ

-- `pk_dpdk_ptype_gre_t`
pub record Gre : Type 0 where
  pub c : ℕ
  pub r : ℕ
  pub k : ℕ
  pub s : ℕ
  pub reserved : ℕ
  pub version : ℕ
  pub proto : ℕ

-- `pk_dpdk_ptype_gre_opt_t`
pub record GreOpt : Type 0 where
  pub body_bit_off : ℕ
  pub body_bit_len : ℕ

-- `pk_dpdk_ptype_tcp_t`
pub record Tcp : Type 0 where
  pub sport : ℕ
  pub dport : ℕ
  pub seq : ℕ
  pub ack : ℕ
  pub data_offset : ℕ
  pub reserved : ℕ
  pub flags : ℕ
  pub window : ℕ
  pub checksum : ℕ
  pub urgent : ℕ

-- `pk_dpdk_ptype_result_t` without its first three fields.
pub record Body : Type 0 where
  pub ethernet_present : ℕ
  pub ethernet : Ethernet
  pub vlan_present : ℕ
  pub vlan : Vlan
  pub qinq_present : ℕ
  pub qinq : Qinq
  pub ipv4_present : ℕ
  pub ipv4 : Ipv4
  pub ipv6_present : ℕ
  pub ipv6 : Ipv6
  pub ipv6_ext_opt_present : ℕ
  pub ipv6_ext_opt : Ipv6ExtOpt
  pub ipv6_frag_present : ℕ
  pub ipv6_frag : Ipv6Frag
  pub gre_present : ℕ
  pub gre : Gre
  pub gre_opt_present : ℕ
  pub gre_opt : GreOpt
  pub tcp_present : ℕ
  pub tcp : Tcp

-- `pk_dpdk_ptype_result_t zero = {0}`
abbrev pub zero_body : Body
zero_body = record {
  ethernet_present = 0;
  ethernet = record { dst = 0; src = 0; ethertype = 0 };
  vlan_present = 0;
  vlan = record { pcp = 0; dei = 0; vid = 0; proto = 0 };
  qinq_present = 0;
  qinq = record { first_tag = 0; tci = 0; proto = 0 };
  ipv4_present = 0;
  ipv4 = record {
    version = 0;
    ihl = 0;
    dscp = 0;
    ecn = 0;
    total_len = 0;
    id = 0;
    flags_res_df = 0;
    mf_frag_off = 0;
    ttl = 0;
    protocol = 0;
    checksum = 0;
    src = 0;
    dst = 0;
    options_bit_off = 0;
    options_bit_len = 0;
  };
  ipv6_present = 0;
  ipv6 = record {
    version = 0;
    traffic_class = 0;
    flow_label = 0;
    payload_length = 0;
    next_header = 0;
    hop_limit = 0;
    src_bit_off = 0;
    src_bit_len = 0;
    dst_bit_off = 0;
    dst_bit_len = 0;
  };
  ipv6_ext_opt_present = 0;
  ipv6_ext_opt = record { next_header = 0; hdr_ext_len = 0; body_bit_off = 0; body_bit_len = 0 };
  ipv6_frag_present = 0;
  ipv6_frag = record {
    next_header = 0;
    reserved = 0;
    frag_off = 0;
    res2 = 0;
    m_flag = 0;
    identification = 0;
  };
  gre_present = 0;
  gre = record { c = 0; r = 0; k = 0; s = 0; reserved = 0; version = 0; proto = 0 };
  gre_opt_present = 0;
  gre_opt = record { body_bit_off = 0; body_bit_len = 0 };
  tcp_present = 0;
  tcp = record {
    sport = 0;
    dport = 0;
    seq = 0;
    ack = 0;
    data_offset = 0;
    reserved = 0;
    flags = 0;
    window = 0;
    checksum = 0;
    urgent = 0;
  };
}

pub data State : Type 0 where
  parse_ethernet parse_vlan parse_qinq parse_ipv4 parse_ipv6 parse_ext_opt1 parse_ext_opt2
        parse_ext_opt3 parse_ext_opt4 parse_ext_opt5 parse_ext_frag parse_gre parse_gre_opt
        parse_tcp parse_inner_ethernet parse_inner_vlan parse_inner_qinq parse_inner_ipv4
        parse_inner_ipv6 parse_inner_ext_opt1 parse_inner_ext_opt2 parse_inner_ext_opt3
        parse_inner_ext_opt4 parse_inner_ext_opt5 parse_inner_ext_frag parse_inner_tcp :
      State

-- `pk_dpdk_ptype_reason_str`
unfoldable pub reason_str : ℕ → String
reason_str reason =
    if reason == 1
    then "out of bounds"
    else if reason == 2
    then "max depth exceeded"
    else if reason == 3
    then "no matching select arm"
    else if reason == 4
    then "out of region bounds"
    else if reason == 5
    then "region out of bounds"
    else if reason == 6
    then "region not exhausted"
    else ""
