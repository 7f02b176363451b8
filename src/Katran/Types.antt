-- ===== src/Katran/Types.antt =====
-- The result of katran_parser and its states: benchmarks/industry/katran_parser/gen/parser.h, and the state numbers of parser.c.
use pakeles.Base.{ℕ, ◌==◌, if◌then◌else◌}
use Prim.Native.String.{String}

-- `pk_katran_parser_ethernet_t`
pub record Ethernet : Type 0 where
  pub dst : ℕ
  pub src : ℕ
  pub ethertype : ℕ

-- `pk_katran_parser_ipv4_t`
pub record Ipv4 : Type 0 where
  pub version : ℕ
  pub ihl : ℕ
  pub dscp : ℕ
  pub ecn : ℕ
  pub total_len : ℕ
  pub id : ℕ
  pub flags_res_df : ℕ
  pub mf_frag_off : ℕ
  pub ttl : ℕ
  pub protocol : ℕ
  pub checksum : ℕ
  pub src : ℕ
  pub dst : ℕ

-- `pk_katran_parser_ipv6_t`
pub record Ipv6 : Type 0 where
  pub version : ℕ
  pub traffic_class : ℕ
  pub flow_label : ℕ
  pub payload_length : ℕ
  pub next_header : ℕ
  pub hop_limit : ℕ
  pub src_bit_off : ℕ
  pub src_bit_len : ℕ
  pub dst_bit_off : ℕ
  pub dst_bit_len : ℕ

-- `pk_katran_parser_icmp_t`
pub record Icmp : Type 0 where
  pub type : ℕ
  pub code : ℕ
  pub checksum : ℕ
  pub rest : ℕ

-- `pk_katran_parser_inner_ipv4_t`
pub record InnerIpv4 : Type 0 where
  pub version : ℕ
  pub ihl : ℕ
  pub dscp : ℕ
  pub ecn : ℕ
  pub total_len : ℕ
  pub id : ℕ
  pub flags_res_df : ℕ
  pub mf_frag_off : ℕ
  pub ttl : ℕ
  pub protocol : ℕ
  pub checksum : ℕ
  pub src : ℕ
  pub dst : ℕ

-- `pk_katran_parser_tcp_t`
pub record Tcp : Type 0 where
  pub sport : ℕ
  pub dport : ℕ
  pub seq : ℕ
  pub ack : ℕ
  pub data_offset : ℕ
  pub reserved : ℕ
  pub flags : ℕ
  pub window : ℕ
  pub checksum : ℕ
  pub urgent : ℕ

-- `pk_katran_parser_udp_t`
pub record Udp : Type 0 where
  pub sport : ℕ
  pub dport : ℕ
  pub length : ℕ
  pub checksum : ℕ

-- `pk_katran_parser_result_t` without its first three fields.
pub record Body : Type 0 where
  pub ethernet_present : ℕ
  pub ethernet : Ethernet
  pub ipv4_present : ℕ
  pub ipv4 : Ipv4
  pub ipv6_present : ℕ
  pub ipv6 : Ipv6
  pub icmp_present : ℕ
  pub icmp : Icmp
  pub inner_ipv4_present : ℕ
  pub inner_ipv4 : InnerIpv4
  pub tcp_present : ℕ
  pub tcp : Tcp
  pub udp_present : ℕ
  pub udp : Udp
  pub m_is_icmp : ℕ

-- `pk_katran_parser_result_t zero = {0}`
abbrev pub zero_body : Body
zero_body = record {
  ethernet_present = 0;
  ethernet = record { dst = 0; src = 0; ethertype = 0 };
  ipv4_present = 0;
  ipv4 = record {
    version = 0;
    ihl = 0;
    dscp = 0;
    ecn = 0;
    total_len = 0;
    id = 0;
    flags_res_df = 0;
    mf_frag_off = 0;
    ttl = 0;
    protocol = 0;
    checksum = 0;
    src = 0;
    dst = 0;
  };
  ipv6_present = 0;
  ipv6 = record {
    version = 0;
    traffic_class = 0;
    flow_label = 0;
    payload_length = 0;
    next_header = 0;
    hop_limit = 0;
    src_bit_off = 0;
    src_bit_len = 0;
    dst_bit_off = 0;
    dst_bit_len = 0;
  };
  icmp_present = 0;
  icmp = record { type = 0; code = 0; checksum = 0; rest = 0 };
  inner_ipv4_present = 0;
  inner_ipv4 = record {
    version = 0;
    ihl = 0;
    dscp = 0;
    ecn = 0;
    total_len = 0;
    id = 0;
    flags_res_df = 0;
    mf_frag_off = 0;
    ttl = 0;
    protocol = 0;
    checksum = 0;
    src = 0;
    dst = 0;
  };
  tcp_present = 0;
  tcp = record {
    sport = 0;
    dport = 0;
    seq = 0;
    ack = 0;
    data_offset = 0;
    reserved = 0;
    flags = 0;
    window = 0;
    checksum = 0;
    urgent = 0;
  };
  udp_present = 0;
  udp = record { sport = 0; dport = 0; length = 0; checksum = 0 };
  m_is_icmp = 0;
}

pub data State : Type 0 where
  parse_ethernet parse_ipv4 parse_ipv4_proto parse_ipv6 parse_icmp parse_icmp6 parse_inner_ipv4
        parse_inner_ipv4_proto parse_inner_ipv6 parse_tcp parse_udp :
      State

abbrev pub inner_ipv4_ihl_5 : ℕ
inner_ipv4_ihl_5 = 16

abbrev pub ipv4_ihl_5_or_fragmented : ℕ
ipv4_ihl_5_or_fragmented = 17

abbrev pub ipv6_fragment : ℕ
ipv6_fragment = 18

-- `pk_katran_parser_reason_str`
unfoldable pub reason_str : ℕ → String
reason_str reason =
    if reason == 1
    then "out of bounds"
    else if reason == 2
    then "max depth exceeded"
    else if reason == 3
    then "no matching select arm"
    else if reason == 4
    then "out of region bounds"
    else if reason == 5
    then "region out of bounds"
    else if reason == 6
    then "region not exhausted"
    else if reason == 16
    then "inner ipv4 ihl!=5"
    else if reason == 17
    then "ipv4 ihl!=5 or fragmented"
    else if reason == 18
    then "ipv6 fragment"
    else ""
