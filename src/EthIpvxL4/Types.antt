-- ===== src/EthIpvxL4/Types.antt =====
-- The result of eth_ipvx_l4 and its states: examples/eth_ipvx_l4/gen/parser.h, and the state numbers of parser.c.
use pakeles.Base.{ℕ, ◌==◌, if◌then◌else◌}
use Prim.Native.String.{String}

-- `pk_eth_ipvx_l4_ethernet_t`
pub record Ethernet : Type 0 where
  pub dst : ℕ
  pub src : ℕ
  pub ethertype : ℕ

-- `pk_eth_ipvx_l4_ipv4_t`
pub record Ipv4 : Type 0 where
  pub version : ℕ
  pub ihl : ℕ
  pub dscp : ℕ
  pub ecn : ℕ
  pub total_len : ℕ
  pub id : ℕ
  pub flags : ℕ
  pub frag_offset : ℕ
  pub ttl : ℕ
  pub protocol : ℕ
  pub checksum : ℕ
  pub src : ℕ
  pub dst : ℕ
  pub options_bit_off : ℕ
  pub options_bit_len : ℕ

-- `pk_eth_ipvx_l4_ipv6_t`
pub record Ipv6 : Type 0 where
  pub version : ℕ
  pub traffic_class : ℕ
  pub flow_label : ℕ
  pub payload_length : ℕ
  pub next_header : ℕ
  pub hop_limit : ℕ
  pub src_bit_off : ℕ
  pub src_bit_len : ℕ
  pub dst_bit_off : ℕ
  pub dst_bit_len : ℕ

-- `pk_eth_ipvx_l4_tcp_t`
pub record Tcp : Type 0 where
  pub sport : ℕ
  pub dport : ℕ
  pub seq : ℕ
  pub ack : ℕ
  pub data_offset : ℕ
  pub reserved : ℕ
  pub flags : ℕ
  pub window : ℕ
  pub checksum : ℕ
  pub urgent : ℕ

-- `pk_eth_ipvx_l4_udp_t`
pub record Udp : Type 0 where
  pub sport : ℕ
  pub dport : ℕ
  pub length : ℕ
  pub checksum : ℕ

-- `pk_eth_ipvx_l4_result_t` without its first three fields.
pub record Body : Type 0 where
  pub ethernet_present : ℕ
  pub ethernet : Ethernet
  pub ipv4_present : ℕ
  pub ipv4 : Ipv4
  pub ipv6_present : ℕ
  pub ipv6 : Ipv6
  pub tcp_present : ℕ
  pub tcp : Tcp
  pub udp_present : ℕ
  pub udp : Udp

-- `pk_eth_ipvx_l4_result_t zero = {0}`
abbrev pub zero_body : Body
zero_body = record {
  ethernet_present = 0;
  ethernet = record { dst = 0; src = 0; ethertype = 0 };
  ipv4_present = 0;
  ipv4 = record {
    version = 0;
    ihl = 0;
    dscp = 0;
    ecn = 0;
    total_len = 0;
    id = 0;
    flags = 0;
    frag_offset = 0;
    ttl = 0;
    protocol = 0;
    checksum = 0;
    src = 0;
    dst = 0;
    options_bit_off = 0;
    options_bit_len = 0;
  };
  ipv6_present = 0;
  ipv6 = record {
    version = 0;
    traffic_class = 0;
    flow_label = 0;
    payload_length = 0;
    next_header = 0;
    hop_limit = 0;
    src_bit_off = 0;
    src_bit_len = 0;
    dst_bit_off = 0;
    dst_bit_len = 0;
  };
  tcp_present = 0;
  tcp = record {
    sport = 0;
    dport = 0;
    seq = 0;
    ack = 0;
    data_offset = 0;
    reserved = 0;
    flags = 0;
    window = 0;
    checksum = 0;
    urgent = 0;
  };
  udp_present = 0;
  udp = record { sport = 0; dport = 0; length = 0; checksum = 0 };
}

pub data State : Type 0 where
  parse_ethernet parse_ipv4 parse_ipv6 parse_tcp parse_udp : State

abbrev pub unsupported_ethertype : ℕ
unsupported_ethertype = 16

abbrev pub unsupported_ip_protocol : ℕ
unsupported_ip_protocol = 17

-- `pk_eth_ipvx_l4_reason_str`
unfoldable pub reason_str : ℕ → String
reason_str reason =
    if reason == 1
    then "out of bounds"
    else if reason == 2
    then "max depth exceeded"
    else if reason == 3
    then "no matching select arm"
    else if reason == 4
    then "out of region bounds"
    else if reason == 5
    then "region out of bounds"
    else if reason == 6
    then "region not exhausted"
    else if reason == 16
    then "unsupported ethertype"
    else if reason == 17
    then "unsupported ip protocol"
    else ""
