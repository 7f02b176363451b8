-- ===== src/Sai/Types.antt =====
-- The result of sai_parser and its states: benchmarks/industry/sai_parser/gen/parser.h, and the state numbers of parser.c.
use pakeles.Base.{ℕ, ◌==◌, if◌then◌else◌}
use Prim.Native.String.{String}

-- `pk_sai_parser_ethernet_t`
pub record Ethernet : Type 0 where
  pub dst : ℕ
  pub src : ℕ
  pub ether_type : ℕ

-- `pk_sai_parser_vlan_t`
pub record Vlan : Type 0 where
  pub pcp : ℕ
  pub dei : ℕ
  pub vid : ℕ
  pub ether_type : ℕ

-- `pk_sai_parser_ipv4_t`
pub record Ipv4 : Type 0 where
  pub version : ℕ
  pub ihl : ℕ
  pub dscp : ℕ
  pub ecn : ℕ
  pub total_len : ℕ
  pub identification : ℕ
  pub flags : ℕ
  pub frag_offset : ℕ
  pub ttl : ℕ
  pub protocol : ℕ
  pub header_checksum : ℕ
  pub src_addr : ℕ
  pub dst_addr : ℕ

-- `pk_sai_parser_ipv6_t`
pub record Ipv6 : Type 0 where
  pub version : ℕ
  pub traffic_class : ℕ
  pub flow_label : ℕ
  pub payload_length : ℕ
  pub next_header : ℕ
  pub hop_limit : ℕ
  pub src_addr_bit_off : ℕ
  pub src_addr_bit_len : ℕ
  pub dst_addr_bit_off : ℕ
  pub dst_addr_bit_len : ℕ

-- `pk_sai_parser_arp_t`
pub record Arp : Type 0 where
  pub hw_type : ℕ
  pub proto_type : ℕ
  pub hw_addr_len : ℕ
  pub proto_addr_len : ℕ
  pub opcode : ℕ
  pub sender_hw : ℕ
  pub sender_proto : ℕ
  pub target_hw : ℕ
  pub target_proto : ℕ

-- `pk_sai_parser_icmp_t`
pub record Icmp : Type 0 where
  pub type : ℕ
  pub code : ℕ
  pub checksum : ℕ
  pub rest : ℕ

-- `pk_sai_parser_tcp_t`
pub record Tcp : Type 0 where
  pub src_port : ℕ
  pub dst_port : ℕ
  pub seq : ℕ
  pub ack : ℕ
  pub data_offset : ℕ
  pub reserved : ℕ
  pub flags : ℕ
  pub window : ℕ
  pub checksum : ℕ
  pub urgent : ℕ

-- `pk_sai_parser_udp_t`
pub record Udp : Type 0 where
  pub src_port : ℕ
  pub dst_port : ℕ
  pub length : ℕ
  pub checksum : ℕ

-- `pk_sai_parser_result_t` without its first three fields.
pub record Body : Type 0 where
  pub ethernet_present : ℕ
  pub ethernet : Ethernet
  pub vlan_present : ℕ
  pub vlan : Vlan
  pub ipv4_present : ℕ
  pub ipv4 : Ipv4
  pub ipv6_present : ℕ
  pub ipv6 : Ipv6
  pub arp_present : ℕ
  pub arp : Arp
  pub icmp_present : ℕ
  pub icmp : Icmp
  pub tcp_present : ℕ
  pub tcp : Tcp
  pub udp_present : ℕ
  pub udp : Udp

-- `pk_sai_parser_result_t zero = {0}`
abbrev pub zero_body : Body
zero_body = record {
  ethernet_present = 0;
  ethernet = record { dst = 0; src = 0; ether_type = 0 };
  vlan_present = 0;
  vlan = record { pcp = 0; dei = 0; vid = 0; ether_type = 0 };
  ipv4_present = 0;
  ipv4 = record {
    version = 0;
    ihl = 0;
    dscp = 0;
    ecn = 0;
    total_len = 0;
    identification = 0;
    flags = 0;
    frag_offset = 0;
    ttl = 0;
    protocol = 0;
    header_checksum = 0;
    src_addr = 0;
    dst_addr = 0;
  };
  ipv6_present = 0;
  ipv6 = record {
    version = 0;
    traffic_class = 0;
    flow_label = 0;
    payload_length = 0;
    next_header = 0;
    hop_limit = 0;
    src_addr_bit_off = 0;
    src_addr_bit_len = 0;
    dst_addr_bit_off = 0;
    dst_addr_bit_len = 0;
  };
  arp_present = 0;
  arp = record {
    hw_type = 0;
    proto_type = 0;
    hw_addr_len = 0;
    proto_addr_len = 0;
    opcode = 0;
    sender_hw = 0;
    sender_proto = 0;
    target_hw = 0;
    target_proto = 0;
  };
  icmp_present = 0;
  icmp = record { type = 0; code = 0; checksum = 0; rest = 0 };
  tcp_present = 0;
  tcp = record {
    src_port = 0;
    dst_port = 0;
    seq = 0;
    ack = 0;
    data_offset = 0;
    reserved = 0;
    flags = 0;
    window = 0;
    checksum = 0;
    urgent = 0;
  };
  udp_present = 0;
  udp = record { src_port = 0; dst_port = 0; length = 0; checksum = 0 };
}

pub data State : Type 0 where
  parse_ethernet parse_vlan parse_ipv4 parse_ipv6 parse_arp parse_icmp parse_tcp parse_udp : State

-- `pk_sai_parser_reason_str`
unfoldable pub reason_str : ℕ → String
reason_str reason =
    if reason == 1
    then "out of bounds"
    else if reason == 2
    then "max depth exceeded"
    else if reason == 3
    then "no matching select arm"
    else if reason == 4
    then "out of region bounds"
    else if reason == 5
    then "region out of bounds"
    else if reason == 6
    then "region not exhausted"
    else ""
