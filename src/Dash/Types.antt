-- ===== src/Dash/Types.antt =====
-- The result of dash_parser and its states: benchmarks/industry/dash_parser/gen/parser.h, and the state numbers of parser.c.
use pakeles.Base.{ℕ, ◌==◌, if◌then◌else◌}
use Prim.Native.String.{String}

-- `pk_dash_parser_u0_ethernet_t`
pub record U0Ethernet : Type 0 where
  pub dst_addr : ℕ
  pub src_addr : ℕ
  pub ether_type : ℕ

-- `pk_dash_parser_packet_meta_t`
pub record PacketMeta : Type 0 where
  pub packet_source : ℕ
  pub packet_type : ℕ
  pub packet_subtype : ℕ
  pub length : ℕ

-- `pk_dash_parser_flow_key_t`
pub record FlowKey : Type 0 where
  pub eni_mac : ℕ
  pub vnet_id : ℕ
  pub src_ip_bit_off : ℕ
  pub src_ip_bit_len : ℕ
  pub dst_ip_bit_off : ℕ
  pub dst_ip_bit_len : ℕ
  pub src_port : ℕ
  pub dst_port : ℕ
  pub ip_proto : ℕ
  pub reserved : ℕ
  pub is_ip_v6 : ℕ

-- `pk_dash_parser_flow_data_t`
pub record FlowData : Type 0 where
  pub reserved : ℕ
  pub is_unidirectional : ℕ
  pub direction : ℕ
  pub version : ℕ
  pub actions : ℕ
  pub meter_class : ℕ
  pub idle_timeout_in_ms : ℕ

-- `pk_dash_parser_flow_overlay_data_t`
pub record FlowOverlayData : Type 0 where
  pub dmac : ℕ
  pub sip_bit_off : ℕ
  pub sip_bit_len : ℕ
  pub dip_bit_off : ℕ
  pub dip_bit_len : ℕ
  pub sip_mask_bit_off : ℕ
  pub sip_mask_bit_len : ℕ
  pub dip_mask_bit_off : ℕ
  pub dip_mask_bit_len : ℕ
  pub sport : ℕ
  pub dport : ℕ
  pub reserved : ℕ
  pub is_ipv6 : ℕ

-- `pk_dash_parser_flow_u0_encap_data_t`
pub record FlowU0EncapData : Type 0 where
  pub vni : ℕ
  pub reserved : ℕ
  pub underlay_sip : ℕ
  pub underlay_dip : ℕ
  pub underlay_smac : ℕ
  pub underlay_dmac : ℕ
  pub dash_encapsulation : ℕ

-- `pk_dash_parser_flow_u1_encap_data_t`
pub record FlowU1EncapData : Type 0 where
  pub vni : ℕ
  pub reserved : ℕ
  pub underlay_sip : ℕ
  pub underlay_dip : ℕ
  pub underlay_smac : ℕ
  pub underlay_dmac : ℕ
  pub dash_encapsulation : ℕ

-- `pk_dash_parser_u0_ipv4_t`
pub record U0Ipv4 : Type 0 where
  pub version : ℕ
  pub ihl : ℕ
  pub diffserv : ℕ
  pub total_len : ℕ
  pub identification : ℕ
  pub flags : ℕ
  pub frag_offset : ℕ
  pub ttl : ℕ
  pub protocol : ℕ
  pub hdr_checksum : ℕ
  pub src_addr : ℕ
  pub dst_addr : ℕ

-- `pk_dash_parser_u0_ipv4options_t`
pub record U0Ipv4options : Type 0 where
  pub options_bit_off : ℕ
  pub options_bit_len : ℕ

-- `pk_dash_parser_u0_ipv6_t`
pub record U0Ipv6 : Type 0 where
  pub version : ℕ
  pub traffic_class : ℕ
  pub flow_label : ℕ
  pub payload_length : ℕ
  pub next_header : ℕ
  pub hop_limit : ℕ
  pub src_addr_hi : ℕ
  pub src_addr_lo : ℕ
  pub dst_addr_hi : ℕ
  pub dst_addr_lo : ℕ

-- `pk_dash_parser_u0_udp_t`
pub record U0Udp : Type 0 where
  pub src_port : ℕ
  pub dst_port : ℕ
  pub length : ℕ
  pub checksum : ℕ

-- `pk_dash_parser_u0_tcp_t`
pub record U0Tcp : Type 0 where
  pub src_port : ℕ
  pub dst_port : ℕ
  pub seq_no : ℕ
  pub ack_no : ℕ
  pub data_offset : ℕ
  pub res : ℕ
  pub ecn : ℕ
  pub flags : ℕ
  pub window : ℕ
  pub checksum : ℕ
  pub urgent_ptr : ℕ

-- `pk_dash_parser_u0_vxlan_t`
pub record U0Vxlan : Type 0 where
  pub flags : ℕ
  pub reserved : ℕ
  pub vni : ℕ
  pub reserved_2 : ℕ

-- `pk_dash_parser_customer_ethernet_t`
pub record CustomerEthernet : Type 0 where
  pub dst_addr : ℕ
  pub src_addr : ℕ
  pub ether_type : ℕ

-- `pk_dash_parser_customer_ipv4_t`
pub record CustomerIpv4 : Type 0 where
  pub version : ℕ
  pub ihl : ℕ
  pub diffserv : ℕ
  pub total_len : ℕ
  pub identification : ℕ
  pub flags : ℕ
  pub frag_offset : ℕ
  pub ttl : ℕ
  pub protocol : ℕ
  pub hdr_checksum : ℕ
  pub src_addr : ℕ
  pub dst_addr : ℕ

-- `pk_dash_parser_customer_ipv6_t`
pub record CustomerIpv6 : Type 0 where
  pub version : ℕ
  pub traffic_class : ℕ
  pub flow_label : ℕ
  pub payload_length : ℕ
  pub next_header : ℕ
  pub hop_limit : ℕ
  pub src_addr_hi : ℕ
  pub src_addr_lo : ℕ
  pub dst_addr_hi : ℕ
  pub dst_addr_lo : ℕ

-- `pk_dash_parser_customer_udp_t`
pub record CustomerUdp : Type 0 where
  pub src_port : ℕ
  pub dst_port : ℕ
  pub length : ℕ
  pub checksum : ℕ

-- `pk_dash_parser_customer_tcp_t`
pub record CustomerTcp : Type 0 where
  pub src_port : ℕ
  pub dst_port : ℕ
  pub seq_no : ℕ
  pub ack_no : ℕ
  pub data_offset : ℕ
  pub res : ℕ
  pub ecn : ℕ
  pub flags : ℕ
  pub window : ℕ
  pub checksum : ℕ
  pub urgent_ptr : ℕ

-- `pk_dash_parser_result_t` without its first three fields.
pub record Body : Type 0 where
  pub u0_ethernet_present : ℕ
  pub u0_ethernet : U0Ethernet
  pub packet_meta_present : ℕ
  pub packet_meta : PacketMeta
  pub flow_key_present : ℕ
  pub flow_key : FlowKey
  pub flow_data_present : ℕ
  pub flow_data : FlowData
  pub flow_overlay_data_present : ℕ
  pub flow_overlay_data : FlowOverlayData
  pub flow_u0_encap_data_present : ℕ
  pub flow_u0_encap_data : FlowU0EncapData
  pub flow_u1_encap_data_present : ℕ
  pub flow_u1_encap_data : FlowU1EncapData
  pub u0_ipv4_present : ℕ
  pub u0_ipv4 : U0Ipv4
  pub u0_ipv4options_present : ℕ
  pub u0_ipv4options : U0Ipv4options
  pub u0_ipv6_present : ℕ
  pub u0_ipv6 : U0Ipv6
  pub u0_udp_present : ℕ
  pub u0_udp : U0Udp
  pub u0_tcp_present : ℕ
  pub u0_tcp : U0Tcp
  pub u0_vxlan_present : ℕ
  pub u0_vxlan : U0Vxlan
  pub customer_ethernet_present : ℕ
  pub customer_ethernet : CustomerEthernet
  pub customer_ipv4_present : ℕ
  pub customer_ipv4 : CustomerIpv4
  pub customer_ipv6_present : ℕ
  pub customer_ipv6 : CustomerIpv6
  pub customer_udp_present : ℕ
  pub customer_udp : CustomerUdp
  pub customer_tcp_present : ℕ
  pub customer_tcp : CustomerTcp

-- `pk_dash_parser_result_t zero = {0}`
abbrev pub zero_body : Body
zero_body = record {
  u0_ethernet_present = 0;
  u0_ethernet = record { dst_addr = 0; src_addr = 0; ether_type = 0 };
  packet_meta_present = 0;
  packet_meta = record { packet_source = 0; packet_type = 0; packet_subtype = 0; length = 0 };
  flow_key_present = 0;
  flow_key = record {
    eni_mac = 0;
    vnet_id = 0;
    src_ip_bit_off = 0;
    src_ip_bit_len = 0;
    dst_ip_bit_off = 0;
    dst_ip_bit_len = 0;
    src_port = 0;
    dst_port = 0;
    ip_proto = 0;
    reserved = 0;
    is_ip_v6 = 0;
  };
  flow_data_present = 0;
  flow_data = record {
    reserved = 0;
    is_unidirectional = 0;
    direction = 0;
    version = 0;
    actions = 0;
    meter_class = 0;
    idle_timeout_in_ms = 0;
  };
  flow_overlay_data_present = 0;
  flow_overlay_data = record {
    dmac = 0;
    sip_bit_off = 0;
    sip_bit_len = 0;
    dip_bit_off = 0;
    dip_bit_len = 0;
    sip_mask_bit_off = 0;
    sip_mask_bit_len = 0;
    dip_mask_bit_off = 0;
    dip_mask_bit_len = 0;
    sport = 0;
    dport = 0;
    reserved = 0;
    is_ipv6 = 0;
  };
  flow_u0_encap_data_present = 0;
  flow_u0_encap_data = record {
    vni = 0;
    reserved = 0;
    underlay_sip = 0;
    underlay_dip = 0;
    underlay_smac = 0;
    underlay_dmac = 0;
    dash_encapsulation = 0;
  };
  flow_u1_encap_data_present = 0;
  flow_u1_encap_data = record {
    vni = 0;
    reserved = 0;
    underlay_sip = 0;
    underlay_dip = 0;
    underlay_smac = 0;
    underlay_dmac = 0;
    dash_encapsulation = 0;
  };
  u0_ipv4_present = 0;
  u0_ipv4 = record {
    version = 0;
    ihl = 0;
    diffserv = 0;
    total_len = 0;
    identification = 0;
    flags = 0;
    frag_offset = 0;
    ttl = 0;
    protocol = 0;
    hdr_checksum = 0;
    src_addr = 0;
    dst_addr = 0;
  };
  u0_ipv4options_present = 0;
  u0_ipv4options = record { options_bit_off = 0; options_bit_len = 0 };
  u0_ipv6_present = 0;
  u0_ipv6 = record {
    version = 0;
    traffic_class = 0;
    flow_label = 0;
    payload_length = 0;
    next_header = 0;
    hop_limit = 0;
    src_addr_hi = 0;
    src_addr_lo = 0;
    dst_addr_hi = 0;
    dst_addr_lo = 0;
  };
  u0_udp_present = 0;
  u0_udp = record { src_port = 0; dst_port = 0; length = 0; checksum = 0 };
  u0_tcp_present = 0;
  u0_tcp = record {
    src_port = 0;
    dst_port = 0;
    seq_no = 0;
    ack_no = 0;
    data_offset = 0;
    res = 0;
    ecn = 0;
    flags = 0;
    window = 0;
    checksum = 0;
    urgent_ptr = 0;
  };
  u0_vxlan_present = 0;
  u0_vxlan = record { flags = 0; reserved = 0; vni = 0; reserved_2 = 0 };
  customer_ethernet_present = 0;
  customer_ethernet = record { dst_addr = 0; src_addr = 0; ether_type = 0 };
  customer_ipv4_present = 0;
  customer_ipv4 = record {
    version = 0;
    ihl = 0;
    diffserv = 0;
    total_len = 0;
    identification = 0;
    flags = 0;
    frag_offset = 0;
    ttl = 0;
    protocol = 0;
    hdr_checksum = 0;
    src_addr = 0;
    dst_addr = 0;
  };
  customer_ipv6_present = 0;
  customer_ipv6 = record {
    version = 0;
    traffic_class = 0;
    flow_label = 0;
    payload_length = 0;
    next_header = 0;
    hop_limit = 0;
    src_addr_hi = 0;
    src_addr_lo = 0;
    dst_addr_hi = 0;
    dst_addr_lo = 0;
  };
  customer_udp_present = 0;
  customer_udp = record { src_port = 0; dst_port = 0; length = 0; checksum = 0 };
  customer_tcp_present = 0;
  customer_tcp = record {
    src_port = 0;
    dst_port = 0;
    seq_no = 0;
    ack_no = 0;
    data_offset = 0;
    res = 0;
    ecn = 0;
    flags = 0;
    window = 0;
    checksum = 0;
    urgent_ptr = 0;
  };
}

pub data State : Type 0 where
  parse_u0_ethernet parse_dash_hdr parse_flow_key parse_flow_data parse_flow_overlay_data
        parse_flow_encap_u0 parse_flow_encap_u1 parse_flow_encap_u0_u1 parse_u0_ipv4
        parse_u0_ipv4_ihl parse_u0_ipv4options dispatch_on_u0_protocol parse_u0_ipv6 parse_u0_udp
        parse_u0_tcp parse_u0_vxlan parse_customer_ethernet parse_customer_ipv4
        parse_customer_ipv4_ihl dispatch_on_customer_protocol parse_customer_ipv6 parse_customer_udp
        parse_customer_tcp :
      State

abbrev pub ipv4incorrectversion : ℕ
ipv4incorrectversion = 16

abbrev pub ipv4optionsnotsupported : ℕ
ipv4optionsnotsupported = 17

abbrev pub invalidipv4header : ℕ
invalidipv4header = 18

-- `pk_dash_parser_reason_str`
unfoldable pub reason_str : ℕ → String
reason_str reason =
    if reason == 1
    then "out of bounds"
    else if reason == 2
    then "max depth exceeded"
    else if reason == 3
    then "no matching select arm"
    else if reason == 4
    then "out of region bounds"
    else if reason == 5
    then "region out of bounds"
    else if reason == 6
    then "region not exhausted"
    else if reason == 16
    then "IPv4IncorrectVersion"
    else if reason == 17
    then "IPv4OptionsNotSupported"
    else if reason == 18
    then "InvalidIPv4Header"
    else ""
