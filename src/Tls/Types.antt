-- ===== src/Tls/Types.antt =====
-- The result of tls_clienthello and its states: benchmarks/industry/tls_clienthello/gen/parser.h, and the state numbers of parser.c.
use pakeles.Base.{ℕ, ◌==◌, if◌then◌else◌}
use Prim.Native.String.{String}

-- `pk_tls_clienthello_record_hdr_t`
pub record RecordHdr : Type 0 where
  pub ctype : ℕ
  pub ver_major : ℕ
  pub ver_minor : ℕ
  pub rlen : ℕ

-- `pk_tls_clienthello_handshake_hdr_t`
pub record HandshakeHdr : Type 0 where
  pub typ : ℕ
  pub hlen : ℕ

-- `pk_tls_clienthello_body_fixed_t`
pub record BodyFixed : Type 0 where
  pub ver : ℕ
  pub random_bit_off : ℕ
  pub random_bit_len : ℕ

-- `pk_tls_clienthello_sid_len_t`
pub record SidLen : Type 0 where
  pub slen : ℕ

-- `pk_tls_clienthello_sid_t`
pub record Sid : Type 0 where
  pub body_bit_off : ℕ
  pub body_bit_len : ℕ

-- `pk_tls_clienthello_cs_len_t`
pub record CsLen : Type 0 where
  pub clen : ℕ

-- `pk_tls_clienthello_cs_t`
pub record Cs : Type 0 where
  pub body_bit_off : ℕ
  pub body_bit_len : ℕ

-- `pk_tls_clienthello_comp_len_t`
pub record CompLen : Type 0 where
  pub plen : ℕ

-- `pk_tls_clienthello_comp_t`
pub record Comp : Type 0 where
  pub body_bit_off : ℕ
  pub body_bit_len : ℕ

-- `pk_tls_clienthello_ext_len_t`
pub record ExtLen : Type 0 where
  pub total : ℕ

-- `pk_tls_clienthello_ext_t`
pub record Ext : Type 0 where
  pub typ : ℕ
  pub elen : ℕ

-- `pk_tls_clienthello_skip_t`
pub record Skip : Type 0 where
  pub body_bit_off : ℕ
  pub body_bit_len : ℕ

-- `pk_tls_clienthello_sni_list_t`
pub record SniList : Type 0 where
  pub list_len : ℕ

-- `pk_tls_clienthello_sni_entry_t`
pub record SniEntry : Type 0 where
  pub ntype : ℕ
  pub hlen : ℕ

-- `pk_tls_clienthello_host_t`
pub record Host : Type 0 where
  pub name_bit_off : ℕ
  pub name_bit_len : ℕ

-- `pk_tls_clienthello_result_t` without its first three fields.
pub record Body : Type 0 where
  pub record_hdr_present : ℕ
  pub record_hdr : RecordHdr
  pub handshake_hdr_present : ℕ
  pub handshake_hdr : HandshakeHdr
  pub body_fixed_present : ℕ
  pub body_fixed : BodyFixed
  pub sid_len_present : ℕ
  pub sid_len : SidLen
  pub sid_present : ℕ
  pub sid : Sid
  pub cs_len_present : ℕ
  pub cs_len : CsLen
  pub cs_present : ℕ
  pub cs : Cs
  pub comp_len_present : ℕ
  pub comp_len : CompLen
  pub comp_present : ℕ
  pub comp : Comp
  pub ext_len_present : ℕ
  pub ext_len : ExtLen
  pub ext_present : ℕ
  pub ext : Ext
  pub skip_present : ℕ
  pub skip : Skip
  pub sni_list_present : ℕ
  pub sni_list : SniList
  pub sni_entry_present : ℕ
  pub sni_entry : SniEntry
  pub host_present : ℕ
  pub host : Host
  pub m_seen_sni : ℕ
  pub m_cs_odd : ℕ

-- `pk_tls_clienthello_result_t zero = {0}`
abbrev pub zero_body : Body
zero_body = record {
  record_hdr_present = 0;
  record_hdr = record { ctype = 0; ver_major = 0; ver_minor = 0; rlen = 0 };
  handshake_hdr_present = 0;
  handshake_hdr = record { typ = 0; hlen = 0 };
  body_fixed_present = 0;
  body_fixed = record { ver = 0; random_bit_off = 0; random_bit_len = 0 };
  sid_len_present = 0;
  sid_len = record { slen = 0 };
  sid_present = 0;
  sid = record { body_bit_off = 0; body_bit_len = 0 };
  cs_len_present = 0;
  cs_len = record { clen = 0 };
  cs_present = 0;
  cs = record { body_bit_off = 0; body_bit_len = 0 };
  comp_len_present = 0;
  comp_len = record { plen = 0 };
  comp_present = 0;
  comp = record { body_bit_off = 0; body_bit_len = 0 };
  ext_len_present = 0;
  ext_len = record { total = 0 };
  ext_present = 0;
  ext = record { typ = 0; elen = 0 };
  skip_present = 0;
  skip = record { body_bit_off = 0; body_bit_len = 0 };
  sni_list_present = 0;
  sni_list = record { list_len = 0 };
  sni_entry_present = 0;
  sni_entry = record { ntype = 0; hlen = 0 };
  host_present = 0;
  host = record { name_bit_off = 0; name_bit_len = 0 };
  m_seen_sni = 0;
  m_cs_odd = 0;
}

pub data State : Type 0 where
  s_record s_recver s_hs s_fixed s_sid_len s_sid s_cs_len s_cs_parity s_cs s_comp_len s_comp
        s_ext_check s_ext_len s_tlv s_ext s_skip s_sni s_sni_list s_sni_entry s_host s_done
        s_done_noext :
      State

abbrev pub duplicate_sni : ℕ
duplicate_sni = 16

abbrev pub empty_cipher_suites : ℕ
empty_cipher_suites = 17

abbrev pub empty_compressions : ℕ
empty_compressions = 18

abbrev pub not_a_client_hello : ℕ
not_a_client_hello = 19

abbrev pub not_a_handshake_record : ℕ
not_a_handshake_record = 20

abbrev pub odd_cipher_suites_length : ℕ
odd_cipher_suites_length = 21

abbrev pub partial_extension_header : ℕ
partial_extension_header = 22

abbrev pub partial_extensions_length : ℕ
partial_extensions_length = 23

abbrev pub session_id_too_long : ℕ
session_id_too_long = 24

abbrev pub unsupported_record_version : ℕ
unsupported_record_version = 25

abbrev pub unsupported_sni_name_type : ℕ
unsupported_sni_name_type = 26

-- `pk_tls_clienthello_reason_str`
unfoldable pub reason_str : ℕ → String
reason_str reason =
    if reason == 1
    then "out of bounds"
    else if reason == 2
    then "max depth exceeded"
    else if reason == 3
    then "no matching select arm"
    else if reason == 4
    then "out of region bounds"
    else if reason == 5
    then "region out of bounds"
    else if reason == 6
    then "region not exhausted"
    else if reason == 16
    then "duplicate sni"
    else if reason == 17
    then "empty cipher suites"
    else if reason == 18
    then "empty compressions"
    else if reason == 19
    then "not a client hello"
    else if reason == 20
    then "not a handshake record"
    else if reason == 21
    then "odd cipher suites length"
    else if reason == 22
    then "partial extension header"
    else if reason == 23
    then "partial extensions length"
    else if reason == 24
    then "session id too long"
    else if reason == 25
    then "unsupported record version"
    else if reason == 26
    then "unsupported sni name type"
    else ""

-- `PK_RMASK`
abbrev pub rmask : ℕ
rmask = 7
