-- ===== src/Tls/ServerName.antt =====
-- The server name extension.
-- Cases of the `switch` in benchmarks/industry/tls_clienthello/gen/parser.c.
use pakeles.Base.{◌==◌, if◌then◌else◌, bit_and, u8, u16, mul64}
use pakeles.Core.{M, ◌>>=◌, ◌>>◌, pure, fetch, store, reject, bytes_in, run_of_in, push, pop}
use pakeles.Tls.Types.{
  Body, State, s_tlv, s_sni_list, s_sni_entry, s_host, unsupported_sni_name_type, rmask,
}

-- `case PK_S_S_SNI`
unfoldable pub case_s_sni : M Body State
case_s_sni = do
  store (λ b. record b { m_seen_sni = bit_and 1 0x1 })
  rlen ← fetch (λ b. mul64 b.ext.elen 8)
  push rmask rlen
  pure s_sni_list

-- `case PK_S_S_SNI_LIST`
unfoldable pub case_s_sni_list : M Body State
case_s_sni_list = do
  store (λ b. record b { sni_list_present = 1 })
  bytes_in rmask 2 (λ v b. record b { sni_list = record (b.sni_list) { list_len = u16 v } })
  rlen ← fetch (λ b. mul64 b.sni_list.list_len 8)
  push rmask rlen
  pure s_sni_entry

-- `case PK_S_S_SNI_ENTRY`
unfoldable pub case_s_sni_entry : M Body State
case_s_sni_entry = do
  store (λ b. record b { sni_entry_present = 1 })
  bytes_in rmask 1 (λ v b. record b { sni_entry = record (b.sni_entry) { ntype = u8 v } })
  bytes_in rmask 2 (λ v b. record b { sni_entry = record (b.sni_entry) { hlen = u16 v } })
  key0 ← fetch (λ b. b.sni_entry.ntype)
  if key0 == 0 then pure s_host else reject unsupported_sni_name_type

-- `case PK_S_S_HOST`
unfoldable pub case_s_host : M Body State
case_s_host = do
  store (λ b. record b { host_present = 1 })
  vlen ← fetch (λ b. mul64 b.sni_entry.hlen 8)
  run_of_in rmask vlen
      (λ off len b. record b { host = record (b.host) { name_bit_off = off; name_bit_len = len } })
  pop rmask
  pop rmask
  pure s_tlv
