-- ===== src/Tls/Record.antt =====
-- The record and handshake headers and the fixed part of the body.
-- Cases of the `switch` in benchmarks/industry/tls_clienthello/gen/parser.c.
use pakeles.Base.{◌==◌, if◌then◌else◌, u8, u16, u32, mul64}
use pakeles.Core.{M, ◌>>=◌, ◌>>◌, pure, fetch, store, reject, bytes_in, run_of_in, push}
use pakeles.Tls.Types.{
  Body, State, s_recver, s_hs, s_fixed, s_sid_len, not_a_client_hello, not_a_handshake_record,
  unsupported_record_version, rmask,
}

-- `case PK_S_S_RECORD`
unfoldable pub case_s_record : M Body State
case_s_record = do
  store (λ b. record b { record_hdr_present = 1 })
  bytes_in rmask 1 (λ v b. record b { record_hdr = record (b.record_hdr) { ctype = u8 v } })
  bytes_in rmask 1 (λ v b. record b { record_hdr = record (b.record_hdr) { ver_major = u8 v } })
  bytes_in rmask 1 (λ v b. record b { record_hdr = record (b.record_hdr) { ver_minor = u8 v } })
  bytes_in rmask 2 (λ v b. record b { record_hdr = record (b.record_hdr) { rlen = u16 v } })
  rlen ← fetch (λ b. mul64 b.record_hdr.rlen 8)
  push rmask rlen
  key0 ← fetch (λ b. b.record_hdr.ctype)
  if key0 == 22 then pure s_recver else reject not_a_handshake_record

-- `case PK_S_S_RECVER`
unfoldable pub case_s_recver : M Body State
case_s_recver = do
  key0 ← fetch (λ b. b.record_hdr.ver_major)
  if key0 == 3 then pure s_hs else reject unsupported_record_version

-- `case PK_S_S_HS`
unfoldable pub case_s_hs : M Body State
case_s_hs = do
  store (λ b. record b { handshake_hdr_present = 1 })
  bytes_in rmask 1 (λ v b. record b { handshake_hdr = record (b.handshake_hdr) { typ = u8 v } })
  bytes_in rmask 3 (λ v b. record b { handshake_hdr = record (b.handshake_hdr) { hlen = u32 v } })
  rlen ← fetch (λ b. mul64 b.handshake_hdr.hlen 8)
  push rmask rlen
  key0 ← fetch (λ b. b.handshake_hdr.typ)
  if key0 == 1 then pure s_fixed else reject not_a_client_hello

-- `case PK_S_S_FIXED`
unfoldable pub case_s_fixed : M Body State
case_s_fixed = do
  store (λ b. record b { body_fixed_present = 1 })
  bytes_in rmask 2 (λ v b. record b { body_fixed = record (b.body_fixed) { ver = u16 v } })
  vlen ← fetch (λ b. mul64 32 8)
  run_of_in rmask vlen (λ off len b. record b {
    body_fixed = record (b.body_fixed) { random_bit_off = off; random_bit_len = len };
  })
  pure s_sid_len
