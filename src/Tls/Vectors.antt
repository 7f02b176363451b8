-- ===== src/Tls/Vectors.antt =====
-- Session identifier, cipher suites and compression methods.
-- Cases of the `switch` in benchmarks/industry/tls_clienthello/gen/parser.c.
use pakeles.Base.{◌==◌, if◌then◌else◌, leb, bit_and, u8, u16, mul64}
use pakeles.Core.{M, ◌>>=◌, ◌>>◌, pure, fetch, store, reject, bytes_in, run_of_in}
use pakeles.Tls.Types.{
  Body, State, s_sid, s_cs_len, s_cs_parity, s_cs, s_comp_len, s_comp, s_ext_check,
  empty_cipher_suites, empty_compressions, odd_cipher_suites_length, session_id_too_long, rmask,
}

-- `case PK_S_S_SID_LEN`
unfoldable pub case_s_sid_len : M Body State
case_s_sid_len = do
  store (λ b. record b { sid_len_present = 1 })
  bytes_in rmask 1 (λ v b. record b { sid_len = record (b.sid_len) { slen = u8 v } })
  key0 ← fetch (λ b. b.sid_len.slen)
  if leb key0 32 then pure s_sid else reject session_id_too_long

-- `case PK_S_S_SID`
unfoldable pub case_s_sid : M Body State
case_s_sid = do
  store (λ b. record b { sid_present = 1 })
  vlen ← fetch (λ b. mul64 b.sid_len.slen 8)
  run_of_in rmask vlen
      (λ off len b. record b { sid = record (b.sid) { body_bit_off = off; body_bit_len = len } })
  pure s_cs_len

-- `case PK_S_S_CS_LEN`
unfoldable pub case_s_cs_len : M Body State
case_s_cs_len = do
  store (λ b. record b { cs_len_present = 1 })
  bytes_in rmask 2 (λ v b. record b { cs_len = record (b.cs_len) { clen = u16 v } })
  store (λ b. record b { m_cs_odd = bit_and (bit_and b.cs_len.clen 1) 0x1 })
  key0 ← fetch (λ b. b.cs_len.clen)
  if key0 == 0 then reject empty_cipher_suites else pure s_cs_parity

-- `case PK_S_S_CS_PARITY`
unfoldable pub case_s_cs_parity : M Body State
case_s_cs_parity = do
  key0 ← fetch (λ b. b.m_cs_odd)
  if key0 == 1 then reject odd_cipher_suites_length else pure s_cs

-- `case PK_S_S_CS`
unfoldable pub case_s_cs : M Body State
case_s_cs = do
  store (λ b. record b { cs_present = 1 })
  vlen ← fetch (λ b. mul64 b.cs_len.clen 8)
  run_of_in rmask vlen
      (λ off len b. record b { cs = record (b.cs) { body_bit_off = off; body_bit_len = len } })
  pure s_comp_len

-- `case PK_S_S_COMP_LEN`
unfoldable pub case_s_comp_len : M Body State
case_s_comp_len = do
  store (λ b. record b { comp_len_present = 1 })
  bytes_in rmask 1 (λ v b. record b { comp_len = record (b.comp_len) { plen = u8 v } })
  key0 ← fetch (λ b. b.comp_len.plen)
  if key0 == 0 then reject empty_compressions else pure s_comp

-- `case PK_S_S_COMP`
unfoldable pub case_s_comp : M Body State
case_s_comp = do
  store (λ b. record b { comp_present = 1 })
  vlen ← fetch (λ b. mul64 b.comp_len.plen 8)
  run_of_in rmask vlen
      (λ off len b. record b { comp = record (b.comp) { body_bit_off = off; body_bit_len = len } })
  pure s_ext_check
