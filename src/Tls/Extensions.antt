-- ===== src/Tls/Extensions.antt =====
-- The loop over the extensions.
-- Cases of the `switch` in benchmarks/industry/tls_clienthello/gen/parser.c.
use pakeles.Base.{◌==◌, ◌&&◌, if◌then◌else◌, u16, mul64, shr64}
use pakeles.Core.{
  M, ◌>>=◌, ◌>>◌, pure, fetch, store, reject, accept, bytes_in, run_of_in, push, pop, remaining,
}
use pakeles.Tls.Types.{
  Body, State, s_ext_len, s_tlv, s_ext, s_skip, s_sni, s_done, s_done_noext, duplicate_sni,
  partial_extension_header, partial_extensions_length, rmask,
}

-- `case PK_S_S_EXT_CHECK`
unfoldable pub case_s_ext_check : M Body State
case_s_ext_check = do
  r ← remaining rmask
  let key0 = shr64 r 3
  if key0 == 0
      then pure s_done_noext
      else if key0 == 1
      then reject partial_extensions_length
      else pure s_ext_len

-- `case PK_S_S_EXT_LEN`
unfoldable pub case_s_ext_len : M Body State
case_s_ext_len = do
  store (λ b. record b { ext_len_present = 1 })
  bytes_in rmask 2 (λ v b. record b { ext_len = record (b.ext_len) { total = u16 v } })
  rlen ← fetch (λ b. mul64 b.ext_len.total 8)
  push rmask rlen
  pure s_tlv

-- `case PK_S_S_TLV`
unfoldable pub case_s_tlv : M Body State
case_s_tlv = do
  r ← remaining rmask
  let key0 = shr64 r 3
  if key0 == 0
      then pure s_done
      else if key0 == 1
      then reject partial_extension_header
      else if key0 == 2
      then reject partial_extension_header
      else if key0 == 3
      then reject partial_extension_header
      else pure s_ext

-- `case PK_S_S_EXT`
unfoldable pub case_s_ext : M Body State
case_s_ext = do
  store (λ b. record b { ext_present = 1 })
  bytes_in rmask 2 (λ v b. record b { ext = record (b.ext) { typ = u16 v } })
  bytes_in rmask 2 (λ v b. record b { ext = record (b.ext) { elen = u16 v } })
  key0 ← fetch (λ b. b.ext.typ)
  key1 ← fetch (λ b. b.m_seen_sni)
  if key0 == 0 && key1 == 0
      then pure s_sni
      else if key0 == 0 && key1 == 1
      then reject duplicate_sni
      else pure s_skip

-- `case PK_S_S_SKIP`
unfoldable pub case_s_skip : M Body State
case_s_skip = do
  store (λ b. record b { skip_present = 1 })
  vlen ← fetch (λ b. mul64 b.ext.elen 8)
  run_of_in rmask vlen
      (λ off len b. record b { skip = record (b.skip) { body_bit_off = off; body_bit_len = len } })
  pure s_tlv

-- `case PK_S_S_DONE`
unfoldable pub case_s_done : M Body State
case_s_done = do pop rmask; pop rmask; pop rmask; accept

-- `case PK_S_S_DONE_NOEXT`
unfoldable pub case_s_done_noext : M Body State
case_s_done_noext = do pop rmask; pop rmask; accept
