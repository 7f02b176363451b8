-- ===== src/Quic/Header.antt =====
-- The first byte, the version and the connection identifiers.
-- Cases of the `switch` in benchmarks/industry/quic_initial/gen/parser.c.
use pakeles.Base.{◌==◌, if◌then◌else◌, leb, u8, u32, mul64}
use pakeles.Core.{M, ◌>>=◌, ◌>>◌, pure, fetch, store, reject, accept, bytes, bits, run_of}
use pakeles.Quic.Types.{
  Body, State, parse_version, parse_dcid_len, parse_dcid, parse_scid_len, parse_scid,
  parse_first_short, parse_version_negotiation, parse_version_default, parse_scid_initial,
  parse_scid_zero_rtt, parse_scid_handshake, parse_scid_retry, dcid_too_long_for_v1,
  scid_too_long_for_v1, unreachable,
}

-- `case PK_S_PARSE_FIRST`
unfoldable pub case_parse_first : M Body State
case_parse_first = do
  store (λ b. record b { first_byte_present = 1 })
  bits 1 (λ v b. record b { first_byte = record (b.first_byte) { form = u8 v } })
  bits 1 (λ v b. record b { first_byte = record (b.first_byte) { fixed = u8 v } })
  bits 2 (λ v b. record b { first_byte = record (b.first_byte) { ty = u8 v } })
  bits 4 (λ v b. record b { first_byte = record (b.first_byte) { low = u8 v } })
  key0 ← fetch (λ b. b.first_byte.form)
  if key0 == 0
      then pure parse_first_short
      else if key0 == 1
      then pure parse_version
      else reject unreachable

-- `case PK_S_PARSE_VERSION`
unfoldable pub case_parse_version : M Body State
case_parse_version = do
  store (λ b. record b { version_present = 1 })
  bytes 4 (λ v b. record b { version = record (b.version) { v = u32 v } })
  key0 ← fetch (λ b. b.version.v)
  if key0 == 1
      then pure parse_dcid_len
      else if key0 == 0
      then pure parse_version_negotiation
      else pure parse_version_default

-- `case PK_S_PARSE_OTHER_CIDS`
unfoldable pub case_parse_other_cids : M Body State
case_parse_other_cids = do
  store (λ b. record b { other_cids_present = 1 })
  bytes 1 (λ v b. record b { other_cids = record (b.other_cids) { dcid_len = u8 v } })
  vlen ← fetch (λ b. mul64 b.other_cids.dcid_len 8)
  run_of vlen (λ off len b. record b {
    other_cids = record (b.other_cids) { dcid_bit_off = off; dcid_bit_len = len };
  })
  bytes 1 (λ v b. record b { other_cids = record (b.other_cids) { scid_len = u8 v } })
  vlen ← fetch (λ b. mul64 b.other_cids.scid_len 8)
  run_of vlen (λ off len b. record b {
    other_cids = record (b.other_cids) { scid_bit_off = off; scid_bit_len = len };
  })
  accept

-- `case PK_S_PARSE_DCID_LEN`
unfoldable pub case_parse_dcid_len : M Body State
case_parse_dcid_len = do
  store (λ b. record b { dcid_len_present = 1 })
  bytes 1 (λ v b. record b { dcid_len = record (b.dcid_len) { ln = u8 v } })
  key0 ← fetch (λ b. b.dcid_len.ln)
  if leb key0 20 then pure parse_dcid else reject dcid_too_long_for_v1

-- `case PK_S_PARSE_DCID`
unfoldable pub case_parse_dcid : M Body State
case_parse_dcid = do
  store (λ b. record b { dcid_present = 1 })
  vlen ← fetch (λ b. mul64 b.dcid_len.ln 8)
  run_of vlen
      (λ off len b. record b { dcid = record (b.dcid) { cid_bit_off = off; cid_bit_len = len } })
  pure parse_scid_len

-- `case PK_S_PARSE_SCID_LEN`
unfoldable pub case_parse_scid_len : M Body State
case_parse_scid_len = do
  store (λ b. record b { scid_len_present = 1 })
  bytes 1 (λ v b. record b { scid_len = record (b.scid_len) { ln = u8 v } })
  key0 ← fetch (λ b. b.scid_len.ln)
  if leb key0 20 then pure parse_scid else reject scid_too_long_for_v1

-- `case PK_S_PARSE_SCID`
unfoldable pub case_parse_scid : M Body State
case_parse_scid = do
  store (λ b. record b { scid_present = 1 })
  vlen ← fetch (λ b. mul64 b.scid_len.ln 8)
  run_of vlen
      (λ off len b. record b { scid = record (b.scid) { cid_bit_off = off; cid_bit_len = len } })
  key0 ← fetch (λ b. b.first_byte.ty)
  if key0 == 0
      then pure parse_scid_initial
      else if key0 == 1
      then pure parse_scid_zero_rtt
      else if key0 == 2
      then pure parse_scid_handshake
      else if key0 == 3
      then pure parse_scid_retry
      else reject unreachable
