-- ===== src/Quic/Varint.antt =====
-- The token, and the length, each behind a variable-length integer.
-- Cases of the `switch` in benchmarks/industry/quic_initial/gen/parser.c.
use pakeles.Base.{◌==◌, if◌then◌else◌, bit_or, u8, u32, u64, mul64, shl64}
use pakeles.Core.{M, ◌>>=◌, ◌>>◌, pure, fetch, store, reject, accept, bytes, bits, run_of}
use pakeles.Quic.Types.{
  Body, State, parse_len_lead, tok_w1, tok_w2, tok_w4, tok_w8, len_w1, len_w2, len_w4, len_w8,
  unreachable,
}

-- `case PK_S_PARSE_TOK_LEAD`
unfoldable pub case_parse_tok_lead : M Body State
case_parse_tok_lead = do
  store (λ b. record b { tok_lead_present = 1 })
  bits 2 (λ v b. record b { tok_lead = record (b.tok_lead) { prefix = u8 v } })
  bits 6 (λ v b. record b { tok_lead = record (b.tok_lead) { v6 = u8 v } })
  key0 ← fetch (λ b. b.tok_lead.prefix)
  if key0 == 0
      then pure tok_w1
      else if key0 == 1
      then pure tok_w2
      else if key0 == 2
      then pure tok_w4
      else if key0 == 3
      then pure tok_w8
      else reject unreachable

-- `case PK_S_TOK_W1`
unfoldable pub case_tok_w1 : M Body State
case_tok_w1 = do
  store (λ b. record b { tok0_present = 1 })
  vlen ← fetch (λ b. mul64 b.tok_lead.v6 8)
  run_of vlen
      (λ off len b. record b { tok0 = record (b.tok0) { body_bit_off = off; body_bit_len = len } })
  store (λ b. record b { m_token_len = b.tok_lead.v6 })
  pure parse_len_lead

-- `case PK_S_TOK_W2`
unfoldable pub case_tok_w2 : M Body State
case_tok_w2 = do
  store (λ b. record b { tok1_present = 1 })
  bytes 1 (λ v b. record b { tok1 = record (b.tok1) { t = u8 v } })
  vlen ← fetch (λ b. mul64 (bit_or (shl64 b.tok_lead.v6 8) b.tok1.t) 8)
  run_of vlen
      (λ off len b. record b { tok1 = record (b.tok1) { body_bit_off = off; body_bit_len = len } })
  store (λ b. record b { m_token_len = bit_or (shl64 b.tok_lead.v6 8) b.tok1.t })
  pure parse_len_lead

-- `case PK_S_TOK_W4`
unfoldable pub case_tok_w4 : M Body State
case_tok_w4 = do
  store (λ b. record b { tok2_present = 1 })
  bytes 3 (λ v b. record b { tok2 = record (b.tok2) { t = u32 v } })
  vlen ← fetch (λ b. mul64 (bit_or (shl64 b.tok_lead.v6 24) b.tok2.t) 8)
  run_of vlen
      (λ off len b. record b { tok2 = record (b.tok2) { body_bit_off = off; body_bit_len = len } })
  store (λ b. record b { m_token_len = bit_or (shl64 b.tok_lead.v6 24) b.tok2.t })
  pure parse_len_lead

-- `case PK_S_TOK_W8`
unfoldable pub case_tok_w8 : M Body State
case_tok_w8 = do
  store (λ b. record b { tok3_present = 1 })
  bytes 7 (λ v b. record b { tok3 = record (b.tok3) { t = u64 v } })
  vlen ← fetch (λ b. mul64 (bit_or (shl64 b.tok_lead.v6 56) b.tok3.t) 8)
  run_of vlen
      (λ off len b. record b { tok3 = record (b.tok3) { body_bit_off = off; body_bit_len = len } })
  store (λ b. record b { m_token_len = bit_or (shl64 b.tok_lead.v6 56) b.tok3.t })
  pure parse_len_lead

-- `case PK_S_PARSE_LEN_LEAD`
unfoldable pub case_parse_len_lead : M Body State
case_parse_len_lead = do
  store (λ b. record b { len_lead_present = 1 })
  bits 2 (λ v b. record b { len_lead = record (b.len_lead) { prefix = u8 v } })
  bits 6 (λ v b. record b { len_lead = record (b.len_lead) { v6 = u8 v } })
  key0 ← fetch (λ b. b.len_lead.prefix)
  if key0 == 0
      then pure len_w1
      else if key0 == 1
      then pure len_w2
      else if key0 == 2
      then pure len_w4
      else if key0 == 3
      then pure len_w8
      else reject unreachable

-- `case PK_S_LEN_W1`
unfoldable pub case_len_w1 : M Body State
case_len_w1 = do store (λ b. record b { m_length = b.len_lead.v6 }); accept

-- `case PK_S_LEN_W2`
unfoldable pub case_len_w2 : M Body State
case_len_w2 = do
  store (λ b. record b { len1_present = 1 })
  bytes 1 (λ v b. record b { len1 = record (b.len1) { t = u8 v } })
  store (λ b. record b { m_length = bit_or (shl64 b.len_lead.v6 8) b.len1.t })
  accept

-- `case PK_S_LEN_W4`
unfoldable pub case_len_w4 : M Body State
case_len_w4 = do
  store (λ b. record b { len2_present = 1 })
  bytes 3 (λ v b. record b { len2 = record (b.len2) { t = u32 v } })
  store (λ b. record b { m_length = bit_or (shl64 b.len_lead.v6 24) b.len2.t })
  accept

-- `case PK_S_LEN_W8`
unfoldable pub case_len_w8 : M Body State
case_len_w8 = do
  store (λ b. record b { len3_present = 1 })
  bytes 7 (λ v b. record b { len3 = record (b.len3) { t = u64 v } })
  store (λ b. record b { m_length = bit_or (shl64 b.len_lead.v6 56) b.len3.t })
  accept
