-- ===== src/Tlv/States.antt =====
-- A length, then type-length-value items inside it.
-- Cases of the `switch` in examples/tlv_items/gen/parser.c.
use pakeles.Base.{◌==◌, if◌then◌else◌, u8, mul64, shr64}
use pakeles.Core.{
  M, ◌>>=◌, ◌>>◌, pure, fetch, store, accept, bytes_in, run_of_in, push, pop, remaining,
}
use pakeles.Tlv.Types.{Body, State, tlv_loop, parse_item, close, rmask}

-- `case PK_S_PARSE_TOTAL`
unfoldable pub case_parse_total : M Body State
case_parse_total = do
  store (λ b. record b { total_len_present = 1 })
  bytes_in rmask 1 (λ v b. record b { total_len = record (b.total_len) { total = u8 v } })
  rlen ← fetch (λ b. mul64 b.total_len.total 8)
  push rmask rlen
  pure tlv_loop

-- `case PK_S_TLV_LOOP`
unfoldable pub case_tlv_loop : M Body State
case_tlv_loop = do
  r ← remaining rmask
  let key0 = shr64 r 3
  if key0 == 0 then pure close else pure parse_item

-- `case PK_S_PARSE_ITEM`
unfoldable pub case_parse_item : M Body State
case_parse_item = do
  store (λ b. record b { item_present = 1 })
  bytes_in rmask 1 (λ v b. record b { item = record (b.item) { kind = u8 v } })
  bytes_in rmask 1 (λ v b. record b { item = record (b.item) { ln = u8 v } })
  vlen ← fetch (λ b. mul64 b.item.ln 8)
  run_of_in rmask vlen
      (λ off len b. record b { item = record (b.item) { val_bit_off = off; val_bit_len = len } })
  pure tlv_loop

-- `case PK_S_CLOSE`
unfoldable pub case_close : M Body State
case_close = do pop rmask; accept
