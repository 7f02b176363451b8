-- ===== src/Counted/States.antt =====
-- A count, then that many items; the loop counts down in metadata.
-- Cases of the `switch` in examples/counted_items/gen/parser.c.
use pakeles.Base.{◌==◌, if◌then◌else◌, bit_and, u8, sub64}
use pakeles.Core.{M, ◌>>=◌, ◌>>◌, pure, fetch, store, accept, bytes}
use pakeles.Counted.Types.{Body, State, parse_item, mark_done}

-- `case PK_S_PARSE_COUNT`
unfoldable pub case_parse_count : M Body State
case_parse_count = do
  store (λ b. record b { count_present = 1 })
  bytes 1 (λ v b. record b { count = record (b.count) { n = u8 v } })
  store (λ b. record b { m_remaining = bit_and b.count.n 0xff })
  key0 ← fetch (λ b. b.m_remaining)
  if key0 == 0 then pure mark_done else pure parse_item

-- `case PK_S_PARSE_ITEM`
unfoldable pub case_parse_item : M Body State
case_parse_item = do
  store (λ b. record b { item_present = 1 })
  bytes 1 (λ v b. record b { item = record (b.item) { v = u8 v } })
  store (λ b. record b { m_remaining = bit_and (sub64 b.m_remaining 1) 0xff })
  key0 ← fetch (λ b. b.m_remaining)
  if key0 == 0 then pure mark_done else pure parse_item

-- `case PK_S_MARK_DONE`
unfoldable pub case_mark_done : M Body State
case_mark_done = do store (λ b. record b { m_done = bit_and 1 0x1 }); accept
