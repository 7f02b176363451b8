-- ===== src/Counted/Types.antt =====
-- The result of counted_items and its states: examples/counted_items/gen/parser.h, and the state numbers of parser.c.
use pakeles.Base.{ℕ, ◌==◌, if◌then◌else◌}
use Prim.Native.String.{String}

-- `pk_counted_items_count_t`
pub record Count : Type 0 where
  pub n : ℕ

-- `pk_counted_items_item_t`
pub record Item : Type 0 where
  pub v : ℕ

-- `pk_counted_items_result_t` without its first three fields.
pub record Body : Type 0 where
  pub count_present : ℕ
  pub count : Count
  pub item_present : ℕ
  pub item : Item
  pub m_done : ℕ
  pub m_remaining : ℕ

-- `pk_counted_items_result_t zero = {0}`
abbrev pub zero_body : Body
zero_body = record {
  count_present = 0;
  count = record { n = 0 };
  item_present = 0;
  item = record { v = 0 };
  m_done = 0;
  m_remaining = 0;
}

pub data State : Type 0 where
  parse_count parse_item mark_done : State

-- `pk_counted_items_reason_str`
unfoldable pub reason_str : ℕ → String
reason_str reason =
    if reason == 1
    then "out of bounds"
    else if reason == 2
    then "max depth exceeded"
    else if reason == 3
    then "no matching select arm"
    else if reason == 4
    then "out of region bounds"
    else if reason == 5
    then "region out of bounds"
    else if reason == 6
    then "region not exhausted"
    else ""
