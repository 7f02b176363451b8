-- ===== src/Tlv/Types.antt =====
-- The result of tlv_items and its states: examples/tlv_items/gen/parser.h, and the state numbers of parser.c.
use pakeles.Base.{ℕ, ◌==◌, if◌then◌else◌}
use Prim.Native.String.{String}

-- `pk_tlv_items_total_len_t`
pub record TotalLen : Type 0 where
  pub total : ℕ

-- `pk_tlv_items_item_t`
pub record Item : Type 0 where
  pub kind : ℕ
  pub ln : ℕ
  pub val_bit_off : ℕ
  pub val_bit_len : ℕ

-- `pk_tlv_items_result_t` without its first three fields.
pub record Body : Type 0 where
  pub total_len_present : ℕ
  pub total_len : TotalLen
  pub item_present : ℕ
  pub item : Item

-- `pk_tlv_items_result_t zero = {0}`
abbrev pub zero_body : Body
zero_body = record {
  total_len_present = 0;
  total_len = record { total = 0 };
  item_present = 0;
  item = record { kind = 0; ln = 0; val_bit_off = 0; val_bit_len = 0 };
}

pub data State : Type 0 where
  parse_total tlv_loop parse_item close : State

-- `pk_tlv_items_reason_str`
unfoldable pub reason_str : ℕ → String
reason_str reason =
    if reason == 1
    then "out of bounds"
    else if reason == 2
    then "max depth exceeded"
    else if reason == 3
    then "no matching select arm"
    else if reason == 4
    then "out of region bounds"
    else if reason == 5
    then "region out of bounds"
    else if reason == 6
    then "region not exhausted"
    else ""

-- `PK_RMASK`
abbrev pub rmask : ℕ
rmask = 0
