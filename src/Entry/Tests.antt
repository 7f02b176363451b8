-- ===== src/Entry/Tests.antt =====
-- The entry point of tlv_items on an empty list of items.
use pakeles.Base.{◌+◌, ◌*◌, ◌^◌, ◌≡◌, refl, [], ◌∷◌, some, arith}
use pakeles.Core.{Result, masked}
use pakeles.Tlv.{Body, tlv_items_parse_core, zero_body, running}
use pakeles.Entry.Pack.{pk_entry}
use pakeles.Entry.Frames.{frame, pk_entry-fields}

abbrev accepted : Result Body
accepted = record {
  outcome = 0;
  reason = 0;
  consumed_bits = 8;
  body = record zero_body { total_len_present = 1 };
}

no_items : tlv_items_parse_core (masked (0 ∷ []) 8) ≡ some accepted
unfolding running
no_items = refl

pk_entry-fields_example :
    pk_entry tlv_items_parse_core (frame 8 (0 ∷ [])) ≡ some (0 * 2 ^ 56 + 0 * 2 ^ 48 + 8)
pk_entry-fields_example =
    pk_entry-fields tlv_items_parse_core (0 ∷ []) 8 accepted (omega arith) no_items (omega arith)
      (omega arith) (omega arith)
