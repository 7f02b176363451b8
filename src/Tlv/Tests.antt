-- ===== src/Tlv/Tests.antt =====
-- Runs of tlv_items on whole packets.
use pakeles.Base.{ℕ, ◌≡◌, refl, List, [], ◌∷◌, some, arith}
use pakeles.Core.{masked}
use pakeles.Results.{ends, field}
use pakeles.Safety.{ReturnsSound}
use pakeles.Tlv.Parse.{tlv_items_parse, tlv_items_parse_core, running}
use pakeles.Tlv.Cases.{named}
use pakeles.Tlv.Sound.{tlv_items_parse-ReturnsSound, tlv_items_parse_core-masked}
use pakeles.Tlv.Wire.{Entry, Encodable}
use pakeles.Tlv.Exact.{packet, tlv_items_parse-accepts, tlv_items_parse-exceeds}

-- a total of 7 bytes: one item of two bytes, one of one
abbrev two_items : List ℕ
two_items = 7 ∷ 1 ∷ 2 ∷ 170 ∷ 187 ∷ 2 ∷ 1 ∷ 204 ∷ []

two_items_ends : ends (tlv_items_parse two_items 64) ≡ some (0, 0, 64)
unfolding running
two_items_ends = refl

two_items_item_kind : field (λ b. b.item.kind) (tlv_items_parse two_items 64) ≡ some 2
unfolding running
two_items_item_kind = refl

two_items_item_ln : field (λ b. b.item.ln) (tlv_items_parse two_items 64) ≡ some 1
unfolding running
two_items_item_ln = refl

-- an item that runs past the total
abbrev overrunning_item : List ℕ
overrunning_item = 3 ∷ 1 ∷ 2 ∷ 170 ∷ 187 ∷ []

overrunning_item_ends : ends (tlv_items_parse overrunning_item 40) ≡ some (1, 4, 24)
unfolding running
overrunning_item_ends = refl

tlv_items_parse-ReturnsSound_example : ReturnsSound named 64 (tlv_items_parse two_items 64)
tlv_items_parse-ReturnsSound_example =
    tlv_items_parse-ReturnsSound two_items 64 (omega arith) (omega arith)

tlv_items_parse_core-masked_example :
    tlv_items_parse_core (masked two_items 64) ≡ tlv_items_parse two_items 64
tlv_items_parse_core-masked_example =
    tlv_items_parse_core-masked two_items 64 (omega arith) (omega arith)

-- one item of two bytes
abbrev short : Entry
short = record { kind = 2; value = 0xaa ∷ 0xbb ∷ [] }

short-Encodable : Encodable short
short-Encodable = (omega arith, omega arith, (omega arith, (omega arith, tt)))

tlv_items_parse-accepts_example :
    ends (tlv_items_parse (packet (short ∷ short ∷ [])) 72) ≡ some (0, 0, 72)
tlv_items_parse-accepts_example =
    tlv_items_parse-accepts (short ∷ short ∷ []) (short-Encodable, (short-Encodable, tt))
      (omega arith) (omega arith)

tlv_items_parse-exceeds_example :
    ends (tlv_items_parse (packet (short ∷ short ∷ short ∷ short ∷ [])) 136) ≡ some (1, 2, 104)
tlv_items_parse-exceeds_example =
    tlv_items_parse-exceeds short short short (short ∷ [])
      (short-Encodable, (short-Encodable, (short-Encodable, (short-Encodable, tt)))) (omega arith)
