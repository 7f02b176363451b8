-- ===== src/Tlv/Exact.antt =====
-- Which packets of encoded items tlv_items accepts: examples/tlv_items/gen/parser.c.
use pakeles.Base.{
  ℕ, suc, ◌+◌, ◌-◌, ◌*◌, ◌^◌, ◌≤◌, ◌<◌, ◌≡◌, refl, ap, ◌∙◌, arith, List, [], ◌∷◌, All, length, some,
  none, false, ltb, add64, mul64, u8,
}
use pakeles.Core.{
  Locals, ◌>>=◌, loop, run_core, returned, reject_if, push, can_push, no_overflow, slot, bytes_in,
  in_region, advance, portable,
}
use pakeles.Safety.{Fits, portable-Fits}
use pakeles.Values.{IsBytes, number, in_buffer-next, load_be-number, Inside, Inside-advance}
use pakeles.Results.{ends}
use pakeles.Tlv.Types.{Body, zero_body, parse_total, tlv_loop, rmask}
use pakeles.Tlv.States.{case_parse_total}
use pakeles.Tlv.Parse.{step, tlv_items_parse, tlv_items_parse_core}
use pakeles.Tlv.Wire.{
  Entry, encode, Encodable, At, size, length-encode, encode-IsBytes, At-cons, encode-At,
}
use pakeles.Tlv.Items.{one_byte, rounds, close-ends, items-next, last_round}

-- One byte of length and the items.
abbrev pub packet : List Entry → List ℕ
packet items = size items ∷ encode items

abbrev start : Locals
start = record { off = 0; rsp = 0; region_end = none ∷ [] }

slot-first : (e : ℕ) → slot (some e ∷ []) 0 ≡ some e
unfolding slot
slot-first e = refl

-- `parse_total` on such a packet
total-next :
    (fuel : ℕ) (items : List Entry)
    → All Encodable items
    → size items < 256
    → (b' : Body) × (l' : Locals) × (Inside rmask 0 (8 + 8 * size items) l')
      × (l'.off ≡ 8)
      × (run_core step
            (suc fuel)
            parse_total
            1
            (portable (packet items) (8 * length (packet items)))
            zero_body
          ≡ returned
              (loop step fuel tlv_loop (portable (packet items) (8 * length (packet items))) l' b'))
unfolding run_core loop step case_parse_total bytes_in in_region push can_push no_overflow ◌>>=◌
    reject_if returned advance
total-next fuel items fine small =
    let buf = packet items in
    let held : IsBytes buf = (small, encode-IsBytes items fine) in
    let total : 8 * length buf ≡ 8 + 8 * size items = omega (arith, length-encode items) in
    let fits = portable-Fits buf (8 * length buf) (omega arith) (omega (arith, total)) in
    let value : u8 (number buf 8 0) ≡ size items = one_byte buf 0 0 held refl in
    let rlen : mul64 (size items) 8 ≡ 8 * size items = omega arith in
    let room : ltb (2 ^ 64 - 9) (8 * size items) ≡ false = ground arith in
    let end : add64 8 (8 * size items) ≡ 8 + 8 * size items = omega arith in
    (
      record zero_body { total_len_present = 1; total_len = record { total = size items } },
      record { off = 8; rsp = 1; region_end = some (8 + 8 * size items) ∷ [] },
      record {
        depth = refl;
        cap = omega arith;
        end = slot-first (8 + 8 * size items);
        word = omega arith;
      },
      refl,
      rw
          (
            in_buffer-next fits start _ (omega arith) 8 (omega (arith, total)),
            load_be-number fits start _ 1 0 held (omega (arith, total)) (omega arith),
            value,
            rlen,
            room,
            end,
          )
          refl,
    )

module _ (items : List Entry) (fine : All Encodable items) (small : size items < 256) where
  packet_len : 8 * length (packet items) ≡ 8 + 8 * size items
  packet_len = omega (arith, length-encode items)

  packet-Fits : Fits (portable (packet items) (8 * length (packet items)))
  packet-Fits = portable-Fits _ _ (omega arith) (omega (arith, packet_len))

  packet-IsBytes : IsBytes (packet items)
  packet-IsBytes = (small, encode-IsBytes items fine)

  packet-At : At (packet items) 1 items
  packet-At = At-cons (size items) (encode items) 0 items (encode-At items)

  -- Rounds enough for every item and the end of the region.
  all-accepted :
      (fuel : ℕ)
      → ends (
          run_core step
            (suc (rounds items (suc (suc fuel))))
            parse_total
            1
            (portable (packet items) (8 * length (packet items)))
            zero_body)
        ≡ some (0, 0, 8 * length (packet items))
  all-accepted fuel =
      let (b, l, region, at, e1) = total-next (rounds items (suc (suc fuel))) items fine small in
      let (b', e2) =
        items-next packet-Fits packet-IsBytes (omega (arith, packet_len)) (suc (suc fuel)) items 1 0
          l b region (omega arith) packet-At (omega arith) in
      ap ends (e1 ∙ ap returned e2)
      ∙ close-ends packet-Fits packet-IsBytes (omega (arith, packet_len)) fuel _ b'
          (Inside-advance (l.off + 8 * size items) region) (omega arith)
      ∙ ap (λ n. some (0, 0, n)) (omega (arith, packet_len))

-- A packet that encodes at most two items of less than 256 bytes in all, behind one byte with that
-- length, is accepted and consumed to its last bit.
pub tlv_items_parse-accepts :
    (items : List Entry)
    → All Encodable items
    → size items < 256
    → length items ≤ 2
    → ends (tlv_items_parse (packet items) (8 * length (packet items)))
      ≡ some (0, 0, 8 * length (packet items))
unfolding tlv_items_parse tlv_items_parse_core
tlv_items_parse-accepts [] fine small few = all-accepted [] fine small 5
tlv_items_parse-accepts (a ∷ []) fine small few = all-accepted (a ∷ []) fine small 3
tlv_items_parse-accepts (a ∷ b ∷ []) fine small few = all-accepted (a ∷ b ∷ []) fine small 1
tlv_items_parse-accepts (a ∷ b ∷ c ∷ items) fine small few = absurd (omega arith)

-- A packet that encodes three or more items of less than 256 bytes in all, behind one byte with that
-- length, is rejected with `max_depth_exceeded` behind the third.
pub tlv_items_parse-exceeds :
    (a b c : Entry) (items : List Entry)
    → All Encodable (a ∷ b ∷ c ∷ items)
    → size (a ∷ b ∷ c ∷ items) < 256
    → ends (tlv_items_parse (packet (a ∷ b ∷ c ∷ items)) (8 * length (packet (a ∷ b ∷ c ∷ items))))
      ≡ some (1, 2, 8 + 8 * size (a ∷ b ∷ c ∷ []))
unfolding tlv_items_parse tlv_items_parse_core
tlv_items_parse-exceeds a b c items fine small =
    let all = a ∷ b ∷ c ∷ items in
    let lie = packet-At all fine small in
    let whole : 8 + 8 * size all ≤ 8 * length (packet all) =
      omega (arith, packet_len all fine small) in
    let (b0, l, region, at, e1) = total-next 7 all fine small in
    let (b1, e2) =
      items-next (packet-Fits all fine small) (packet-IsBytes all fine small) whole 1
        (a ∷ b ∷ c ∷ []) 1 (size items) l b0 region (omega arith)
        (lie.0, (lie.1.0, (lie.1.1.0, tt))) (omega arith) in
    let done = 8 * size (a ∷ b ∷ c ∷ []) in
    ap ends (e1 ∙ ap returned e2)
    ∙ last_round (packet-Fits all fine small) (packet-IsBytes all fine small) whole _ b1
        (Inside-advance (l.off + done) region) (omega arith)
    ∙ ap (λ n. some (1, 2, n)) (omega arith)
