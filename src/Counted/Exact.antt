-- ===== src/Counted/Exact.antt =====
-- Which packets counted_items accepts: examples/counted_items/gen/parser.c against a closed form.
use pakeles.Base.{
  ℕ, zero, suc, ◌+◌, ◌*◌, ◌%◌, ◌^◌, ◌≤◌, ◌<◌, ◌≡◌, refl, sym, ap, ◌∙◌, arith, List, [], length,
  some, true, false, ◌⊎◌, inl, inr, ◌==◌, ◌&&◌, leb, if◌then◌else◌, bit_and, bit_and-ones, sub64,
  u8,
}
use pakeles.Core.{Input, Locals, ◌>>=◌, loop, run_core, returned, reject, accept}
use pakeles.Safety.{Fits, portable-Fits}
use pakeles.Values.{IsBytes, byte, number, number-byte, number-lt, bytes-next, bytes-stop}
use pakeles.Results.{ends}
use pakeles.Counted.Types.{Body, zero_body, parse_count, parse_item, mark_done}
use pakeles.Counted.States.{case_parse_count, case_parse_item, case_mark_done}
use pakeles.Counted.Parse.{step, counted_items_parse, counted_items_parse_core}

-- How the loop ends that has `fuel` rounds, `r` items to go and `left` bytes behind `off`: accepted
-- after the items where they fit into both, else out of rounds or out of bytes, whichever is first.
abbrev pub verdict : ℕ → ℕ → ℕ → ℕ → ℕ × ℕ × ℕ
verdict fuel r left off =
    if leb r left && leb (r + 1) fuel
    then (0, 0, off + 8 * r)
    else if leb fuel left
    then (1, 2, off + 8 * fuel)
    else (1, 1, off + 8 * left)

verdict-spent : (r left off : ℕ) → verdict 0 r left off ≡ (1, 2, off)
verdict-spent r left off = ground arith

verdict-done : (fuel left off : ℕ) → verdict (suc fuel) 0 left off ≡ (0, 0, off)
verdict-done fuel left off = ground arith

verdict-short : (fuel r off : ℕ) → verdict (suc fuel) (r + 1) 0 off ≡ (1, 1, off)
verdict-short fuel r off = ground arith

verdict-more :
    (fuel r left off : ℕ)
    → verdict (suc fuel) (r + 1) (suc left) off ≡ verdict fuel r left (off + 8)
verdict-more fuel r left off = ground arith

-- the counter is a byte, and does not wrap
countdown : (m r : ℕ) → m ≡ r + 1 → r + 1 < 256 → bit_and (sub64 m 1) 0xff ≡ r
countdown m r e h = bit_and-ones 8 (sub64 m 1) ∙ omega arith

zero_or_suc : (n : ℕ) → (n ≡ 0) ⊎ ((m : ℕ) × (n ≡ m + 1))
zero_or_suc zero = inl refl
zero_or_suc (suc m) = inr (m, omega arith)

module _ {i : Input} (fits : Fits i) (held : IsBytes i.buf) where
  done-ends :
      (fuel : ℕ) (l : Locals) (b : Body) (left : ℕ)
      → ends (returned (loop step fuel mark_done i l b)) ≡ some (verdict fuel 0 left l.off)
  unfolding loop step case_mark_done ◌>>=◌ returned reject accept
  done-ends zero l b left = ap some (sym (verdict-spent 0 left l.off))
  done-ends (suc fuel) l b left = ap some (sym (verdict-done fuel left l.off))

  item-ends :
      (fuel r left : ℕ) (l : Locals) (b : Body)
      → i.bit_len ≡ l.off + 8 * left
      → l.off % 8 ≡ 0
      → b.m_remaining ≡ r + 1
      → r + 1 < 256
      → ends (returned (loop step fuel parse_item i l b)) ≡ some (verdict fuel (r + 1) left l.off)
  unfolding loop step case_parse_item ◌>>=◌ returned reject
  item-ends zero r left l b total aligned togo small =
      ap some (sym (verdict-spent (r + 1) left l.off))
  item-ends (suc fuel) r zero l b total aligned togo small =
      rw (bytes-stop fits l _ (omega arith) 1 _ (omega arith) (omega arith))
        (ap some (sym (verdict-short fuel r l.off)))
  item-ends (suc fuel) zero (suc left) l b total aligned togo small =
      let down : bit_and (sub64 b.m_remaining 1) 0xff ≡ 0 =
        countdown b.m_remaining 0 togo (omega arith) in
      rw (bytes-next fits l _ (omega arith) 1 _ held aligned (omega arith) (omega arith), down)
        (done-ends fuel _ _ left ∙ ap some (sym (verdict-more fuel 0 left l.off)))
  item-ends (suc fuel) (suc r) (suc left) l b total aligned togo small =
      let down : bit_and (sub64 b.m_remaining 1) 0xff ≡ r + 1 =
        countdown b.m_remaining (r + 1) (omega (arith, togo)) (omega arith) in
      let more : r + 1 == 0 ≡ false = ground arith in
      rw
        (bytes-next fits l _ (omega arith) 1 _ held aligned (omega arith) (omega arith), down, more)
        (item-ends fuel r left _ _ (omega arith) (omega arith) refl (omega arith)
          ∙ ap some (
              ap (λ n. verdict fuel n left (l.off + 8)) one_less
              ∙ sym (verdict-more fuel (suc r) left l.off)))
    where
      one_less : r + 1 ≡ suc r
      one_less = omega arith

  count-ends :
      (fuel left : ℕ) (l : Locals) (b : Body)
      → i.bit_len ≡ l.off + 8 * suc left
      → l.off % 8 ≡ 0
      → ends (returned (loop step (suc fuel) parse_count i l b))
        ≡ some (verdict fuel (number i.buf 8 l.off) left (l.off + 8))
  unfolding loop step case_parse_count ◌>>=◌ returned
  count-ends fuel left l b total aligned =
      let n = number i.buf 8 l.off in
      let byte_value : bit_and (u8 n) 0xff ≡ n =
        bit_and-ones 8 (u8 n) ∙ omega (arith, number-lt i.buf 8 l.off) in
      let next_offset : l.off + 8 * 1 ≡ l.off + 8 = omega arith in
      elim (zero_or_suc n) [
        | inl e ↦
            let z : n == 0 ≡ true = ground (arith, e) in
            rw
              (
                bytes-next fits l _ (omega arith) 1 _ held aligned (omega arith) (omega arith),
                byte_value,
                z,
              )
              (done-ends fuel _ _ left ∙ ap (λ m. some (verdict fuel m left (l.off + 8))) (sym e))
        | inr (m, e) ↦
            let z : n == 0 ≡ false = ground (arith, e) in
            rw
              (
                bytes-next fits l _ (omega arith) 1 _ held aligned (omega arith) (omega arith),
                byte_value,
                z,
              )
              (item-ends fuel m left _ _ (omega arith) (omega arith) e
                  (omega (arith, e, number-lt i.buf 8 l.off))
                ∙ ap (λ m. some (verdict fuel m left (l.off + 8))) (sym e))
      ]

-- Seven rounds are left behind the count; a packet with no byte has no count.
abbrev pub expected : List ℕ → ℕ → ℕ × ℕ × ℕ
expected buf zero = (1, 1, 0)
expected buf (suc left) = verdict 7 (byte buf 0) left 8

abbrev start : Locals
start = record { off = 0; rsp = 0; region_end = [] }

-- On a packet of `len` bytes, with 8 * len + 64 < 2 ^ 64, the first of them n: counted_items accepts after n items if n ≤ 6 and
-- n < len; else it runs out of rounds after seven items, or of bytes at the last one, whichever is
-- first.
pub counted_items_parse-expected :
    (buf : List ℕ) (len : ℕ)
    → IsBytes buf
    → len ≤ length buf
    → 8 * len + 64 < 2 ^ 64
    → ends (counted_items_parse buf (8 * len)) ≡ some (expected buf len)
unfolding counted_items_parse counted_items_parse_core run_core loop step case_parse_count ◌>>=◌
    returned reject
counted_items_parse-expected buf zero held inside word =
    let fits = portable-Fits buf 0 (omega arith) (omega arith) in
    rw (bytes-stop fits start _ (omega arith) 1 _ (omega arith) (omega arith)) refl
counted_items_parse-expected buf (suc left) held inside word =
    let fits = portable-Fits buf (8 * suc left) (omega (arith, inside)) (omega arith) in
    count-ends fits held 7 left start zero_body (omega arith) refl
    ∙ ap (λ n. some (verdict 7 n left 8)) (number-byte buf 0 0 held refl)
