-- ===== src/Entry/Frames.antt =====
-- What `pk_entry` returns for a packet behind its length.
use pakeles.Base.{
  ℕ, ◌+◌, ◌*◌, ◌/◌, ◌%◌, ◌^◌, ◌≤◌, ◌<◌, ◌≡◌, ap, ◌∙◌, arith, List, ◌∷◌, Option, some, bit_and,
  bit_or, bit_or-fields, bit_or-fields_low, bit_and-ones, shl64,
}
use native.Mathlib.Nat.{mod-eq_of_lt, mul-le-mul, pow-le-pow_right}
use pakeles.Core.{Input, Result, masked}
use pakeles.Entry.Pack.{read_len, pack, packed, entry_of, pk_entry}

-- eight bytes, least significant first
abbrev pub frame : ℕ → List ℕ → List ℕ
frame v packet =
    v % 256
    ∷ v / 2 ^ 8 % 256
    ∷ v / 2 ^ 16 % 256
    ∷ v / 2 ^ 24 % 256
    ∷ v / 2 ^ 32 % 256
    ∷ v / 2 ^ 40 % 256
    ∷ v / 2 ^ 48 % 256
    ∷ v / 2 ^ 56 % 256
    ∷ packet

-- a byte above k bits
place : (k x y : ℕ) → y < 2 ^ k → x < 256 → k ≤ 56 → bit_or y (shl64 x k) ≡ y + x * 2 ^ k
place k x y l b h = rw (mod-eq_of_lt small) (bit_or-fields_low k x y l)
  where
    small : x * 2 ^ k < 2 ^ 64
    small = omega (
      arith,
      mul-le-mul {n₁ = x} {m₁ = 2 ^ k} {n₂ = 255} {m₂ = 2 ^ 56} (omega arith)
          (pow-le-pow_right {n = 2} (omega arith) h),
    )

read_len-frame : (v : ℕ) (packet : List ℕ) → v < 2 ^ 64 → read_len 8 0 0 (frame v packet) ≡ some v
unfolding read_len
read_len-frame v packet h =
    let s0 : bit_or 0 (shl64 (v % 256) 0) ≡ v % 2 ^ 8 =
      place 0 (v % 256) 0 (omega arith) (omega arith) (omega arith) ∙ omega arith in
    let s1 : bit_or (v % 2 ^ 8) (shl64 (v / 2 ^ 8 % 256) 8) ≡ v % 2 ^ 16 =
      place 8 (v / 2 ^ 8 % 256) (v % 2 ^ 8) (omega arith) (omega arith) (omega arith)
      ∙ omega arith in
    let s2 : bit_or (v % 2 ^ 16) (shl64 (v / 2 ^ 16 % 256) 16) ≡ v % 2 ^ 24 =
      place 16 (v / 2 ^ 16 % 256) (v % 2 ^ 16) (omega arith) (omega arith) (omega arith)
      ∙ omega arith in
    let s3 : bit_or (v % 2 ^ 24) (shl64 (v / 2 ^ 24 % 256) 24) ≡ v % 2 ^ 32 =
      place 24 (v / 2 ^ 24 % 256) (v % 2 ^ 24) (omega arith) (omega arith) (omega arith)
      ∙ omega arith in
    let s4 : bit_or (v % 2 ^ 32) (shl64 (v / 2 ^ 32 % 256) 32) ≡ v % 2 ^ 40 =
      place 32 (v / 2 ^ 32 % 256) (v % 2 ^ 32) (omega arith) (omega arith) (omega arith)
      ∙ omega arith in
    let s5 : bit_or (v % 2 ^ 40) (shl64 (v / 2 ^ 40 % 256) 40) ≡ v % 2 ^ 48 =
      place 40 (v / 2 ^ 40 % 256) (v % 2 ^ 40) (omega arith) (omega arith) (omega arith)
      ∙ omega arith in
    let s6 : bit_or (v % 2 ^ 48) (shl64 (v / 2 ^ 48 % 256) 48) ≡ v % 2 ^ 56 =
      place 48 (v / 2 ^ 48 % 256) (v % 2 ^ 48) (omega arith) (omega arith) (omega arith)
      ∙ omega arith in
    let s7 : bit_or (v % 2 ^ 56) (shl64 (v / 2 ^ 56 % 256) 56) ≡ v % 2 ^ 64 =
      place 56 (v / 2 ^ 56 % 256) (v % 2 ^ 56) (omega arith) (omega arith) (omega arith)
      ∙ omega arith in
    rw (s0, s1, s2, s3, s4, s5, s6, s7) (ap some (mod-eq_of_lt h))

-- the fields of the word
pack-fields :
    {B : Type 0} (r : Result B)
    → r.outcome < 2 ^ 8
    → r.reason < 2 ^ 8
    → r.consumed_bits < 2 ^ 48
    → pack r ≡ r.outcome * 2 ^ 56 + r.reason * 2 ^ 48 + r.consumed_bits
unfolding pack
pack-fields r o q c =
    let o' : shl64 r.outcome 56 ≡ r.outcome * 2 ^ 56 = omega arith in
    let q' : shl64 r.reason 48 ≡ r.reason * 2 ^ 48 = omega arith in
    let c' : bit_and r.consumed_bits 0xffffffffffff ≡ r.consumed_bits =
      bit_and-ones 48 r.consumed_bits ∙ omega arith in
    let high : r.outcome * 2 ^ 56 + r.reason * 2 ^ 48 ≡ (r.outcome * 2 ^ 8 + r.reason) * 2 ^ 48 =
      omega arith in
    rw
      (
        o',
        q',
        c',
        bit_or-fields 56 r.outcome (r.reason * 2 ^ 48) (omega arith),
        high,
        bit_or-fields 48 (r.outcome * 2 ^ 8 + r.reason) r.consumed_bits c,
      )
      (omega arith)

-- The entry point on a packet behind its length in bits, where the parser, its indices masked,
-- returns `r`: the outcome, the reason and the consumed bits, each in its field of the word, if they
-- fit there.
pub pk_entry-fields :
    {B : Type 0} (parse_core : Input → Option (Result B)) (packet : List ℕ) (bit_len : ℕ)
    (r : Result B)
    → bit_len < 2 ^ 64
    → parse_core (masked packet bit_len) ≡ some r
    → r.outcome < 2 ^ 8
    → r.reason < 2 ^ 8
    → r.consumed_bits < 2 ^ 48
    → pk_entry parse_core (frame bit_len packet)
      ≡ some (r.outcome * 2 ^ 56 + r.reason * 2 ^ 48 + r.consumed_bits)
unfolding pk_entry entry_of packed
pk_entry-fields parse_core packet bit_len r h e o q c =
    ap (entry_of parse_core packet) (read_len-frame bit_len packet h)
    ∙ ap packed e
    ∙ ap some (pack-fields r o q c)
