-- ===== src/Entry/Pack.antt =====
-- `pk_entry` of examples/tlv_items/gen/parser.bpf.c: the length of the packet in front of it, and the
-- result packed into one word.
use pakeles.Base.{
  ℕ, zero, suc, ◌+◌, ◌*◌, List, [], ◌∷◌, Option, none, some, get_elem?, bit_and, bit_or, shl64,
}
use pakeles.Core.{Input, Result, masked}

-- `for (i = 0; i < 8; i++) bit_len |= (uint64_t)m[i] << (8 * i)`, with `n` rounds left; a read outside
-- the memory has no value
unfoldable pub read_len : ℕ → ℕ → ℕ → List ℕ → Option ℕ
read_len zero i acc m = some acc
read_len (suc n) i acc m = elim (get_elem? m i) [
  | none ↦ none
  | some x ↦ read_len n (i + 1) (bit_or acc (shl64 x (8 * i))) m
]

-- `m + n`
abbrev pub skip : ℕ → List ℕ → List ℕ
skip zero m = m
skip (suc n) [] = []
skip (suc n) (x ∷ m) = skip n m

-- the word that `pk_entry` returns
unfoldable pub pack : {B : Type 0} → Result B → ℕ
pack r =
    bit_or (bit_or (shl64 r.outcome 56) (shl64 r.reason 48))
      (bit_and r.consumed_bits 0xffffffffffff)

unfoldable pub packed : {B : Type 0} → Option (Result B) → Option ℕ
packed none = none
packed (some r) = some (pack r)

-- with the length read
unfoldable pub entry_of : {B : Type 0} → (Input → Option (Result B)) → List ℕ → Option ℕ → Option ℕ
entry_of parse_core buf none = none
entry_of parse_core buf (some bit_len) = packed (parse_core (masked buf bit_len))

-- `pk_entry`, around the `parse_core` of a parser
unfoldable pub pk_entry : {B : Type 0} → (Input → Option (Result B)) → List ℕ → Option ℕ
pk_entry parse_core m = entry_of parse_core (skip 8 m) (read_len 8 0 0 m)
