-- ===== src/Core/Monad.antt =====
-- Execution of C statements inside `parse_core`: the packet, the local variables, `*out`, and the
-- ways in which control leaves a statement.
use pakeles.Base.{ℕ, List, Option}

-- `index` is applied to every packet index: the identity in parser.c, `& PK_BUF_MASK` in
-- parser.bpf.c.
pub record Input : Type 0 where
  pub buf : List ℕ
  pub bit_len : ℕ
  pub index : ℕ → ℕ

-- `off`, `pk_rsp` and the array `pk_region_end`, whose elements are `none` until written.
pub record Locals : Type 0 where
  pub off : ℕ
  pub rsp : ℕ
  pub region_end : List (Option ℕ)

-- The fields of `*out` that a `return` has just set; the value returned is `outcome`.
pub record Verdict : Type 0 where
  pub outcome : ℕ
  pub reason : ℕ
  pub consumed_bits : ℕ

-- A statement goes on with a value, returns from `parse_core`, or does what C leaves undefined: it
-- reads outside the buffer, or an element of `pk_region_end` that is outside it or not yet written.
pub data Run (B A : Type 0) : Type 0 where
  next : A → Locals → B → Run B A
  stop : Verdict → B → Run B A
  fault : Run B A

-- `B` is the rest of `*out`: the header instances and the metadata.
abbrev pub M : Type 0 → Type 0 → Type 0
M B A = Input → Locals → B → Run B A

module _ {B A : Type 0} where
  unfoldable pub pure : A → M B A
  pure a i l b = next a l b

  -- the only faults: reads that miss
  unfoldable pub crash : M B A
  crash i l b = fault

  unfoldable pub fetch : (B → A) → M B A
  fetch f i l b = next (f b) l b

module _ {B : Type 0} where
  unfoldable pub bit_len : M B ℕ
  bit_len i l b = next i.bit_len l b

  unfoldable pub locals : M B Locals
  locals i l b = next l l b

  unfoldable pub store : (B → B) → M B (Unit {0})
  store f i l b = next tt l (f b)

  unfoldable pub set_locals : Locals → M B (Unit {0})
  set_locals l' i l b = next tt l' b

module _ {B A C : Type 0} where
  unfoldable pub continue : Run B A → (A → M B C) → Input → Run B C
  continue (next a l b) f i = f a i l b
  continue (stop v b) f i = stop v b
  continue fault f i = fault

  infixl 5 ◌>>=◌
  unfoldable pub ◌>>=◌ : M B A → (A → M B C) → M B C
  unfolding continue pure crash fetch bit_len locals store set_locals
  ◌>>=◌ m f i l b = continue (m i l b) f i

infixl 5 ◌>>◌
abbrev pub ◌>>◌ : {B C : Type 0} → M B (Unit {0}) → M B C → M B C
m >> n = m >>= λ _. n
