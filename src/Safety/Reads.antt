-- ===== src/Safety/Reads.antt =====
-- Packet reads that end inside the packet do not fault.
use pakeles.Base.{
  ℕ, zero, suc, ◌+◌, ◌*◌, ◌≤◌, ◌<◌, ◌≡◌, refl, sym, ◌∙◌, arith, get_elem?_in, add64, shr64, bit_or,
  shl64,
}
use pakeles.Core.{Input, Locals, next, ◌>>=◌, read_byte, load_be, bit_at, read_bits_from, read_bits}
use pakeles.Safety.Judgement.{Fits, unmasked}

module _ {B : Type 0} {i : Input} (l : Locals) (b : B) (fits : Fits i) where
  pub read_byte_next : (at : ℕ) → 8 * at < i.bit_len → (v : ℕ) × (read_byte at i l b ≡ next v l b)
  unfolding read_byte ◌>>=◌
  read_byte_next at h =
      let (v, e) = get_elem?_in i.buf at (omega (arith, fits.held)) in
      (v, rw (fits.plain at h, e, read_byte))

  pub load_be_next :
      (k at : ℕ) → 8 * at + 8 * k ≤ i.bit_len → (v : ℕ) × (load_be k at i l b ≡ next v l b)
  unfolding load_be ◌>>=◌
  load_be_next zero at h = (0, refl)
  load_be_next (suc zero) at h = read_byte_next at (omega arith)
  load_be_next (suc (suc k)) at h =
      let (high, e) = read_byte_next at (omega arith) in
      let (low, f) = load_be_next (suc k) (at + 1) (omega arith) in
      (bit_or (shl64 high (8 * suc k)) low, rw (e, f))

  pub read_bits_from_next :
      (n off j v : ℕ)
      → off + j + n ≤ i.bit_len
      → (w : ℕ) × (read_bits_from n off j v i l b ≡ next w l b)
  unfolding read_bits_from ◌>>=◌
  read_bits_from_next zero off j v h = (v, refl)
  read_bits_from_next (suc n) off j v h =
      let (x, e) = read_byte_next (shr64 (add64 off j) 3) (omega (arith, fits.word)) in
      let step = bit_or (shl64 v 1) (bit_at x (add64 off j)) in
      let (w, f) = read_bits_from_next n off (j + 1) step (omega arith) in (w, rw (e, f))

  pub read_bits_next :
      (off n : ℕ) → off + n ≤ i.bit_len → (w : ℕ) × (read_bits off n i l b ≡ next w l b)
  unfolding read_bits ◌>>=◌
  read_bits_next off n h = read_bits_from_next n off 0 0 (omega arith)

-- The index of a byte that is read is one that the mask leaves alone.
module _ {B : Type 0} {i : Input} (l : Locals) (b : B) (fits : Fits i) where
  read_byte_same :
      (at : ℕ) → 8 * at < i.bit_len → read_byte at i l b ≡ read_byte at (unmasked i) l b
  unfolding read_byte ◌>>=◌
  read_byte_same at h = rw (fits.plain at h, read_byte)

  pub load_be_same :
      (k at : ℕ) → 8 * at + 8 * k ≤ i.bit_len → load_be k at i l b ≡ load_be k at (unmasked i) l b
  unfolding load_be ◌>>=◌
  load_be_same zero at h = refl
  load_be_same (suc zero) at h = read_byte_same at (omega arith)
  load_be_same (suc (suc k)) at h =
      let (high, e) = read_byte_next l b fits at (omega arith) in
      let (low, f) = load_be_next l b fits (suc k) (at + 1) (omega arith) in
      let e' = sym (read_byte_same at (omega arith)) ∙ e in
      let f' = sym (load_be_same (suc k) (at + 1) (omega arith)) ∙ f in rw (e, e', f, f')

  pub read_bits_from_same :
      (n off j v : ℕ)
      → off + j + n ≤ i.bit_len
      → read_bits_from n off j v i l b ≡ read_bits_from n off j v (unmasked i) l b
  unfolding read_bits_from ◌>>=◌
  read_bits_from_same zero off j v h = refl
  read_bits_from_same (suc n) off j v h =
      let at : 8 * shr64 (add64 off j) 3 < i.bit_len = omega (arith, fits.word) in
      let (x, e) = read_byte_next l b fits (shr64 (add64 off j) 3) at in
      let e' = sym (read_byte_same (shr64 (add64 off j) 3) at) ∙ e in
      let step = bit_or (shl64 v 1) (bit_at x (add64 off j)) in
      rw (e, e') (read_bits_from_same n off (j + 1) step (omega arith))

  pub read_bits_same :
      (off n : ℕ) → off + n ≤ i.bit_len → read_bits off n i l b ≡ read_bits off n (unmasked i) l b
  unfolding read_bits ◌>>=◌
  read_bits_same off n h = read_bits_from_same n off 0 0 (omega arith)
