-- ===== src/Values/Statements.antt =====
-- The statements that read a field, exactly: what they store, how far they go, and when they reject.
use pakeles.Base.{
  ℕ, ◌+◌, ◌*◌, ◌/◌, ◌%◌, ◌≤◌, ◌<◌, ◌≡◌, arith, Bool-cases, true, false, inl, inr, ltb, leb,
  if◌then◌else◌, add64, sub64,
}
use pakeles.Core.{
  Input, Locals, Run, next, stop, ◌>>=◌, reject, reject_if, advance, in_buffer, run_in_buffer,
  bytes, bits, run_of, out_of_bounds,
}
use pakeles.Safety.{Fits}
use pakeles.Values.Numbers.{IsBytes, number}
use pakeles.Values.Reads.{read_bits-number, load_be-number}

-- `n` bits read at the cursor and stored, or `out_of_bounds` where fewer are left.
abbrev pub take_field : {B : Type 0} → (ℕ → B → B) → ℕ → Input → Locals → B → Run B (Unit {0})
take_field put n i l b =
    if leb (l.off + n) i.bit_len
    then next tt (record l { off = l.off + n }) (put (number i.buf n l.off) b)
    else stop (record { outcome = 1; reason = out_of_bounds; consumed_bits = l.off }) b

module _ {B : Type 0} {i : Input} (fits : Fits i) (l : Locals) (b : B)
    (inside : l.off ≤ i.bit_len) where
  -- the test, from both of its ends
  pub in_buffer-next : (n : ℕ) → l.off + n ≤ i.bit_len → in_buffer n i l b ≡ next tt l b
  unfolding in_buffer ◌>>=◌ reject_if
  in_buffer-next n h = elim (Bool-cases (ltb i.bit_len (add64 l.off n))) [
    | inl over ↦ absurd (ground (arith, fits.word))
    | inr room ↦ rw room
  ]

  pub in_buffer-stop :
      (n : ℕ) → n ≤ 64 → i.bit_len < l.off + n → in_buffer n i l b ≡ reject out_of_bounds i l b
  unfolding in_buffer ◌>>=◌ reject_if
  in_buffer-stop n small h = elim (Bool-cases (ltb i.bit_len (add64 l.off n))) [
    | inl over ↦ rw over
    | inr room ↦ absurd (ground (arith, fits.word))
  ]

  pub bits-next :
      (n : ℕ) (put : ℕ → B → B)
      → n ≤ 64
      → l.off + n ≤ i.bit_len
      → bits n put i l b ≡ next tt (record l { off = l.off + n }) (put (number i.buf n l.off) b)
  unfolding bits ◌>>=◌ advance
  bits-next n put small h =
      let exact : add64 l.off n ≡ l.off + n = omega (arith, fits.word) in
      rw (in_buffer-next n h, read_bits-number fits l b l.off n h small, exact)

  pub bits-stop :
      (n : ℕ) (put : ℕ → B → B)
      → n ≤ 64
      → i.bit_len < l.off + n
      → bits n put i l b ≡ reject out_of_bounds i l b
  unfolding bits ◌>>=◌ reject
  bits-stop n put small h = rw (in_buffer-stop n small h)

  -- `bits n`, at n ≤ 64 and a cursor inside the packet: it stores the number that the next n bits
  -- stand for and moves past them, or rejects with `out_of_bounds` at the cursor where fewer are left.
  pub bits-take_field :
      (n : ℕ) (put : ℕ → B → B) → n ≤ 64 → bits n put i l b ≡ take_field put n i l b
  unfolding reject
  bits-take_field n put small = elim (Bool-cases (leb (l.off + n) i.bit_len)) [
    | inl room ↦ rw room (bits-next n put small (ground arith))
    | inr over ↦ rw over (bits-stop n put small (ground arith))
  ]

  pub bytes-next :
      (k : ℕ) (put : ℕ → B → B)
      → IsBytes i.buf
      → l.off % 8 ≡ 0
      → k ≤ 8
      → l.off + 8 * k ≤ i.bit_len
      → bytes k put i l b
        ≡ next tt (record l { off = l.off + 8 * k }) (put (number i.buf (8 * k) l.off) b)
  unfolding bytes ◌>>=◌ advance
  bytes-next k put held aligned small h =
      let exact : add64 l.off (8 * k) ≡ l.off + 8 * k = omega (arith, fits.word) in
      let start : 8 * (l.off / 8) ≡ l.off = omega arith in
      rw (
        in_buffer-next (8 * k) h,
        load_be-number fits l b k (l.off / 8) held (omega arith) small,
        exact,
        start,
      )

  pub bytes-stop :
      (k : ℕ) (put : ℕ → B → B)
      → k ≤ 8
      → i.bit_len < l.off + 8 * k
      → bytes k put i l b ≡ reject out_of_bounds i l b
  unfolding bytes ◌>>=◌ reject
  bytes-stop k put small h = rw (in_buffer-stop (8 * k) (omega arith) h)

  -- `bytes k`, at k ≤ 8 and an aligned cursor inside a packet of bytes: it stores the number that the
  -- next 8 * k bits stand for and moves past them, or rejects with `out_of_bounds` at the cursor.
  pub bytes-take_field :
      (k : ℕ) (put : ℕ → B → B)
      → IsBytes i.buf
      → l.off % 8 ≡ 0
      → k ≤ 8
      → bytes k put i l b ≡ take_field put (8 * k) i l b
  unfolding reject
  bytes-take_field k put held aligned small = elim (Bool-cases (leb (l.off + 8 * k) i.bit_len)) [
    | inl room ↦ rw room (bytes-next k put held aligned small (ground arith))
    | inr over ↦ rw over (bytes-stop k put small (ground arith))
  ]

-- The next `n` bits skipped, their place stored, or `out_of_bounds` where fewer are left.
abbrev pub take_run : {B : Type 0} → (ℕ → ℕ → B → B) → ℕ → Input → Locals → B → Run B (Unit {0})
take_run put n i l b =
    if leb (l.off + n) i.bit_len
    then next tt (record l { off = l.off + n }) (put l.off n b)
    else stop (record { outcome = 1; reason = out_of_bounds; consumed_bits = l.off }) b

module _ {B : Type 0} {i : Input} (fits : Fits i) (l : Locals) (b : B)
    (inside : l.off ≤ i.bit_len) where
  -- `run_of n`, at any n and a cursor inside the packet: it stores where the next n bits are and moves
  -- past them, or rejects with `out_of_bounds` at the cursor where fewer are left.
  pub run_of-take_run : (n : ℕ) (put : ℕ → ℕ → B → B) → run_of n put i l b ≡ take_run put n i l b
  unfolding run_of run_in_buffer ◌>>=◌ reject_if reject advance
  run_of-take_run n put = elim (Bool-cases (leb (l.off + n) i.bit_len)) [
    | inl room ↦
        let t : ltb (sub64 i.bit_len l.off) n ≡ false = ground (arith, fits.word) in
        let exact : add64 l.off n ≡ l.off + n = ground (arith, fits.word) in rw (room, t, exact)
    | inr over ↦
        let t : ltb (sub64 i.bit_len l.off) n ≡ true = ground (arith, fits.word) in rw (over, t)
  ]
