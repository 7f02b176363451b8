-- ===== src/Safety/Statements.antt =====
-- The rules for the statements of a parser without regions.
use pakeles.Base.{
  ℕ, ◌+◌, ◌*◌, ◌≤◌, ◌≡◌, refl, sym, ◌∙◌, ◌⊎◌, inl, inr, Bool, Bool-cases, true, arith, ltb, add64,
  sub64, shr64,
}
use pakeles.Core.{
  Input, Locals, Run, next, ◌>>=◌, reject, reject_if, advance, in_buffer, run_in_buffer, bytes,
  bits, run_of, out_of_bounds, out_of_region_bounds, region_out_of_bounds, region_not_exhausted,
}
use pakeles.Safety.Judgement.{Fits, unmasked, Good, Post, Triple}
use pakeles.Safety.Blind.{Blind-in_buffer, Blind-run_of}
use pakeles.Safety.Reads.{load_be_next, read_bits_next, load_be_same, read_bits_same}

module _ {B : Type 0} {i : Input} (l : Locals) (b : B) (fits : Fits i)
    (inside : l.off ≤ i.bit_len) where
  -- The test lets the statements behind it run, and then `n` more bits are inside the packet, or it
  -- rejects at the cursor.
  pub in_buffer_cases :
      (n : ℕ)
      → n ≤ 64
      → (in_buffer n i l b ≡ next tt l b) × (l.off + n ≤ i.bit_len)
        ⊎ (in_buffer n i l b ≡ reject out_of_bounds i l b)
  unfolding in_buffer ◌>>=◌ reject_if
  in_buffer_cases n small = elim (Bool-cases (ltb i.bit_len (add64 l.off n))) [
    | inl over ↦ inr (rw over)
    | inr room ↦ inl (rw room, ground (arith, fits.word))
  ]

  pub run_in_buffer_cases :
      (n : ℕ)
      → (run_in_buffer n i l b ≡ next tt l b) × (l.off + n ≤ i.bit_len)
        ⊎ (run_in_buffer n i l b ≡ reject out_of_bounds i l b)
  unfolding run_in_buffer ◌>>=◌ reject_if
  run_in_buffer_cases n = elim (Bool-cases (ltb (sub64 i.bit_len l.off) n)) [
    | inl over ↦ inr (rw over)
    | inr room ↦ inl (rw room, ground (arith, fits.word))
  ]

-- How a field read ends: past the field with `put` done, or rejected at the cursor.
module _ {B : Type 0} {i : Input} (l : Locals) (b : B) (fits : Fits i)
    (inside : l.off ≤ i.bit_len) where
  pub bytes_cases :
      (k : ℕ) (put : ℕ → B → B)
      → k ≤ 8
      → ((v : ℕ) × (bytes k put i l b ≡ next tt (record l { off = l.off + 8 * k }) (put v b))
          × (l.off + 8 * k ≤ i.bit_len))
        ⊎ (bytes k put i l b ≡ reject out_of_bounds i l b)
  unfolding bytes ◌>>=◌ advance reject
  bytes_cases k put small = elim (in_buffer_cases l b fits inside (8 * k) (omega arith)) [
    | inr r ↦ inr (rw r)
    | inl (t, room) ↦
        let (v, e) = load_be_next l b fits k (shr64 l.off 3) (omega arith) in
        let exact : add64 l.off (8 * k) ≡ l.off + 8 * k = omega (arith, fits.word) in
        inl (v, rw (t, e, exact), room)
  ]

  pub bytes_same :
      (k : ℕ) (put : ℕ → B → B) → k ≤ 8 → bytes k put i l b ≡ bytes k put (unmasked i) l b
  unfolding bytes ◌>>=◌ advance reject
  bytes_same k put small = elim (in_buffer_cases l b fits inside (8 * k) (omega arith)) [
    | inr r ↦ rw (r, sym ((Blind-in_buffer (8 * k)).at i l b) ∙ r)
    | inl (t, room) ↦
        let at : 8 * shr64 l.off 3 + 8 * k ≤ i.bit_len = omega arith in
        let (v, e) = load_be_next l b fits k (shr64 l.off 3) at in
        let e' = sym (load_be_same l b fits k (shr64 l.off 3) at) ∙ e in
        rw (t, sym ((Blind-in_buffer (8 * k)).at i l b) ∙ t, e, e')
  ]

  pub bits_same :
      (n : ℕ) (put : ℕ → B → B) → n ≤ 64 → bits n put i l b ≡ bits n put (unmasked i) l b
  unfolding bits ◌>>=◌ advance reject
  bits_same n put small = elim (in_buffer_cases l b fits inside n small) [
    | inr r ↦ rw (r, sym ((Blind-in_buffer n).at i l b) ∙ r)
    | inl (t, room) ↦
        let (v, e) = read_bits_next l b fits l.off n room in
        let e' = sym (read_bits_same l b fits l.off n room) ∙ e in
        rw (t, sym ((Blind-in_buffer n).at i l b) ∙ t, e, e')
  ]

  pub bits_cases :
      (n : ℕ) (put : ℕ → B → B)
      → n ≤ 64
      → ((v : ℕ) × (bits n put i l b ≡ next tt (record l { off = l.off + n }) (put v b))
          × (l.off + n ≤ i.bit_len))
        ⊎ (bits n put i l b ≡ reject out_of_bounds i l b)
  unfolding bits ◌>>=◌ advance reject
  bits_cases n put small = elim (in_buffer_cases l b fits inside n small) [
    | inr r ↦ inr (rw r)
    | inl (t, room) ↦
        let (v, e) = read_bits_next l b fits l.off n room in
        let exact : add64 l.off n ≡ l.off + n = omega (arith, fits.word) in
        inl (v, rw (t, e, exact), room)
  ]

  pub run_of_cases :
      (n : ℕ) (put : ℕ → ℕ → B → B)
      → (run_of n put i l b ≡ next tt (record l { off = l.off + n }) (put l.off n b))
          × (l.off + n ≤ i.bit_len)
        ⊎ (run_of n put i l b ≡ reject out_of_bounds i l b)
  unfolding run_of ◌>>=◌ advance reject
  run_of_cases n put = elim (run_in_buffer_cases l b fits inside n) [
    | inr r ↦ inr (rw r)
    | inl (t, room) ↦
        let exact : add64 l.off n ≡ l.off + n = omega (arith, fits.word) in
        inl (rw (t, exact), room)
  ]

-- Each of the reasons that the statements of regions give has a name.
pub record NamesBuiltIn (named : ℕ → Bool) : Type 0 where
  pub oob : named out_of_bounds ≡ true
  pub oorb : named out_of_region_bounds ≡ true
  pub robb : named region_out_of_bounds ≡ true
  pub rne : named region_not_exhausted ≡ true

-- In a parser without regions a read moves the cursor and nothing else.
module _ {slots : ℕ} {named : ℕ → Bool} ⦃names : NamesBuiltIn named⦄ {B : Type 0} where
  pub rejected :
      {A : Type 0} {i : Input} {l : Locals} {d : ℕ} (b : B) (r : Run B A) (depth_of : A → ℕ)
      → r ≡ reject out_of_bounds i l b
      → Good slots named i d l
      → Post slots named i depth_of r
  unfolding reject
  rejected b r depth_of e good =
      rw e (record { outcome = inr (refl, names.oob); consumed = good.inside })

  moved :
      {i : Input} {l : Locals} {b : B} (n : ℕ) (r : Run B (Unit {0}))
      → r ≡ next tt (record l { off = l.off + n }) b
      → l.off + n ≤ i.bit_len
      → Good slots named i 0 l
      → Post slots named i (λ _. 0) r
  moved n r e room good =
      rw e
        (record { inside = room; depth = good.depth; cap = good.cap; room = good.room; ends = tt })

  pub Triple-bytes : (k : ℕ) (put : ℕ → B → B) → k ≤ 8 → Triple slots named 0 (bytes k put) (λ _. 0)
  Triple-bytes k put small = record {
    at = λ i l b fits good. elim (bytes_cases l b fits good.inside k put small) [
      | inl (v, e, room) ↦ moved (8 * k) _ e room good
      | inr e ↦ rejected b _ _ e good
    ];
    same = λ i l b fits good. bytes_same l b fits good.inside k put small;
  }

  pub Triple-bits : (n : ℕ) (put : ℕ → B → B) → n ≤ 64 → Triple slots named 0 (bits n put) (λ _. 0)
  Triple-bits n put small = record {
    at = λ i l b fits good. elim (bits_cases l b fits good.inside n put small) [
      | inl (v, e, room) ↦ moved n _ e room good
      | inr e ↦ rejected b _ _ e good
    ];
    same = λ i l b fits good. bits_same l b fits good.inside n put small;
  }

  pub Triple-run_of : (n : ℕ) (put : ℕ → ℕ → B → B) → Triple slots named 0 (run_of n put) (λ _. 0)
  Triple-run_of n put = record {
    at = λ i l b fits good. elim (run_of_cases l b fits good.inside n put) [
      | inl (e, room) ↦ moved n _ e room good
      | inr e ↦ rejected b _ _ e good
    ];
    same = λ i l b fits good. (Blind-run_of n put).at i l b;
  }
