-- ===== src/Safety/Loop.antt =====
-- From the states to the whole function.
use pakeles.Base.{
  ℕ, zero, suc, ◌+◌, ◌*◌, ◌^◌, ◌≤◌, ◌<◌, ◌≡◌, refl, sym, ap, ◌⊎◌, Bool, true, List, mask_4095,
  Option, none, some, arith, length, replicate, length-replicate,
}
use pakeles.Core.{
  Input, Run, next, stop, fault, M, loop, run_core, portable, masked, buf_mask, Result, returned,
  max_depth_exceeded,
}
use mathlib.Core.Path.{subst}
use pakeles.Safety.Judgement.{Fits, unmasked, Nested, Post, Triple, Triple-bind, Triple-reject}

-- A result: accepted with reason 0, or rejected with a reason that the parser names, with no more
-- bits consumed than there are.
pub record IsSound {B : Type 0} (named : ℕ → Bool) (bit_len : ℕ) (r : Result B) : Type 0 where
  pub outcome : (r.outcome ≡ 0) × (r.reason ≡ 0) ⊎ (r.outcome ≡ 1) × (named r.reason ≡ true)
  pub consumed : r.consumed_bits ≤ bit_len

-- The function returns, and what it returns is sound.
abbrev pub ReturnsSound : {B : Type 0} → (ℕ → Bool) → ℕ → Option (Result B) → Type 0
ReturnsSound {B} named bit_len o = (r : Result B) × (o ≡ some r) × IsSound named bit_len r

Post-returned :
    {B : Type 0} {named : ℕ → Bool} (slots : ℕ) (i : Input) (r : Run B ⊥)
    → Post slots named i (λ _. 0) r
    → ReturnsSound named i.bit_len (returned r)
unfolding returned
Post-returned slots i (next a l b) p = absurd a
Post-returned slots i (stop v b) p =
    (_, refl, record { outcome = p.outcome; consumed = p.consumed })
Post-returned slots i fault p = absurd p

module _ (slots : ℕ) (named : ℕ → Bool) {B S : Type 0} {body : S → M B S} (depth_of : S → ℕ) where
  pub Triple-loop :
      ((s : S) → Triple slots named (depth_of s) (body s) depth_of)
      → named max_depth_exceeded ≡ true
      → (fuel : ℕ) (s : S) → Triple slots named (depth_of s) (loop body fuel s) (λ _. 0)
  unfolding loop
  Triple-loop step n zero s = Triple-reject max_depth_exceeded n
  Triple-loop step n (suc fuel) s = Triple-bind (step s) (λ s'. Triple-loop step n fuel s')

  -- `parse_core` is sound when each state is, from the number of open regions that it expects.
  pub run_core-ReturnsSound :
      ((s : S) → Triple slots named (depth_of s) (body s) depth_of)
      → named max_depth_exceeded ≡ true
      → (fuel : ℕ) (s : S) → depth_of s ≡ 0
      → (i : Input) (b : B) → Fits i
      → ReturnsSound named i.bit_len (run_core body fuel s slots i b)
  unfolding run_core
  run_core-ReturnsSound step n fuel s start i b fits = Post-returned slots i _ (
      (Triple-loop step n fuel s).at i _ b fits (record {
        inside = omega arith;
        depth = sym start;
        cap = omega (arith, start);
        room = length-replicate slots none;
        ends = subst (λ d. Nested (replicate slots none) d 0) (sym start) tt;
      }))

  -- and then the mask on packet indices changes nothing.
  pub run_core-unmasked :
      ((s : S) → Triple slots named (depth_of s) (body s) depth_of)
      → named max_depth_exceeded ≡ true
      → (fuel : ℕ) (s : S) → depth_of s ≡ 0
      → (i : Input) (b : B) → Fits i
      → run_core body fuel s slots i b ≡ run_core body fuel s slots (unmasked i) b
  unfolding run_core
  run_core-unmasked step n fuel s start i b fits = ap returned (
      (Triple-loop step n fuel s).same i _ b fits (record {
        inside = omega arith;
        depth = sym start;
        cap = omega (arith, start);
        room = length-replicate slots none;
        ends = subst (λ d. Nested (replicate slots none) d 0) (sym start) tt;
      }))

-- What a caller of parser.c promises.
pub portable-Fits :
    (buf : List ℕ) (bit_len : ℕ)
    → bit_len ≤ 8 * length buf
    → bit_len + 64 < 2 ^ 64
    → Fits (portable buf bit_len)
portable-Fits buf bit_len h w = record { word = w; held = h; plain = λ k lt. refl }

-- What a caller of parser.bpf.c promises: the packet is not longer than `PK_BUF_MASK + 1` bytes.
pub masked-Fits :
    (buf : List ℕ) (bit_len : ℕ)
    → bit_len ≤ 8 * length buf
    → bit_len ≤ 8 * (buf_mask + 1)
    → Fits (masked buf bit_len)
masked-Fits buf bit_len h w = record {
  word = omega (arith, w);
  held = h;
  plain = λ k lt. mask_4095 k (omega (arith, w, lt));
}
