-- ===== src/Safety/Judgement.antt =====
-- The judgement, and the rules for sequence, branches and the end of a run.
use pakeles.Base.{
  ℕ, zero, suc, ◌+◌, ◌*◌, ◌^◌, ◌≤◌, ◌<◌, ◌≡◌, refl, ap, ◌∙◌, ◌⊎◌, inl, inr, Bool, true, false, List,
  Option, some, arith, length, if◌then◌else◌,
}
use mathlib.Core.Path.{subst}
use pakeles.Core.{
  Input, Locals, Verdict, Run, next, stop, fault, M, pure, fetch, store, continue, ◌>>=◌, reject,
  accept, slot,
}

-- What a caller promises: the buffer holds `bit_len` bits, the arithmetic on offsets has 64 bits to
-- spare, and the index of a byte that holds one of those bits is left alone.
pub record Fits (i : Input) : Type 0 where
  pub word : i.bit_len + 64 < 2 ^ 64
  pub held : i.bit_len ≤ 8 * length i.buf
  pub plain : (k : ℕ) → 8 * k < i.bit_len → i.index k ≡ k

-- The first `d` elements of the array are written; read inwards they do not grow, and the innermost
-- is not below `lo`.
abbrev pub Nested : List (Option ℕ) → ℕ → ℕ → Type 0
Nested ends zero lo = Unit {0}
Nested ends (suc d) lo =
    (e : ℕ) × (slot ends d ≡ some e) × (lo ≤ e) × (e < 2 ^ 64) × Nested ends d e

pub Nested-le :
    (ends : List (Option ℕ)) (d : ℕ) {lo hi : ℕ} → lo ≤ hi → Nested ends d hi → Nested ends d lo
Nested-le ends zero h n = tt
Nested-le ends (suc d) h (e, s, le, lt, n) = (e, s, omega arith, lt, n)

-- The same packet, read with no mask.
abbrev pub unmasked : Input → Input
unmasked i = record i { index = λ k. k }

module _ (slots : ℕ) (named : ℕ → Bool) where
  -- With `d` regions open, the cursor stands inside the packet and inside every region.
  pub record Good (i : Input) (d : ℕ) (l : Locals) : Type 0 where
    pub inside : l.off ≤ i.bit_len
    pub depth : l.rsp ≡ d
    pub cap : d ≤ slots
    pub room : length l.region_end ≡ slots
    pub ends : Nested l.region_end d l.off

  -- A return: accepted with no reason, or rejected with one that the parser names.
  pub record Sound (i : Input) (v : Verdict) : Type 0 where
    pub outcome : (v.outcome ≡ 0) × (v.reason ≡ 0) ⊎ (v.outcome ≡ 1) × (named v.reason ≡ true)
    pub consumed : v.consumed_bits ≤ i.bit_len

  abbrev pub Post : {B A : Type 0} → Input → (A → ℕ) → Run B A → Type 0
  Post i depth_of (next a l b) = Good i (depth_of a) l
  Post i depth_of (stop v b) = Sound i v
  Post i depth_of fault = ⊥

  -- Entered with `d` regions open, `m` does not fault: it returns soundly, or goes on with as many
  -- open as `depth_of` its value. Nor does the mask on packet indices change what it does.
  pub record Triple {B A : Type 0} (d : ℕ) (m : M B A) (depth_of : A → ℕ) : Type 0 where
    pub at : (i : Input) (l : Locals) (b : B) → Fits i → Good i d l → Post i depth_of (m i l b)
    pub same : (i : Input) (l : Locals) (b : B) → Fits i → Good i d l → m i l b ≡ m (unmasked i) l b

module _ {slots : ℕ} {named : ℕ → Bool} {B A : Type 0} {d : ℕ} {depth_of : A → ℕ} where
  pub Triple-pure : (a : A) → d ≡ depth_of a → Triple slots named {B = B} d (pure a) depth_of
  unfolding pure
  Triple-pure a e = record {
    at = λ i l b fits good. record {
      inside = good.inside;
      depth = good.depth ∙ e;
      cap = omega (arith, good.cap, e);
      room = good.room;
      ends = subst (λ k. Nested l.region_end k l.off) e good.ends;
    };
    same = λ i l b fits good. refl;
  }

  pub Triple-accept : Triple slots named {B = B} d (accept {A = A}) depth_of
  unfolding accept
  Triple-accept = record {
    at = λ i l b fits good. record { outcome = inl (refl, refl); consumed = good.inside };
    same = λ i l b fits good. refl;
  }

  pub Triple-reject :
      (r : ℕ) → named r ≡ true → Triple slots named {B = B} d (reject {A = A} r) depth_of
  unfolding reject
  Triple-reject r h = record {
    at = λ i l b fits good. record { outcome = inr (refl, h); consumed = good.inside };
    same = λ i l b fits good. refl;
  }

  pub Triple-if :
      (c : Bool) {m n : M B A}
      → Triple slots named d m depth_of
      → Triple slots named d n depth_of
      → Triple slots named d (if c then m else n) depth_of
  Triple-if true tm tn = tm
  Triple-if false tm tn = tn

module _ {slots : ℕ} {named : ℕ → Bool} {B A C : Type 0} {depth_of : A → ℕ}
    {depth_of' : C → ℕ} where
  Post-continue :
      (i : Input) (r : Run B A) (f : A → M B C)
      → Fits i
      → Post slots named i depth_of r
      → ((a : A) → Triple slots named (depth_of a) (f a) depth_of')
      → Post slots named i depth_of' (continue r f i)
  unfolding continue
  Post-continue i (next a l b) f fits p tf = (tf a).at i l b fits p
  Post-continue i (stop v b) f fits p tf = p
  Post-continue i fault f fits p tf = p

  continue-same :
      (i : Input) (r : Run B A) (f : A → M B C)
      → Fits i
      → Post slots named i depth_of r
      → ((a : A) → Triple slots named (depth_of a) (f a) depth_of')
      → continue r f i ≡ continue r f (unmasked i)
  unfolding continue
  continue-same i (next a l b) f fits p tf = (tf a).same i l b fits p
  continue-same i (stop v b) f fits p tf = refl
  continue-same i fault f fits p tf = refl

  pub Triple-bind :
      {d : ℕ} {m : M B A} {f : A → M B C}
      → Triple slots named d m depth_of
      → ((a : A) → Triple slots named (depth_of a) (f a) depth_of')
      → Triple slots named d (m >>= f) depth_of'
  unfolding ◌>>=◌
  Triple-bind {d} {m} {f} tm tf = record {
    at = λ i l b fits good. Post-continue i (m i l b) f fits (tm.at i l b fits good) tf;
    same = λ i l b fits good.
        continue-same i (m i l b) f fits (tm.at i l b fits good) tf
        ∙ ap (λ r. continue r f (unmasked i)) (tm.same i l b fits good);
  }

module _ {slots : ℕ} {named : ℕ → Bool} {B A C : Type 0} {d e : ℕ} {depth_of : C → ℕ} where
  -- a statement that leaves `e` regions open whatever its value, and what follows it
  infixr 6 ◌⨾◌ ◌▸◌
  pub ◌⨾◌ :
      {m : M B A} {f : A → M B C}
      → Triple slots named d m (λ _. e)
      → ((a : A) → Triple slots named e (f a) depth_of)
      → Triple slots named d (m >>= f) depth_of
  tm ⨾ tf = Triple-bind tm tf

  pub ◌▸◌ :
      {m : M B A} {n : M B C}
      → Triple slots named d m (λ _. e)
      → Triple slots named e n depth_of
      → Triple slots named d (m >>= λ _. n) depth_of
  tm ▸ tn = Triple-bind tm (λ _. tn)

module _ {slots : ℕ} {named : ℕ → Bool} {B : Type 0} {d : ℕ} where
  pub Triple-store : (f : B → B) → Triple slots named d (store f) (λ _. d)
  unfolding store
  Triple-store f = record { at = λ i l b fits good. good; same = λ i l b fits good. refl }

  pub Triple-fetch : {A : Type 0} (f : B → A) → Triple slots named d (fetch f) (λ _. d)
  unfolding fetch
  Triple-fetch f = record { at = λ i l b fits good. good; same = λ i l b fits good. refl }
