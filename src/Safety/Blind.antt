-- ===== src/Safety/Blind.antt =====
-- Statements that do not read the packet's bytes: the mask on packet indices is nothing to them.
use pakeles.Base.{ℕ, ◌≡◌, refl, ap, ◌∙◌, Bool, true, false, Option, none, some, if◌then◌else◌}
use pakeles.Core.{
  Input, Locals, Run, next, stop, fault, M, pure, crash, store, locals, bit_len, set_locals,
  continue, ◌>>=◌, reject, reject_if, advance, in_buffer, run_in_buffer, run_of, element, top,
  remaining, in_top, in_region, at_most_remaining, run_in_region, run_of_in, no_overflow, can_push,
  push, pop,
}
use pakeles.Safety.Judgement.{unmasked}

pub record Blind {B A : Type 0} (m : M B A) : Type 0 where
  pub at : (i : Input) (l : Locals) (b : B) → m i l b ≡ m (unmasked i) l b

module _ {B A C : Type 0} {f : A → M B C} where
  continue-Blind :
      ((a : A) → Blind (f a))
      → (i : Input) (r : Run B A) → continue r f i ≡ continue r f (unmasked i)
  unfolding continue
  continue-Blind bf i (next a l b) = (bf a).at i l b
  continue-Blind bf i (stop v b) = refl
  continue-Blind bf i fault = refl

  pub Blind-bind : {m : M B A} → Blind m → ((a : A) → Blind (f a)) → Blind (m >>= f)
  unfolding ◌>>=◌
  Blind-bind {m} bm bf = record {
    at = λ i l b. continue-Blind bf i (m i l b) ∙ ap (λ r. continue r f (unmasked i)) (bm.at i l b);
  }

module _ {B A : Type 0} where
  Blind-if : (c : Bool) {m n : M B A} → Blind m → Blind n → Blind (if c then m else n)
  Blind-if true bm bn = bm
  Blind-if false bm bn = bn

  Blind-pure : (a : A) → Blind {B = B} (pure a)
  unfolding pure
  Blind-pure a = record { at = λ i l b. refl }

  Blind-reject : (r : ℕ) → Blind {B = B} (reject {A = A} r)
  unfolding reject
  Blind-reject r = record { at = λ i l b. refl }

module _ {B : Type 0} where
  Blind-locals : Blind {B = B} locals
  unfolding locals
  Blind-locals = record { at = λ i l b. refl }

  Blind-bit_len : Blind {B = B} bit_len
  unfolding bit_len
  Blind-bit_len = record { at = λ i l b. refl }

  Blind-set_locals : (l' : Locals) → Blind {B = B} (set_locals l')
  unfolding set_locals
  Blind-set_locals l' = record { at = λ i l b. refl }

  Blind-store : (f : B → B) → Blind (store f)
  unfolding store
  Blind-store f = record { at = λ i l b. refl }

  Blind-advance : (n : ℕ) → Blind {B = B} (advance n)
  unfolding advance
  Blind-advance n = record { at = λ i l b. refl }

  Blind-element : (o : Option ℕ) → Blind {B = B} (element o)
  unfolding element crash
  Blind-element none = record { at = λ i l b. refl }
  Blind-element (some e) = Blind-pure e

  Blind-reject_if : (c : Bool) (r : ℕ) → Blind {B = B} (reject_if c r)
  unfolding reject_if
  Blind-reject_if c r = Blind-if c (Blind-reject r) (Blind-pure tt)

  pub Blind-in_buffer : (n : ℕ) → Blind {B = B} (in_buffer n)
  unfolding in_buffer
  Blind-in_buffer n =
      Blind-bind Blind-bit_len (λ total. Blind-bind Blind-locals (λ l. Blind-reject_if _ _))

  Blind-run_in_buffer : (n : ℕ) → Blind {B = B} (run_in_buffer n)
  unfolding run_in_buffer
  Blind-run_in_buffer n =
      Blind-bind Blind-bit_len (λ total. Blind-bind Blind-locals (λ l. Blind-reject_if _ _))

  Blind-place :
      (n : ℕ) (put : ℕ → B → B) → Blind (locals >>= λ l. store (put l.off) >>= λ _. advance n)
  Blind-place n put =
      Blind-bind Blind-locals (λ l. Blind-bind (Blind-store _) (λ _. Blind-advance n))

  pub Blind-run_of : (n : ℕ) (put : ℕ → ℕ → B → B) → Blind (run_of n put)
  unfolding run_of
  Blind-run_of n put = Blind-bind (Blind-run_in_buffer n) (λ _. Blind-place n (λ off. put off n))

module _ {B : Type 0} (rmask : ℕ) where
  Blind-top : Blind {B = B} (top rmask)
  unfolding top
  Blind-top = Blind-bind Blind-locals (λ l. Blind-element _)

  pub Blind-remaining : Blind {B = B} (remaining rmask)
  unfolding remaining
  Blind-remaining = Blind-bind Blind-top (λ e. Blind-bind Blind-locals (λ l. Blind-pure _))

  pub Blind-in_region : (n : ℕ) → Blind {B = B} (in_region rmask n)
  unfolding in_region in_top
  Blind-in_region n = Blind-bind Blind-locals (λ l.
      Blind-if _ (Blind-pure tt)
        (Blind-bind Blind-top (λ e. Blind-bind Blind-locals (λ l'. Blind-reject_if _ _))))

  Blind-at_most_remaining : (n r : ℕ) → Blind {B = B} (at_most_remaining rmask n r)
  unfolding at_most_remaining
  Blind-at_most_remaining n r = Blind-bind Blind-remaining (λ left. Blind-reject_if _ _)

  Blind-run_in_region : (n : ℕ) → Blind {B = B} (run_in_region rmask n)
  unfolding run_in_region
  Blind-run_in_region n =
      Blind-bind Blind-locals (λ l. Blind-if _ (Blind-pure tt) (Blind-at_most_remaining n _))

  pub Blind-run_of_in : (n : ℕ) (put : ℕ → ℕ → B → B) → Blind (run_of_in rmask n put)
  unfolding run_of_in
  Blind-run_of_in n put =
      Blind-bind (Blind-run_in_region n)
        (λ _. Blind-bind (Blind-run_in_buffer n) (λ _. Blind-place n (λ off. put off n)))

  Blind-no_overflow : (n : ℕ) → Blind {B = B} (no_overflow rmask n)
  unfolding no_overflow
  Blind-no_overflow n = Blind-bind Blind-locals (λ l. Blind-reject_if _ _)

  Blind-can_push : (n : ℕ) → Blind {B = B} (can_push rmask n)
  unfolding can_push
  Blind-can_push n =
      Blind-bind Blind-locals (λ l. Blind-if _ (Blind-no_overflow n) (Blind-at_most_remaining n _))

  pub Blind-push : (n : ℕ) → Blind {B = B} (push rmask n)
  unfolding push
  Blind-push n = Blind-bind (Blind-can_push n) (λ _.
      Blind-bind Blind-locals (λ l. Blind-bind (Blind-reject_if _ _) (λ _. Blind-set_locals _)))

  pub Blind-pop : Blind {B = B} (pop rmask)
  unfolding pop
  Blind-pop = Blind-bind Blind-locals (λ l. Blind-bind (Blind-reject_if _ _) (λ _.
      Blind-bind (Blind-set_locals _) (λ _.
        Blind-bind Blind-locals (λ l'. Blind-bind (Blind-element _) (λ e. Blind-reject_if _ _)))))
