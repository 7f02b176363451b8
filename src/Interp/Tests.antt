-- ===== src/Interp/Tests.antt =====
-- Regions of a packet that is cut off: the outer one ends at bit 400, the packet at bit 200.
use pakeles.Base.{ℕ, ◌≡◌, refl, [], ◌∷◌, none, some, arith, mask_7}
use pakeles.Core.{Input, Locals, portable, slot, push, pop}
use pakeles.Safety.{IsMask}
use pakeles.Interp.Regions.{interp_push, interp_pop, rejected}
use pakeles.Interp.Refinement.{Represents, Agrees, one_reason, push-interp_push, pop-interp_pop}

abbrev packet : Input
packet = portable [] 200

-- what stands for `*out`
abbrev out : ℕ
out = 0

abbrev opened : Locals
opened = record {
  off = 200;
  rsp = 1;
  region_end = some 400 ∷ none ∷ none ∷ none ∷ none ∷ none ∷ none ∷ none ∷ [];
}

eight : IsMask 7
eight = record { small = omega arith; keeps = mask_7 }

opened-Represents : Represents 8 opened (400 ∷ [])
unfolding slot
opened-Represents = record { depth = refl; room = refl; ends = (refl, omega arith, tt) }

push-interp_push_example :
    Agrees 8 opened out (push 7 64 packet opened out) (interp_push (400 ∷ []) 200 64)
push-interp_push_example =
    push-interp_push eight packet opened out (400 ∷ []) 64 (omega arith) opened-Represents
      (omega arith) (omega arith)

pop-interp_pop_example :
    Agrees 8 opened out (pop 7 packet opened out) (one_reason (interp_pop (400 ∷ []) 200 200))
pop-interp_pop_example =
    pop-interp_pop eight packet opened out 400 [] (omega arith) opened-Represents

-- The interpreter says "out of bounds" here, and the C code "region not exhausted".
interp_reason : interp_pop (400 ∷ []) 200 200 ≡ rejected 1
unfolding interp_pop
interp_reason = refl

c_reason : one_reason (interp_pop (400 ∷ []) 200 200) ≡ rejected 6
unfolding interp_pop
c_reason = refl
