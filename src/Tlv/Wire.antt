-- ===== src/Tlv/Wire.antt =====
-- Type-length-value items as bytes. Nothing here follows the C code.
use pakeles.Base.{
  ℕ, suc, ◌+◌, ◌<◌, ◌≡◌, refl, ap, ◌∙◌, arith, List, [], ◌∷◌, ◌++◌, All, length, length-append,
}
use mathlib.Core.Path.{subst}
use pakeles.Values.{IsBytes, byte}

pub record Entry : Type 0 where
  pub kind : ℕ
  pub value : List ℕ

-- kind, length and value of each item in turn
abbrev pub encode : List Entry → List ℕ
encode [] = []
encode (it ∷ items) = it.kind ∷ length it.value ∷ it.value ++ encode items

-- an item that two bytes of header can describe
abbrev pub Encodable : Entry → Type 0
Encodable it = (it.kind < 256) × (length it.value < 256) × IsBytes it.value

-- The items begin at byte k.
abbrev pub At : List ℕ → ℕ → List Entry → Type 0
At buf k [] = Unit {0}
At buf k (it ∷ items) =
    (byte buf (k + 1) ≡ length it.value) × At buf (k + (2 + length it.value)) items

-- in bytes
abbrev pub size : List Entry → ℕ
size [] = 0
size (it ∷ items) = 2 + length it.value + size items

pub length-encode : (items : List Entry) → length (encode items) ≡ size items
length-encode [] = refl
length-encode (it ∷ items) =
    omega (arith, length-append it.value (encode items), length-encode items)

IsBytes-append : (xs ys : List ℕ) → IsBytes xs → IsBytes ys → IsBytes (xs ++ ys)
IsBytes-append [] ys h k = k
IsBytes-append (x ∷ xs) ys h k = (h.0, IsBytes-append xs ys h.1 k)

pub encode-IsBytes : (items : List Entry) → All Encodable items → IsBytes (encode items)
encode-IsBytes [] h = tt
encode-IsBytes (it ∷ items) h =
    (h.0.0, (h.0.1, IsBytes-append it.value (encode items) h.0.2 (encode-IsBytes items h.1)))

-- moving past bytes that stand before
pub At-cons :
    (x : ℕ) (buf : List ℕ) (k : ℕ) (items : List Entry)
    → At buf k items
    → At (x ∷ buf) (suc k) items
At-cons x buf k [] h = tt
At-cons x buf k (it ∷ items) h = (
  ap (byte (x ∷ buf)) {x = suc k + 1} {y = suc (k + 1)} (omega arith) ∙ h.0,
  subst (λ j. At (x ∷ buf) j items) (omega arith)
      (At-cons x buf (k + (2 + length it.value)) items h.1),
)

At-append :
    (xs buf : List ℕ) (k : ℕ) (items : List Entry)
    → At buf k items
    → At (xs ++ buf) (length xs + k) items
At-append [] buf k items h = subst (λ j. At buf j items) {x = k} (omega arith) h
At-append (x ∷ xs) buf k items h =
    subst (λ j. At (x ∷ xs ++ buf) j items) {x = suc (length xs + k)} (omega arith)
      (At-cons x (xs ++ buf) (length xs + k) items (At-append xs buf k items h))

pub encode-At : (items : List Entry) → At (encode items) 0 items
encode-At [] = tt
encode-At (it ∷ items) = (
  refl,
  subst (λ j. At (encode (it ∷ items)) j items) {x = suc (suc (length it.value + 0))} (omega arith)
      (At-cons it.kind (length it.value ∷ it.value ++ encode items) (suc (length it.value + 0))
        items
        (At-cons (length it.value) (it.value ++ encode items) (length it.value + 0) items
          (At-append it.value (encode items) 0 items (encode-At items)))),
)
