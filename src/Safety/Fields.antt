-- ===== src/Safety/Fields.antt =====
-- The rules for fields inside regions, and for opening and closing a region.
use pakeles.Base.{
  ℕ, suc, ◌+◌, ◌*◌, ◌≤◌, ◌≡◌, refl, sym, ◌∙◌, inl, inr, Bool, Bool-cases, true, false, some, arith,
  length-set, ltb, ◌==◌, bit_and, sub32, add64, shr64,
}
use pakeles.Core.{
  Input, Locals, Run, next, ◌>>=◌, reject, reject_if, advance, element, remaining, bytes_in,
  run_of_in, push, pop, out_of_bounds, out_of_region_bounds, region_out_of_bounds,
}
use pakeles.Safety.Judgement.{Fits, unmasked, Nested, Nested-le, Good, Post, Triple}
use pakeles.Safety.Blind.{
  Blind-in_buffer, Blind-in_region, Blind-run_of_in, Blind-remaining, Blind-push, Blind-pop,
}
use pakeles.Safety.Reads.{load_be_next, load_be_same}
use pakeles.Safety.Statements.{NamesBuiltIn, in_buffer_cases, run_in_buffer_cases}
use pakeles.Safety.Regions.{
  IsMask, Nested-set, slot-set_self, remaining_next, in_region_cases, run_in_region_cases,
  can_push_cases,
}

module _ {rmask : ℕ} ⦃mask : IsMask rmask⦄ {named : ℕ → Bool} ⦃names : NamesBuiltIn named⦄
    {B : Type 0} where
  rejects :
      {A : Type 0} {i : Input} {l : Locals} {d : ℕ} (b : B) {r : Run B A} (depth_of : A → ℕ) (c : ℕ)
      → r ≡ reject c i l b
      → named c ≡ true
      → Good (suc rmask) named i d l
      → Post (suc rmask) named i depth_of r
  unfolding reject
  rejects b depth_of c e n good = rw e (record { outcome = inr (refl, n); consumed = good.inside })

  moves :
      {i : Input} {l : Locals} {d : ℕ} (b : B) (n : ℕ) {r : Run B (Unit {0})}
      → r ≡ next tt (record l { off = l.off + n }) b
      → l.off + n ≤ i.bit_len
      → Nested l.region_end d (l.off + n)
      → Good (suc rmask) named i d l
      → Post (suc rmask) named i (λ _. d) r
  moves b n e room nested good = rw e (record {
    inside = room;
    depth = good.depth;
    cap = good.cap;
    room = good.room;
    ends = nested;
  })

  bytes_in_same :
      {i : Input} {d : ℕ} (l : Locals) (b : B) (fits : Fits i)
      → Good (suc rmask) named i d l
      → (k : ℕ) (put : ℕ → B → B) → k ≤ 8
      → bytes_in rmask k put i l b ≡ bytes_in rmask k put (unmasked i) l b
  unfolding bytes_in ◌>>=◌ advance reject
  bytes_in_same {i} {d} l b fits good k put small =
      elim (in_region_cases mask fits l b d (8 * k) good (omega (arith, good.cap)) (omega arith)) [
        | inr e ↦ rw (e, sym ((Blind-in_region rmask (8 * k)).at i l b) ∙ e)
        | inl (e, nested) ↦ elim (in_buffer_cases l b fits good.inside (8 * k) (omega arith)) [
          | inr f ↦ rw (
            e,
            sym ((Blind-in_region rmask (8 * k)).at i l b) ∙ e,
            f,
            sym ((Blind-in_buffer (8 * k)).at i l b) ∙ f,
          )
          | inl (f, room) ↦
              let at : 8 * shr64 l.off 3 + 8 * k ≤ i.bit_len = omega arith in
              let (v, g) = load_be_next l b fits k (shr64 l.off 3) at in
              let g' = sym (load_be_same l b fits k (shr64 l.off 3) at) ∙ g in
              rw (
                e,
                sym ((Blind-in_region rmask (8 * k)).at i l b) ∙ e,
                f,
                sym ((Blind-in_buffer (8 * k)).at i l b) ∙ f,
                g,
                g',
              )
        ]
      ]

  pub Triple-bytes_in :
      {d : ℕ} (k : ℕ) (put : ℕ → B → B)
      → k ≤ 8
      → Triple (suc rmask) named d (bytes_in rmask k put) (λ _. d)
  unfolding bytes_in ◌>>=◌ advance reject
  Triple-bytes_in {d} k put small = record {
    at = λ i l b fits good.
        elim (in_region_cases mask fits l b d (8 * k) good (omega (arith, good.cap))
          (omega arith)) [
            | inr e ↦ rejects b _ out_of_region_bounds (rw e) names.oorb good
            | inl (e, nested) ↦ elim (in_buffer_cases l b fits good.inside (8 * k) (omega arith)) [
              | inr f ↦ rejects b _ out_of_bounds (rw (e, f)) names.oob good
              | inl (f, room) ↦
                  let (v, g) = load_be_next l b fits k (shr64 l.off 3) (omega arith) in
                  let exact : add64 l.off (8 * k) ≡ l.off + 8 * k = omega (arith, fits.word) in
                  moves (put v b) (8 * k) (rw (e, f, g, exact)) room nested good
            ]
          ];
    same = λ i l b fits good. bytes_in_same l b fits good k put small;
  }

  pub Triple-run_of_in :
      {d : ℕ} (n : ℕ) (put : ℕ → ℕ → B → B)
      → Triple (suc rmask) named d (run_of_in rmask n put) (λ _. d)
  unfolding run_of_in ◌>>=◌ advance reject
  Triple-run_of_in {d} n put = record {
    at = λ i l b fits good.
        elim (run_in_region_cases mask fits l b d n good (omega (arith, good.cap))) [
          | inr e ↦ rejects b _ out_of_region_bounds (rw e) names.oorb good
          | inl (e, nested) ↦ elim (run_in_buffer_cases l b fits good.inside n) [
            | inr f ↦ rejects b _ out_of_bounds (rw (e, f)) names.oob good
            | inl (f, room) ↦
                let exact : add64 l.off n ≡ l.off + n = omega (arith, fits.word) in
                moves (put l.off n b) n (rw (e, f, exact)) room nested good
          ]
        ];
    same = λ i l b fits good. (Blind-run_of_in rmask n put).at i l b;
  }

  pub Triple-remaining :
      {d : ℕ} → Triple (suc rmask) named (suc d) (remaining {B = B} rmask) (λ _. suc d)
  Triple-remaining = record {
    at = λ i l b fits good. rw (remaining_next mask l b good (omega (arith, good.cap))) good;
    same = λ i l b fits good. (Blind-remaining rmask).at i l b;
  }

  -- A push opens one more region: the clamp `pk_rsp > PK_RMASK` does not fire, and the masked index
  -- is the next free element.
  pub Triple-push :
      {d : ℕ} (n : ℕ) → d ≤ rmask → Triple (suc rmask) named d (push {B = B} rmask n) (λ _. suc d)
  unfolding push ◌>>=◌ reject_if reject
  Triple-push {d} n h = record {
    at = λ i l b fits good. elim (can_push_cases mask fits l b d n good (omega arith)) [
      | inr e ↦ rejects b _ region_out_of_bounds (rw e) names.robb good
      | inl (e, nested, small) ↦
          let unclamped : ltb rmask l.rsp ≡ false = ground (arith, good.depth) in
          let at : bit_and l.rsp rmask ≡ d = rw good.depth (mask.keeps d h) in
          let end : add64 l.off n ≡ l.off + n = omega (arith, small) in
          rw (e, unclamped, at, end)
            (record {
              inside = good.inside;
              depth = omega (arith, good.depth, mask.small);
              cap = omega (arith, h);
              room = length-set l.region_end d (some (l.off + n)) ∙ good.room;
              ends = (
                l.off + n,
                slot-set_self l.region_end d (l.off + n) (omega (arith, good.room)),
                omega arith,
                small,
                Nested-set l.region_end d d (l.off + n) (l.off + n) (omega arith) nested,
              );
            })
    ];
    same = λ i l b fits good. (Blind-push rmask n).at i l b;
  }

  -- A pop finds the region that the last push opened: `pk_rsp` is not 0 and does not wrap.
  pub Triple-pop : {d : ℕ} → Triple (suc rmask) named (suc d) (pop {B = B} rmask) (λ _. d)
  unfolding pop element ◌>>=◌ reject_if reject
  Triple-pop {d} = record {
    at = λ i l b fits good.
        let h : d ≤ rmask = omega (arith, good.cap) in
        let (e, s, le, lt, nested) = good.ends in
        let opened : (l.rsp == 0) ≡ false = ground (arith, good.depth) in
        let fewer : sub32 l.rsp 1 ≡ d = omega (arith, good.depth, mask.small) in
        elim (Bool-cases (ltb l.off e)) [
          | inl short ↦
              rw (opened, fewer, mask.keeps d h, s, short)
                (record { outcome = inr (refl, names.rne); consumed = good.inside })
          | inr used ↦
              rw (opened, fewer, mask.keeps d h, s, used)
                (record {
                  inside = good.inside;
                  depth = refl;
                  cap = omega (arith, good.cap);
                  room = good.room;
                  ends = Nested-le l.region_end d le nested;
                })
        ];
    same = λ i l b fits good. (Blind-pop rmask).at i l b;
  }
