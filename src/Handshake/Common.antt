-- ===== src/Handshake/Common.antt =====
-- `highest_common_version` against what the comment above it says.
use pub_sub_crawl.Base.{
  ◌≡◌, ◌⊎◌, inl, inr, refl, Bool, true, false, ◌||◌, ◌&&◌, List, [], ◌∷◌, arith, Bool-cases,
  if◌then◌else◌,
}
use pub_sub_crawl.Base.Int.{ℤ, pos, negsuc}
use pub_sub_crawl.Handshake.{against, highest_from, highest_common_version, eq_ℤ, ltb_ℤ}

abbrev pub has : ℤ → List ℤ → Bool
has v [] = false
has v (c ∷ cs) = eq_ℤ c v || has v cs

abbrev pub common : List ℤ → List ℤ → ℤ → Bool
common versions client v = has v versions && has v client

eq_ℤ-eq : (a b : ℤ) → eq_ℤ a b ≡ true → a ≡ b
unfolding eq_ℤ
eq_ℤ-eq (pos a) (pos b) h = ground arith
eq_ℤ-eq (pos a) (negsuc b) h = cc
eq_ℤ-eq (negsuc a) (pos b) h = cc
eq_ℤ-eq (negsuc a) (negsuc b) h = ground arith

pub eq_ℤ-refl : (a : ℤ) → eq_ℤ a a ≡ true
unfolding eq_ℤ
eq_ℤ-refl (pos a) = ground arith
eq_ℤ-refl (negsuc a) = ground arith

ltb_ℤ-irrefl : (a : ℤ) → ltb_ℤ a a ≡ false
unfolding ltb_ℤ
ltb_ℤ-irrefl (pos a) = ground arith
ltb_ℤ-irrefl (negsuc a) = ground arith

ltb_ℤ-trans : (a b c : ℤ) → ltb_ℤ a b ≡ false → ltb_ℤ b c ≡ false → ltb_ℤ a c ≡ false
unfolding ltb_ℤ
ltb_ℤ-trans (pos a) (pos b) (pos c) h k = ground arith
ltb_ℤ-trans a b c h k = ground arith

-- Once the version has been taken over it is not below the best.
against-lem :
    (v : ℤ) (client : List ℤ) (best : ℤ)
    → against v client best ≡ (if has v client && ltb_ℤ best v then v else best)
unfolding against
against-lem v [] best = refl
against-lem v (c ∷ cs) best =
    ground (arith, against-lem v cs best, against-lem v cs v, ltb_ℤ-irrefl v)

ltb_ℤ-asym : (a b : ℤ) → ltb_ℤ a b ≡ true → ltb_ℤ b a ≡ false
unfolding ltb_ℤ
ltb_ℤ-asym (pos a) (pos b) h = ground arith
ltb_ℤ-asym a b h = ground arith

ltb_ℤ-step : (a b c : ℤ) → ltb_ℤ a b ≡ true → ltb_ℤ c b ≡ false → ltb_ℤ a c ≡ true
unfolding ltb_ℤ
ltb_ℤ-step (pos a) (pos b) (pos c) h k = ground arith
ltb_ℤ-step a b c h k = ground arith

-- What the outer loop makes of the best so far.
record Best (vs client : List ℤ) (best r : ℤ) : Type 0 where
  kind : (r ≡ best) ⊎ ((common vs client r ≡ true) × (ltb_ℤ best r ≡ true))
  grown : ltb_ℤ r best ≡ false
  top : (u : ℤ) → common vs client u ≡ true → ltb_ℤ r u ≡ false

Best-cons :
    (v : ℤ) (vs client : List ℤ) (best r : ℤ)
    → Best vs client (against v client best) r
    → Best (v ∷ vs) client best r
Best-cons v vs client best r b = elim (Bool-cases (has v client && ltb_ℤ best v)) [
  | inl better ↦
      let next : against v client best ≡ v = ground (arith, against-lem v client best) in
      let above : ltb_ℤ r v ≡ false = rw next at b.grown in
      let over = ltb_ℤ-step best v r (ground arith) above in
      record {
        kind = ground (arith, b.kind, next, eq_ℤ-refl v, over);
        grown = ltb_ℤ-asym best r over;
        top = λ u h. ground (arith, eq_ℤ-eq v u, b.top u, above);
      }
  | inr worse ↦
      let next : against v client best ≡ best = ground (arith, against-lem v client best) in
      let above : ltb_ℤ r best ≡ false = rw next at b.grown in
      record {
        kind = ground (arith, b.kind, next);
        grown = above;
        top = λ u h. ground (arith, eq_ℤ-eq v u, b.top u, above, ltb_ℤ-trans r best u);
      }
]

highest_from-Best :
    (vs client : List ℤ) (best : ℤ) → Best vs client best (highest_from vs client best)
unfolding highest_from
highest_from-Best [] client best = record {
  kind = inl refl;
  grown = ltb_ℤ-irrefl best;
  top = λ u h. cc;
}
highest_from-Best (v ∷ vs) client best =
    Best-cons v vs client best _ (highest_from-Best vs client (against v client best))

-- For any two lists, the result is 0 or a positive version that stands in both; and no version in
-- both is larger.
pub highest_common-greatest :
    (versions client : List ℤ)
    → let r = highest_common_version versions client in
      ((r ≡ pos 0) ⊎ ((common versions client r ≡ true) × (ltb_ℤ (pos 0) r ≡ true)))
      × ((u : ℤ) → common versions client u ≡ true → ltb_ℤ r u ≡ false)
unfolding highest_common_version
highest_common-greatest versions client =
    let b = highest_from-Best versions client (pos 0) in (b.kind, b.top)
