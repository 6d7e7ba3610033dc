-- ===== src/Advisor/Sandbox/LoopLaws.antt =====
-- Induction on the loop of `place_sandbox_coupons`, and what it leaves of the strategies.
use predictor.Prelude.{
  ℕ, ◌≡◌, refl, subst, ◌∙◌, Option, none, some, List, [], ◌∷◌, arith, Bool-cases, inl, inr, map,
}
use predictor.Prelude.Int.{pos, ltb_ℤ}
use predictor.Advisor.Odds.{combined_odd}
use predictor.Advisor.Sandbox.Slips.{Slip}
use predictor.Advisor.Sandbox.Book.{Leg, Db}
use predictor.Advisor.Sandbox.Place.{
  done, ◌>>=◌, >>=-eq-done, done-injective, priced, commit_slip, Ids, insert_legs, insert_slip,
  Progress, advance, place_slips,
}

-- What each inserted slip keeps, the loop keeps.
pub place_slips-keeps :
    (P : Progress → Type 0) (ids : Ids) (stake : ℕ)
    → ((slip : Slip) (p : Progress) (r : Option ℕ × Db)
        → insert_slip ids stake slip p.db ≡ done r
        → P p
        → P (advance p stake r))
    → (slips : List Slip) (p q : Progress) → place_slips ids stake slips p ≡ done q
    → P p
    → P q
unfolding place_slips
place_slips-keeps P ids stake step [] p q h start = subst P (done-injective h) start
place_slips-keeps P ids stake step (slip ∷ slips) p q h start =
    elim (Bool-cases (ltb_ℤ p.balance (pos stake))) [
      | inl short ↦ let e : p ≡ q = ground arith in subst P e start
      | inr funded ↦
          let h' : (do
            r ← insert_slip ids stake slip p.db
            place_slips ids stake slips (advance p stake r))
              ≡ done q =
            ground arith in
          let (r, inserted, rest) = >>=-eq-done (insert_slip ids stake slip p.db) _ h' in
          place_slips-keeps P ids stake step slips (advance p stake r) q rest
            (step slip p r inserted start)
    ]

-- An inserted slip is the commit of the legs that were inserted.
pub insert_slip-commits :
    (ids : Ids) (stake : ℕ) (slip : Slip) (db : Db) (r : Option ℕ × Db)
    → insert_slip ids stake slip db ≡ done r
    → (odd : ℕ) × (legs : Option (List Leg)) × (insert_legs ids db.next_coupon slip db.legs
        ≡ done legs)
      × (commit_slip ids stake odd db legs ≡ r)
unfolding insert_slip
insert_slip-commits ids stake slip db r h =
    let (odd, priced_at, h1) =
      >>=-eq-done (priced (combined_odd (map (λ leg. leg.odd) slip))) _ h in
    let (legs, inserted, h2) = >>=-eq-done (insert_legs ids db.next_coupon slip db.legs) _ h1 in
    (odd, legs, inserted, done-injective h2)

advance-strategies :
    (ids : Ids) (p : Progress) (stake odd : ℕ) (legs : Option (List Leg))
    → (advance p stake (commit_slip ids stake odd p.db legs)).db.strategies ≡ p.db.strategies
advance-strategies ids p stake odd none = refl
advance-strategies ids p stake odd (some legs) = refl

pub place_slips-strategies :
    (ids : Ids) (stake : ℕ) (slips : List Slip) (p q : Progress)
    → place_slips ids stake slips p ≡ done q
    → q.db.strategies ≡ p.db.strategies
place_slips-strategies ids stake slips p q h =
    place_slips-keeps (λ x. x.db.strategies ≡ p.db.strategies) ids stake
      (λ slip x r inserted same.
        let (odd, legs, _, e) = insert_slip-commits ids stake slip x.db r inserted in
        subst (λ r. (advance x stake r).db.strategies ≡ p.db.strategies) e
          (advance-strategies ids x stake odd legs ∙ same))
      slips p q h refl
