-- ===== src/Advisor/Sandbox/PlaceLaws.antt =====
-- The loop of `place_sandbox_coupons`: it carries the balance of the tables along, and spends one
-- stake for each coupon that it places.
use predictor.Prelude.{
  ℕ, ◌*◌, ◌≡◌, refl, ap, subst, true, false, Option, none, some, List, [], ◌∷◌, ◌++◌, arith, length,
  length-append, Bool-cases, inl, inr, map,
}
use predictor.Prelude.Int.{pos, ◌+ℤ◌, ◌≤ℤ◌, ltb_ℤ, -ℤ_parts, int_laws}
use predictor.Prelude.Result.{ok}
use predictor.Advisor.Odds.{combined_odd}
use predictor.Advisor.Sandbox.Slips.{Slip}
use predictor.Advisor.Sandbox.Book.{
  Version, Leg, Db, portfolio_balance, coupon_rows, belongs, find_version,
}
use predictor.Advisor.Sandbox.BalanceLaws.{balance-open}
use predictor.Advisor.Sandbox.Place.{
  done, ◌>>=◌, >>=-eq-done, done-injective, priced, commit_slip, Ids, insert_legs, new_coupon,
  insert_slip, Progress, advance, place_slips,
}

-- what an inserted slip leaves of the tables of versions and coupons
abbrev Inserted : Ids → ℕ → Db → Option ℕ × Db → Type 0
Inserted ids stake db (none, db') = (db'.versions ≡ db.versions) × (db'.coupons ≡ db.coupons)
Inserted ids stake db (some id, db') =
    (db'.versions ≡ db.versions)
    × ((odd : ℕ) × (db'.coupons ≡ db.coupons ++ new_coupon ids id stake odd ∷ []))

commit_slip-Inserted :
    (ids : Ids) (stake odd : ℕ) (db : Db) (legs : Option (List Leg))
    → Inserted ids stake db (commit_slip ids stake odd db legs)
commit_slip-Inserted ids stake odd db none = (refl, refl)
commit_slip-Inserted ids stake odd db (some legs) = (refl, (odd, refl))

insert_slip-Inserted :
    (ids : Ids) (stake : ℕ) (slip : Slip) (db : Db) (r : Option ℕ × Db)
    → insert_slip ids stake slip db ≡ done r
    → Inserted ids stake db r
unfolding insert_slip
insert_slip-Inserted ids stake slip db r h =
    let (odd, priced_at, h1) =
      >>=-eq-done (priced (combined_odd (map (λ leg. leg.odd) slip))) _ h in
    let (legs, inserted, h2) = >>=-eq-done (insert_legs ids db.next_coupon slip db.legs) _ h1 in
    subst (Inserted ids stake db) (done-injective h2) (commit_slip-Inserted ids stake odd db legs)

-- The version is one of the strategy, and the balance carried along is that of the tables.
pub record IsBooked (ids : Ids) (p : Progress) : Type 0 where
  pub version : Version
  pub found : find_version p.db.versions ids.strategy_version_id ≡ some version
  pub owned : version.strategy_id ≡ ids.strategy_id
  pub booked :
      portfolio_balance (coupon_rows p.db.versions ids.strategy_id p.db.coupons) ≡ ok p.balance

new_coupon-belongs :
    (ids : Ids) (p : Progress) (stake odd id : ℕ)
    → IsBooked ids p
    → belongs p.db.versions ids.strategy_id (new_coupon ids id stake odd) ≡ true
unfolding belongs
new_coupon-belongs ids p stake odd id b = ground (arith, b.found, b.owned)

advance-IsBooked :
    (ids : Ids) (stake : ℕ) (p : Progress) (r : Option ℕ × Db)
    → Inserted ids stake p.db r
    → IsBooked ids p
    → IsBooked ids (advance p stake r)
advance-IsBooked ids stake p (none, db) (vs, cs) b = record {
  version = b.version;
  found = rw vs b.found;
  owned = b.owned;
  booked = rw (vs, cs) b.booked;
}
advance-IsBooked ids stake p (some id, db) (vs, (odd, cs)) b = record {
  version = b.version;
  found = rw vs b.found;
  owned = b.owned;
  booked =
      rw (vs, cs)
        (balance-open p.db.versions ids.strategy_id p.db.coupons (new_coupon ids id stake odd)
          (new_coupon-belongs ids p stake odd id b) refl b.booked);
}

-- What the loop has spent: the balance has fallen by a stake for each coupon placed.
pub record Spends (stake : ℕ) (p q : Progress) : Type 0 where
  pub paid : q.balance +ℤ pos (stake * length q.placed) ≡ p.balance +ℤ pos (stake * length p.placed)
  pub covered : pos 0 ≤ℤ p.balance → pos 0 ≤ℤ q.balance

advance-Spends :
    (stake : ℕ) (p : Progress) (r : Option ℕ × Db)
    → ltb_ℤ p.balance (pos stake) ≡ false
    → Spends stake p (advance p stake r)
advance-Spends stake p (none, db) h = record { paid = refl; covered = λ c. c }
advance-Spends stake p (some id, db) h = record {
  paid = omega (int_laws, ap (λ (n : ℕ). stake * n) (length-append p.placed (id ∷ [])));
  covered = λ c. ground (arith, -ℤ_parts p.balance (pos stake));
}

Spends-trans :
    (stake : ℕ) {p q r : Progress} → Spends stake p q → Spends stake q r → Spends stake p r
Spends-trans stake s t = record {
  paid = cc (s.paid, t.paid);
  covered = λ c. t.covered (s.covered c);
}

pub place_slips-Spends :
    (ids : Ids) (stake : ℕ) (slips : List Slip) (p : Progress) {q : Progress}
    → place_slips ids stake slips p ≡ done q
    → IsBooked ids p
    → IsBooked ids q × Spends stake p q
unfolding place_slips
place_slips-Spends ids stake [] p {q} h b =
    rw (← done-injective h) (b, record { paid = refl; covered = λ c. c })
place_slips-Spends ids stake (slip ∷ slips) p {q} h b =
    elim (Bool-cases (ltb_ℤ p.balance (pos stake))) [
      | inl short ↦
          let e : p ≡ q = ground arith in
          subst (λ x. IsBooked ids x × Spends stake p x) e
            (b, record { paid = refl; covered = λ c. c })
      | inr funded ↦
          let h' : (do
            r ← insert_slip ids stake slip p.db
            place_slips ids stake slips (advance p stake r))
              ≡ done q =
            ground arith in
          let (r, inserted, rest) = >>=-eq-done (insert_slip ids stake slip p.db) _ h' in
          let (b', s) = place_slips-Spends ids stake slips (advance p stake r) rest (
            advance-IsBooked ids stake p r (insert_slip-Inserted ids stake slip p.db r inserted)
              b) in
          (b', Spends-trans stake (advance-Spends stake p r funded) s)
    ]
