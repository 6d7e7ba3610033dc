-- ===== src/Advisor/Sandbox/BookLaws.antt =====
-- Placing coupons keeps the books of a strategy: the balance falls by exactly the stakes placed.
use predictor.Prelude.{
  ℕ, ◌*◌, ◌≡◌, refl, ◌∙◌, subst, String, Bool, true, false, some, List, [], ◌∷◌, arith, length,
  is_in, Option-cases, Bool-cases, inl, inr, ◌⊎◌, str_eq,
}
use predictor.Prelude.Int.{ℤ, pos, ◌+ℤ◌, ◌≤ℤ◌, ltb_ℤ, int_laws}
use predictor.Prelude.Time.{DateTime}
use predictor.Prelude.Result.{ok}
use predictor.Advisor.Sandbox.Slips.{Slip}
use predictor.Advisor.Sandbox.Book.{
  Strategy, Version, Db, portfolio_balance, coupon_rows, find_version, find_strategy,
  stake_after_wins, won_count,
}
use predictor.Advisor.Sandbox.PlaceLaws.{place_slips-Spends}
use predictor.Advisor.Sandbox.Place.{
  done, ◌>>=◌, >>=-eq-done, done-injective, priced, Ids, Progress, place_slips, Placement, finish,
  place_active, place_some, place_for, place_sandbox_coupons,
}

-- What a placement has done to the balance of the strategy.
pub record Booking (ids : Ids) (stake : ℕ) (before : ℤ) (placement : Placement) (db : Db)
    : Type 0 where
  pub after : ℤ
  pub booked : portfolio_balance (coupon_rows db.versions ids.strategy_id db.coupons) ≡ ok after
  pub paid : after +ℤ pos (stake * length placement.coupon_ids) ≡ before
  pub covered : pos 0 ≤ℤ after
  pub running : (placement.paused ≡ true) ⊎ (length placement.coupon_ids ≡ 0) ⊎ (pos stake ≤ℤ after)

abbrev stake_of : Ids → Db → ℕ
stake_of ids db = stake_after_wins (won_count db.versions ids.strategy_id db.coupons)

finish-Booking :
    (ids : Ids) (stake : ℕ) (before : ℤ) (q : Progress)
    → portfolio_balance (coupon_rows q.db.versions ids.strategy_id q.db.coupons) ≡ ok q.balance
    → q.balance +ℤ pos (stake * length q.placed) ≡ before
    → pos 0 ≤ℤ q.balance
    → let r = finish ids.strategy_id stake q in Booking ids stake before r.0 r.1
finish-Booking ids stake before q b p c = elim (Bool-cases (ltb_ℤ q.balance (pos stake))) [
  | inl short ↦
      rw short (record { after = q.balance; booked = b; paid = p; covered = c; running = inl refl })
  | inr funded ↦ rw funded (record {
    after = q.balance;
    booked = b;
    paid = p;
    covered = c;
    running = inr (inr (ground arith));
  })
]

abbrev Books : Ids → Db → ℤ → Placement × Db → Type 0
Books ids db before (placement, db') = Booking ids (stake_of ids db) before placement db'

plus_none : (stake : ℕ) (b : ℤ) → b +ℤ pos (stake * 0) ≡ b
plus_none stake b = omega int_laws

place_active-Books :
    (ids : Ids) (slips : List Slip) (db : Db) (version : Version) (before : ℤ) (r : Placement × Db)
    → place_active ids slips db ≡ done r
    → find_version db.versions ids.strategy_version_id ≡ some version
    → version.strategy_id ≡ ids.strategy_id
    → portfolio_balance (coupon_rows db.versions ids.strategy_id db.coupons) ≡ ok before
    → pos 0 ≤ℤ before
    → Books ids db before r
unfolding place_active
place_active-Books ids slips db version before r h f o b n =
    let start : Progress = record { placed = []; balance = before; db = db } in
    let (q, placed, end) = >>=-eq-done (place_slips ids (stake_of ids db) slips start) _ (
      subst
        (λ m.
          (do
            balance ← priced m
            p ←
                place_slips ids (stake_of ids db) slips
                  (record { placed = []; balance = balance; db = db })
            done (finish ids.strategy_id (stake_of ids db) p))
          ≡ done r)
        b h) in
    let (k, s) =
      place_slips-Spends ids (stake_of ids db) slips start placed
        (record { version = version; found = f; owned = o; booked = b }) in
    subst (Books ids db before) (done-injective end) (
      finish-Booking ids (stake_of ids db) before q k.booked
        (s.paid ∙ plus_none (stake_of ids db) before) (s.covered n))

-- a placement of nothing
unplaced-Books :
    (ids : Ids) (db : Db) (paused : Bool) (before : ℤ)
    → portfolio_balance (coupon_rows db.versions ids.strategy_id db.coupons) ≡ ok before
    → pos 0 ≤ℤ before
    → Books ids db before (record { coupon_ids = []; paused = paused }, db)
unplaced-Books ids db paused before b n = record {
  after = before;
  booked = b;
  paid = omega int_laws;
  covered = n;
  running = inr (inl refl);
}

find_strategy-id :
    (strategies : List Strategy) (k : ℕ) (strategy : Strategy)
    → find_strategy strategies k ≡ some strategy
    → strategy.id ≡ k
unfolding find_strategy
find_strategy-id [] k strategy h = cc
find_strategy-id (x ∷ xs) k strategy h = ground (arith, find_strategy-id xs k strategy)

place_some-Books :
    (ids : Ids) (slips : List Slip) (db : Db) (version : Version) (before : ℤ) (r : Placement × Db)
    → place_some ids slips db ≡ done r
    → find_version db.versions ids.strategy_version_id ≡ some version
    → version.strategy_id ≡ ids.strategy_id
    → portfolio_balance (coupon_rows db.versions ids.strategy_id db.coupons) ≡ ok before
    → pos 0 ≤ℤ before
    → Books ids db before r
place_some-Books ids [] db version before r h f o b n =
    subst (Books ids db before) (done-injective h) (unplaced-Books ids db false before b n)
place_some-Books ids (slip ∷ slips) db version before r h f o b n =
    place_active-Books ids (slip ∷ slips) db version before r h f o b n

place_for-Books :
    (ids : Ids) (slips : List Slip) (kind : String) (db : Db) (strategy : Strategy)
    (version : Version) (before : ℤ) (r : Placement × Db)
    → place_for ids slips kind db strategy version ≡ done r
    → strategy.id ≡ ids.strategy_id
    → find_version db.versions ids.strategy_version_id ≡ some version
    → portfolio_balance (coupon_rows db.versions ids.strategy_id db.coupons) ≡ ok before
    → pos 0 ≤ℤ before
    → Books ids db before r
unfolding place_for
place_for-Books ids slips kind db strategy version before r h i f b n =
    elim (Bool-cases (is_in strategy.status ("sandbox" ∷ "promoted" ∷ []))) [
      | inl active ↦
          place_some-Books ids slips db version before r (ground arith) f (ground arith) b n
      | inr idle ↦
          subst (Books ids db before) (ground arith)
            (unplaced-Books ids db (str_eq strategy.status "paused") before b n)
    ]

-- Placing coupons keeps the books of the strategy: the new balance of its coupons, recomputed from
-- the table, is the old one less one stake for each coupon placed; a balance that is not negative
-- stays so; and if something was placed and the strategy is not paused, it covers the next stake.
pub place_sandbox_coupons-Booking :
    (in_transaction : Bool) (ids : Ids) (slips : List Slip) (placed_at : DateTime) (kind : String)
    (db db' : Db) (placement : Placement) (before : ℤ)
    → place_sandbox_coupons in_transaction ids slips placed_at kind db ≡ done (placement, db')
    → portfolio_balance (coupon_rows db.versions ids.strategy_id db.coupons) ≡ ok before
    → pos 0 ≤ℤ before
    → Booking ids
        (stake_after_wins (won_count db.versions ids.strategy_id db.coupons))
        before
        placement
        db'
unfolding place_sandbox_coupons
place_sandbox_coupons-Booking in_transaction ids slips placed_at kind db db' placement before h b
      n =
    elim (Option-cases (find_strategy db.strategies ids.strategy_id)) [
      | inl missing ↦ absurd (ground arith)
      | inr (strategy, es) ↦
          elim (Option-cases (find_version db.versions ids.strategy_version_id)) [
            | inl missing ↦ absurd (ground arith)
            | inr (version, ev) ↦
                place_for-Books ids slips kind db strategy version before (placement, db')
                  (ground arith) (find_strategy-id db.strategies ids.strategy_id strategy es) ev b n
          ]
    ]
