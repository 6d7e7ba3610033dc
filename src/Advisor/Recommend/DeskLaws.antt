-- ===== src/Advisor/Recommend/DeskLaws.antt =====
-- What the sandbox does to the strategies: a placement pauses one, a release starts paused ones again.
use predictor.Prelude.{
  ℕ, ◌≤◌, ◌≡◌, refl, sym, subst, String, Bool, true, false, not, List, [], ◌∷◌, arith, str_eq,
  is_in, ◌==◌, Bool-cases, Option-cases, inl, inr, if◌then◌else◌,
}
use predictor.Prelude.Time.{DateTime}
use predictor.Prelude.Int.{ℤ, ltb_ℤ, pos}
use predictor.Prelude.Result.{◌>>=◌, Result, ok, value_error, >>=-eq-ok, ok-injective}
use predictor.Advisor.Sandbox.Slips.{Slip}
use predictor.Advisor.Sandbox.Book.{
  Strategy, Version, Coupon, Db, portfolio_balance, coupon_rows, stake_after_wins, won_count,
  find_strategy, find_version,
}
use predictor.Advisor.Sandbox.Place.{
  ◌>>=◌ as then_do, Outcome, Failure, done, failed, >>=-eq-done, done-injective, priced, Ids,
  Progress, Placement, finish, place_slips, place_active, none_placed, place_some, place_for,
  place_sandbox_coupons,
}
use predictor.Advisor.Sandbox.Release.{funded, release_one, release_funded_strategies}
use predictor.Advisor.Sandbox.LoopLaws.{place_slips-strategies}
use predictor.Advisor.Recommend.StrategyLaws.{
  IsSound, is_promoted, copies, promoted, set_status-IsSound,
}

-- whichever branch the result comes from
if_done :
    {Q : Type 0} (b : Bool) (first rest : Outcome (Placement × Db)) {r : Placement × Db}
    → (first ≡ done r → Q)
    → (rest ≡ done r → Q)
    → (if b then first else rest) ≡ done r
    → Q
if_done true first rest f g e = f e
if_done false first rest f g e = g e

refused : {Q : Type 0} (e : Failure) {r : Placement × Db} → failed e ≡ done r → Q
refused e h = cc

unplaced-IsSound :
    (paused : Bool) (db : Db) (r : Placement × Db)
    → none_placed paused db ≡ done r
    → IsSound db.strategies
    → IsSound r.1.strategies
unplaced-IsSound paused db r h sound =
    subst (λ (x : Placement × Db). IsSound x.1.strategies) (done-injective h) sound

finish-IsSound :
    (k stake : ℕ) (p : Progress) → IsSound p.db.strategies → IsSound (finish k stake p).1.strategies
finish-IsSound k stake p sound = elim (Bool-cases (ltb_ℤ p.balance (pos stake))) [
  | inl e ↦ rw e (set_status-IsSound k "paused" p.db.strategies refl sound)
  | inr e ↦ rw e sound
]

place_active-IsSound :
    (ids : Ids) (slips : List Slip) (db : Db) (r : Placement × Db)
    → place_active ids slips db ≡ done r
    → IsSound db.strategies
    → IsSound r.1.strategies
unfolding place_active
place_active-IsSound ids slips db r h sound =
    let stake = stake_after_wins (won_count db.versions ids.strategy_id db.coupons) in
    let start : ℤ → Progress = λ balance. record { placed = []; balance = balance; db = db } in
    let (balance, _, h) =
      >>=-eq-done (priced (portfolio_balance (coupon_rows db.versions ids.strategy_id db.coupons)))
        (λ balance.
          then_do (place_slips ids stake slips (start balance))
            (λ p. done (finish ids.strategy_id stake p)))
        h in
    let (p, placed, h) =
      >>=-eq-done (place_slips ids stake slips (start balance))
        (λ p. done (finish ids.strategy_id stake p)) h in
    subst (λ (x : Placement × Db). IsSound x.1.strategies) (done-injective h)
      (finish-IsSound ids.strategy_id stake p (
        subst IsSound (sym (place_slips-strategies ids stake slips (start balance) p placed))
          sound))

place_some-IsSound :
    (ids : Ids) (slips : List Slip) (db : Db) (r : Placement × Db)
    → place_some ids slips db ≡ done r
    → IsSound db.strategies
    → IsSound r.1.strategies
place_some-IsSound ids [] db r h sound =
    subst (λ (x : Placement × Db). IsSound x.1.strategies) (done-injective h) sound
place_some-IsSound ids (slip ∷ slips) db r h sound =
    place_active-IsSound ids (slip ∷ slips) db r h sound

place_for-IsSound :
    (ids : Ids) (slips : List Slip) (kind : String) (db : Db) (strategy : Strategy)
    (version : Version) (r : Placement × Db)
    → place_for ids slips kind db strategy version ≡ done r
    → IsSound db.strategies
    → IsSound r.1.strategies
unfolding place_for
place_for-IsSound ids slips kind db strategy version r h sound =
    if_done (not (version.strategy_id == strategy.id)) _ _ (refused _)
      (if_done (not (str_eq strategy.kind kind)) _ _ (refused _) (
        if_done (not (is_in strategy.status ("sandbox" ∷ "promoted" ∷ []))) _ _
          (λ e. unplaced-IsSound (str_eq strategy.status "paused") db r e sound)
          (λ e. place_some-IsSound ids slips db r e sound)))
      h

pub place_sandbox_coupons-IsSound :
    (in_transaction : Bool) (ids : Ids) (slips : List Slip) (placed_at : DateTime) (kind : String)
    (db : Db) (r : Placement × Db)
    → place_sandbox_coupons in_transaction ids slips placed_at kind db ≡ done r
    → IsSound db.strategies
    → IsSound r.1.strategies
unfolding place_sandbox_coupons
place_sandbox_coupons-IsSound in_transaction ids slips placed_at kind db r h sound =
    elim (Option-cases (find_strategy db.strategies ids.strategy_id)) [
      | inl missing ↦ absurd (ground arith)
      | inr (strategy, es) ↦
          elim (Option-cases (find_version db.versions ids.strategy_version_id)) [
            | inl missing ↦ absurd (ground arith)
            | inr (version, ev) ↦
                place_for-IsSound ids slips kind db strategy version r (ground arith) sound
          ]
    ]

-- A release of one strategy keeps its id, and does not promote it.
release_one-kept :
    (versions : List Version) (coupons : List Coupon) (s s' : Strategy)
    → release_one versions coupons s ≡ ok s'
    → (s'.id ≡ s.id) × (is_promoted s' ≤ is_promoted s)
release_one-kept versions coupons s s' e =
    parts (str_eq s.status "paused") (funded versions coupons s.id) e
  where
    parts :
        (paused : Bool) (covered : Result Bool)
        → (if paused
            then covered
              >>= (λ covered. ok (if covered then record s { status = "sandbox" } else s))
            else ok s)
          ≡ ok s'
        → (s'.id ≡ s.id) × (is_promoted s' ≤ is_promoted s)
    parts false covered e = rw (← ok-injective e) (refl, omega arith)
    parts true value_error e = cc
    parts true (ok true) e = rw (← ok-injective e) (refl, omega arith)
    parts true (ok false) e = rw (← ok-injective e) (refl, omega arith)

release-kept :
    (versions : List Version) (coupons : List Coupon) (strategies released : List Strategy)
    → release_funded_strategies versions coupons strategies ≡ ok released
    → ((k : ℕ) → copies k released ≡ copies k strategies)
      × (promoted released ≤ promoted strategies)
unfolding release_funded_strategies
release-kept versions coupons [] released e = rw (← ok-injective e) (λ k. refl, omega arith)
release-kept versions coupons (s ∷ strategies) released e =
    let (s', one, e) =
      >>=-eq-ok (release_one versions coupons s)
        (λ first.
          release_funded_strategies versions coupons strategies >>= (λ rest. ok (first ∷ rest)))
        e in
    let (rest, others, e) =
      >>=-eq-ok (release_funded_strategies versions coupons strategies) (λ rest. ok (s' ∷ rest))
        e in
    let (id, down) = release_one-kept versions coupons s s' one in
    let (same, fewer) = release-kept versions coupons strategies rest others in
    rw (← ok-injective e) (λ k. rw (id, same k) refl, omega (arith, down, fewer))

pub release-IsSound :
    (versions : List Version) (coupons : List Coupon) (strategies released : List Strategy)
    → release_funded_strategies versions coupons strategies ≡ ok released
    → IsSound strategies
    → IsSound released
release-IsSound versions coupons strategies released e sound =
    let (same, fewer) = release-kept versions coupons strategies released e in
    let single = sound.single in
    record { keyed = λ k. subst (λ n. n ≤ 1) (sym (same k)) (sound.keyed k); single = omega arith }
