-- ===== src/Advisor/Sandbox/OpenLaws.antt =====
-- What the loop of `place_sandbox_coupons` writes into the table of legs; a slip that would break the
-- unique index on open legs is skipped whole.
use mathlib.Core.List.{append_assoc, append-nil}
use predictor.Prelude.{
  Bool, ◌||◌, true, sym, ap, All-imp, any-append, ==_self, ℕ, ◌+◌, ◌≤◌, ◌≡◌, refl, false, Option,
  none, some, List, [], ◌∷◌, ◌++◌, arith, any, if◌then◌else◌, Bool-cases, inl, inr, subst, ◌∙◌, All,
  ◌==◌,
}
use predictor.Advisor.Sandbox.Slips.{LegSnapshot, Slip}
use predictor.Advisor.Sandbox.Book.{Leg}
use predictor.Advisor.Sandbox.LoopLaws.{place_slips-keeps, insert_slip-commits}
use predictor.Advisor.Sandbox.Place.{
  done, done-injective, commit_slip, Ids, holds_open, new_leg, insert_legs, Progress, advance,
  place_slips,
}

-- how many open sandbox legs a strategy has on a match
abbrev pub open_legs : ℕ → ℕ → List Leg → ℕ
open_legs strategy_id fixture_id [] = 0
open_legs strategy_id fixture_id (leg ∷ legs) =
    (if holds_open strategy_id fixture_id leg then 1 else 0) + open_legs strategy_id fixture_id legs

abbrev pub IsOpenOnce : List Leg → Type 0
IsOpenOnce legs = (strategy_id fixture_id : ℕ) → open_legs strategy_id fixture_id legs ≤ 1

open_legs-append :
    (s f : ℕ) (xs : List Leg) (leg : Leg)
    → open_legs s f (xs ++ leg ∷ []) ≡ open_legs s f xs + (if holds_open s f leg then 1 else 0)
open_legs-append s f [] leg = omega arith
open_legs-append s f (x ∷ xs) leg = omega (arith, open_legs-append s f xs leg)

open_legs-none : (s f : ℕ) (xs : List Leg) → any (holds_open s f) xs ≡ false → open_legs s f xs ≡ 0
open_legs-none s f [] h = refl
open_legs-none s f (x ∷ xs) h = elim (Bool-cases (holds_open s f x)) [
  | inl e ↦ absurd (ground arith)
  | inr e ↦ rw e (omega (arith, open_legs-none s f xs (ground arith)))
]

new_leg-IsOpenOnce :
    (ids : Ids) (id : ℕ) (leg : LegSnapshot) (legs : List Leg)
    → any (holds_open ids.strategy_id leg.fixture_id) legs ≡ false
    → IsOpenOnce legs
    → IsOpenOnce (legs ++ new_leg ids id leg ∷ [])
new_leg-IsOpenOnce ids id leg legs free once s f =
    rw (open_legs-append s f legs (new_leg ids id leg))
      (elim (Bool-cases (holds_open s f (new_leg ids id leg))) [
        | inl e ↦
            let p : ids.strategy_id ≡ s = ground arith in
            let q : leg.fixture_id ≡ f = ground arith in
            let z : open_legs s f legs ≡ 0 =
              cc (p, q, open_legs-none ids.strategy_id leg.fixture_id legs free) in
            rw e (omega arith)
        | inr e ↦ rw e (omega (arith, once s f))
      ])

abbrev Kept : Option (List Leg) → Type 0
Kept none = Unit
Kept (some legs) = IsOpenOnce legs

insert_legs-Kept :
    (ids : Ids) (id : ℕ) (slip : Slip) (legs : List Leg) (r : Option (List Leg))
    → insert_legs ids id slip legs ≡ done r
    → IsOpenOnce legs
    → Kept r
unfolding insert_legs
insert_legs-Kept ids id [] legs r h once = subst Kept (done-injective h) once
insert_legs-Kept ids id (leg ∷ slip) legs r h once =
    elim (Bool-cases (any (holds_open ids.strategy_id leg.fixture_id) legs)) [
      | inl taken ↦ let e : none ≡ r = ground arith in subst Kept e tt
      | inr free ↦
          insert_legs-Kept ids id slip (legs ++ new_leg ids id leg ∷ []) r (ground arith)
            (new_leg-IsOpenOnce ids id leg legs free once)
    ]

commit_slip-IsOpenOnce :
    (ids : Ids) (stake odd : ℕ) (p : Progress) (r : Option (List Leg))
    → Kept r
    → IsOpenOnce p.db.legs
    → IsOpenOnce (advance p stake (commit_slip ids stake odd p.db r)).db.legs
commit_slip-IsOpenOnce ids stake odd p none k once = once
commit_slip-IsOpenOnce ids stake odd p (some legs) k once = k

-- A leg that a placement wrote: an open sandbox leg of the strategy, on one of the coupons placed.
pub record IsBet (ids : Ids) (placed : List ℕ) (leg : Leg) : Type 0 where
  pub status : leg.status ≡ "open"
  pub mode : leg.mode ≡ "sandbox"
  pub strategy : leg.strategy_id ≡ ids.strategy_id
  pub coupon : any (λ k. k == leg.coupon_id) placed ≡ true

-- The legs are the old ones, and behind them legs that the placement wrote.
pub record Extends (ids : Ids) (placed : List ℕ) (before after : List Leg) : Type 0 where
  pub bets : List Leg
  pub legs : after ≡ before ++ bets
  pub written : All (IsBet ids placed) bets

one_placed : (id : ℕ) → any (λ k. k == id) (id ∷ []) ≡ true
one_placed id = ground (arith, ==_self id)

some-legs : {xs ys : List Leg} → some xs ≡ some ys → xs ≡ ys
some-legs e = cc

insert_legs-Extends :
    (ids : Ids) (id : ℕ) (slip : Slip) (legs after : List Leg)
    → insert_legs ids id slip legs ≡ done (some after)
    → Extends ids (id ∷ []) legs after
unfolding insert_legs
insert_legs-Extends ids id [] legs after h = record {
  bets = [];
  legs = sym (some-legs (done-injective h)) ∙ sym (append-nil legs);
  written = tt;
}
insert_legs-Extends ids id (leg ∷ slip) legs after h =
    let rest =
      insert_legs-Extends ids id slip (legs ++ new_leg ids id leg ∷ []) after (ground arith) in
    record {
      bets = new_leg ids id leg ∷ rest.bets;
      legs = rest.legs ∙ append_assoc legs (new_leg ids id leg ∷ []) rest.bets;
      written = (
        record { status = refl; mode = refl; strategy = refl; coupon = one_placed id },
        rest.written,
      );
    }

-- A bet on one of the coupons placed is one on more coupons.
more_placed :
    (ids : Ids) (old new : List ℕ) (bets : List Leg)
    → All (IsBet ids old) bets
    → All (IsBet ids (old ++ new)) bets
more_placed ids old new bets h =
    All-imp bets
      (λ leg b. record {
        status = b.status;
        mode = b.mode;
        strategy = b.strategy;
        coupon = any-append (λ k. k == leg.coupon_id) old new ∙ left _ b.coupon;
      })
      h
  where
    left : {a : Bool} (b : Bool) → a ≡ true → (a || b) ≡ true
    left b e = ground arith

placed_more :
    (ids : Ids) (old new : List ℕ) (bets : List Leg)
    → All (IsBet ids new) bets
    → All (IsBet ids (old ++ new)) bets
placed_more ids old new bets h =
    All-imp bets
      (λ leg b. record {
        status = b.status;
        mode = b.mode;
        strategy = b.strategy;
        coupon = any-append (λ k. k == leg.coupon_id) old new ∙ right _ b.coupon;
      })
      h
  where
    right : (a : Bool) {b : Bool} → b ≡ true → (a || b) ≡ true
    right a e = ground arith

All-append : (P : Leg → Type 0) (xs ys : List Leg) → All P xs → All P ys → All P (xs ++ ys)
All-append P [] ys a b = b
All-append P (x ∷ xs) ys (p, a) b = (p, All-append P xs ys a b)

commit_slip-Extends :
    (ids : Ids) (stake odd : ℕ) (start : List Leg) (slip : Slip) (p : Progress)
    (r : Option (List Leg))
    → insert_legs ids p.db.next_coupon slip p.db.legs ≡ done r
    → Extends ids p.placed start p.db.legs
    → let q = advance p stake (commit_slip ids stake odd p.db r) in
      Extends ids q.placed start q.db.legs
commit_slip-Extends ids stake odd start slip p none e old = old
commit_slip-Extends ids stake odd start slip p (some legs) e old =
    let new = insert_legs-Extends ids p.db.next_coupon slip p.db.legs legs e in
    record {
      bets = old.bets ++ new.bets;
      legs = new.legs ∙ (ap (λ l. l ++ new.bets) old.legs ∙ append_assoc start old.bets new.bets);
      written =
          All-append (IsBet ids (p.placed ++ p.db.next_coupon ∷ [])) old.bets new.bets
            (more_placed ids p.placed (p.db.next_coupon ∷ []) old.bets old.written)
            (placed_more ids p.placed (p.db.next_coupon ∷ []) new.bets new.written);
    }

-- The loop that places slips, in a table in which every strategy has at most one open sandbox leg on
-- each match, leaves such a table: the old legs as they were, and behind them only open sandbox legs
-- of its own strategy, on coupons that it reports as placed.
pub place_slips-IsOpenOnce :
    (ids : Ids) (stake : ℕ) (slips : List Slip) (p q : Progress)
    → place_slips ids stake slips p ≡ done q
    → IsOpenOnce p.db.legs
    → IsOpenOnce q.db.legs × Extends ids q.placed p.db.legs q.db.legs
place_slips-IsOpenOnce ids stake slips p q h once =
    place_slips-keeps (λ x. IsOpenOnce x.db.legs × Extends ids x.placed p.db.legs x.db.legs) ids
      stake
      (λ slip x r inserted (once, more).
        let (odd, legs, e, same) = insert_slip-commits ids stake slip x.db r inserted in
        subst
          (λ r.
            IsOpenOnce (advance x stake r).db.legs
            × Extends ids (advance x stake r).placed p.db.legs (advance x stake r).db.legs)
          same
          (
            commit_slip-IsOpenOnce ids stake odd x legs
                (insert_legs-Kept ids x.db.next_coupon slip x.db.legs legs e once) once,
            commit_slip-Extends ids stake odd p.db.legs slip x legs e more,
          ))
      slips p q h (once, record { bets = []; legs = sym (append-nil p.db.legs); written = tt })
