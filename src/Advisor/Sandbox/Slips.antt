-- ===== src/Advisor/Sandbox/Slips.antt =====
-- The slips of services/advisor/sandbox.py: `baseline_slips` and `reply_slips`.
use predictor.Prelude.{
  ℕ, String, Bool, false, ◌||◌, Option, none, some, List, [], ◌∷◌, leb, if◌then◌else◌, ◌==◌,
}

-- A candidate and the `LegSnapshot` of it carry the same fields.
pub record LegSnapshot : Type 0 where
  pub fixture_id : ℕ
  pub period : String
  pub goals_home : ℕ
  pub goals_away : ℕ
  pub odd : ℕ
  pub n : ℕ

-- `SandboxSlip`
abbrev pub Slip : Type 0
Slip = List LegSnapshot

abbrev pub contains : ℕ → List ℕ → Bool
contains k [] = false
contains k (x ∷ xs) = k == x || contains k xs

-- the loop of `baseline_slips`, over the fixtures seen
unfoldable pub slips_from : List ℕ → List LegSnapshot → List Slip
slips_from seen [] = []
slips_from seen (candidate ∷ candidates) =
    let skip = slips_from seen candidates in
    let take = slips_from (candidate.fixture_id ∷ seen) candidates in
    if contains candidate.fixture_id seen || leb candidate.odd 1000
    then skip
    else (candidate ∷ []) ∷ take

unfoldable pub baseline_slips : List LegSnapshot → List Slip
unfolding slips_from
baseline_slips candidates = slips_from [] candidates

-- `by_id[fixture_id]`: a later candidate of the same fixture replaces an earlier one
unfoldable pub by_id : List LegSnapshot → ℕ → Option LegSnapshot
by_id [] k = none
by_id (candidate ∷ candidates) k = elim (by_id candidates k) [
  | some later ↦ some later
  | none ↦ if candidate.fixture_id == k then some candidate else none
]

-- the legs of one coupon, if each was stored and is known
abbrev pub stored_legs : List LegSnapshot → List ℕ → List ℕ → Option Slip
stored_legs candidates stored [] = some []
stored_legs candidates stored (k ∷ ks) = elim (stored_legs candidates stored ks) [
  | none ↦ none
  | some legs ↦
      if contains k stored
      then elim (by_id candidates k) [ none ↦ none | some leg ↦ some (leg ∷ legs) ]
      else none
]

abbrev add_slip : Option Slip → List Slip → List Slip
add_slip none slips = slips
add_slip (some []) slips = slips
add_slip (some (leg ∷ legs)) slips = (leg ∷ legs) ∷ slips

unfoldable pub reply_slips : List (List ℕ) → List LegSnapshot → List ℕ → List Slip
unfolding by_id
reply_slips [] candidates stored = []
reply_slips (fixtures ∷ coupons) candidates stored =
    add_slip (stored_legs candidates stored fixtures) (reply_slips coupons candidates stored)
