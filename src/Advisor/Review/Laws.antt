-- ===== src/Advisor/Review/Laws.antt =====
-- What a reply says that passes the review.
use predictor.Prelude.{
  ℕ, ◌≡◌, refl, sym, ◌∙◌, Bool, true, false, not, ◌&&◌, ◌||◌, List, [], ◌∷◌, arith, all, All,
  All-imp, if◌then◌else◌,
}
use predictor.Advisor.Sandbox.Slips.{contains}
use predictor.Advisor.Review.{
  CandidateDecision, LlmDecision, passed, failed, Terms, fixtures, decided, seen_of, same_set,
  has_duplicate, is_bet, check_coupons, check_bets, semantics,
}
use predictor.Advisor.Review.CouponLaws.{
  >>=-passed, unbroken, seen_of-Adds, IsAccepted, legs, check_coupons-IsAccepted,
}

check_bets-legs :
    (used : List ℕ) (candidates : List CandidateDecision)
    → check_bets used candidates ≡ passed tt
    → All (λ c. is_bet c.decision ≡ contains c.fixture_id used) candidates
unfolding check_bets
check_bets-legs used [] e = tt
check_bets-legs used (candidate ∷ candidates) e =
    let placed = contains candidate.fixture_id used in
    let (missing, e) = unbroken (is_bet candidate.decision && not placed) _ _ e in
    let (extra, e) = unbroken (not (is_bet candidate.decision) && placed) _ _ e in
    (same (is_bet candidate.decision) placed missing extra, check_bets-legs used candidates e)
  where
    same : (a b : Bool) → (a && not b) ≡ false → (not a && b) ≡ false → a ≡ b
    same true true m e = refl
    same false false m e = refl
    same true false m e = cc
    same false true m e = cc

all_in :
    (b a : List ℕ) (k : ℕ)
    → all (λ j. contains j b) a ≡ true
    → contains k a ≡ true
    → contains k b ≡ true
all_in b [] k every e = cc
all_in b (j ∷ a) k every e = ground (arith, all_in b a k)

same_set-contains : (a b : List ℕ) (k : ℕ) → same_set a b ≡ true → contains k a ≡ contains k b
same_set-contains a b k e = ground (arith, all_in a b k, all_in b a k)

-- What a reply promises that `_semantics` lets through.
pub record IsSound (terms : Terms) (parsed : LlmDecision) : Type 0 where
  pub once : has_duplicate (decided parsed.candidates) ≡ false
  pub complete :
      (k : ℕ) → contains k (decided parsed.candidates) ≡ contains k (fixtures terms.playable)
  pub apart : has_duplicate (legs parsed.coupons) ≡ false
  pub accepted : All (IsAccepted terms parsed) parsed.coupons
  pub bets :
      All (λ c. is_bet c.decision ≡ contains c.fixture_id (legs parsed.coupons)) parsed.candidates

or_nothing : {a b : Bool} → a ≡ (b || false) → a ≡ b
or_nothing {b = true} e = e
or_nothing {b = false} e = e

pub same_passed :
    (seen fixtures : List ℕ) {more : List ℕ}
    → (if same_set seen fixtures then passed seen else failed "candidate_set") ≡ passed more
    → same_set seen fixtures ≡ true
same_passed seen fixtures e = ground arith

pub seen-decided :
    (terms : Terms) (parsed : LlmDecision) (k : ℕ) {seen : List ℕ}
    → seen_of [] parsed.candidates ≡ passed seen
    → same_set seen (fixtures terms.playable) ≡ true
    → contains k (decided parsed.candidates) ≡ contains k (fixtures terms.playable)
seen-decided terms parsed k {seen} e same =
    sym (or_nothing ((seen_of-Adds [] parsed.candidates e).all k))
    ∙ same_set-contains seen (fixtures terms.playable) k same

-- A reply that the review lets through decides once on each candidate offered and on no other; no
-- fixture is in two coupons or twice in one; each coupon has at most the legs allowed, all on fixtures
-- that were offered and are in no open coupon, and a price of at least the least odd; the bets are
-- just the legs; and a coupon of one bet stands alone among less than two offered and does not lose
-- in expectation.
pub semantics-IsSound :
    (terms : Terms) (parsed : LlmDecision)
    → semantics terms parsed ≡ passed tt
    → IsSound terms parsed
unfolding semantics
semantics-IsSound terms parsed e =
    let (seen, first, e) = >>=-passed (seen_of [] parsed.candidates) _ e in
    let (_, set, e) =
      >>=-passed
        (if same_set seen (fixtures terms.playable) then passed seen else failed "candidate_set") _
        e in
    let (used, coupons, e) =
      >>=-passed (check_coupons terms parsed [] parsed.coupons)
        (λ used. check_bets used parsed.candidates) e in
    let decided_once = seen_of-Adds [] parsed.candidates first in
    let (added, accepted) = check_coupons-IsAccepted terms parsed [] parsed.coupons coupons in
    record {
      once = decided_once.distinct;
      complete = λ k. seen-decided terms parsed k first (same_passed seen _ set);
      apart = added.distinct;
      accepted = accepted;
      bets =
          All-imp parsed.candidates (λ c same. same ∙ or_nothing (added.all c.fixture_id))
            (check_bets-legs used parsed.candidates e);
    }
