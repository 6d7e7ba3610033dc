-- ===== src/Advisor/Review/RaiseLaws.antt =====
-- The review of a reply does not raise.
use predictor.Prelude.{
  ℕ, String, ◌≡◌, ◌≢◌, refl, ◌∙◌, ap, Bool, true, false, not, ◌&&◌, Option, none, some, List, [],
  ◌∷◌, arith, All, length, leb, ltb, inl, inr, Option-cases, if◌then◌else◌,
}
use predictor.Prelude.Result.{Result, ok, value_error}
use predictor.Advisor.Odds.{combined_odd}
use predictor.Advisor.Sandbox.Slips.{contains}
use predictor.Advisor.Review.{
  CandidateDecision, LlmDecision, PricedCandidate, Verdict, AcceptedCoupon, Checked, passed, failed,
  raised, ◌>>=◌, Terms, fixtures, decided, seen_of, same_set, has_duplicate, or_raise, odd_at,
  odds_at, use_legs, decision_on, is_bet, loses, judge_single, check_single, check_price,
  check_coupon, check_coupons, check_bets, semantics, Parsed, invalid, reply, accept_coupons,
  verdict_on, review_parsed, review_model_output,
}
use predictor.Advisor.Review.CouponLaws.{IsOffered, IsAccepted, use_legs-Adds}
use predictor.Advisor.Review.Laws.{semantics-IsSound, seen-decided, same_passed}

abbrev Returns : {V : Type 0} → Checked V → Type 0
Returns c = c ≢ raised

>>=-Returns :
    {V W : Type 0} (first : Checked V) (next : V → Checked W)
    → Returns first
    → ((v : V) → first ≡ passed v → Returns (next v))
    → Returns (first >>= next)
>>=-Returns (passed v) next one two = two v refl
>>=-Returns (failed rule) next one two = λ e. cc
>>=-Returns raised next one two = absurd (one refl)

rule-Returns :
    {V : Type 0} (test : Bool) (rule : String) (rest : Checked V)
    → Returns rest
    → Returns (if test then failed rule else rest)
rule-Returns true rule rest r = λ e. cc
rule-Returns false rule rest r = r

seen_of-Returns :
    (seen : List ℕ) (candidates : List CandidateDecision) → Returns (seen_of seen candidates)
unfolding seen_of
seen_of-Returns seen [] = λ e. cc
seen_of-Returns seen (candidate ∷ candidates) =
    rule-Returns (contains candidate.fixture_id seen) _ _ (seen_of-Returns _ candidates)

use_legs-Returns : (terms : Terms) (used ids : List ℕ) → Returns (use_legs terms used ids)
unfolding use_legs
use_legs-Returns terms used [] = λ e. cc
use_legs-Returns terms used (k ∷ ks) =
    rule-Returns (not (contains k (fixtures terms.playable))) _ _ (
      rule-Returns (terms.open_fixture_ids k) _ _
        (rule-Returns (contains k used) _ _ (use_legs-Returns terms (k ∷ used) ks)))

check_bets-Returns :
    (used : List ℕ) (candidates : List CandidateDecision) → Returns (check_bets used candidates)
unfolding check_bets
check_bets-Returns used [] = λ e. cc
check_bets-Returns used (candidate ∷ candidates) =
    rule-Returns (is_bet candidate.decision && not (contains candidate.fixture_id used)) _ _ (
      rule-Returns (not (is_bet candidate.decision) && contains candidate.fixture_id used) _ _
        (check_bets-Returns used candidates))

odd_at-some :
    (playable : List PricedCandidate) (k : ℕ)
    → contains k (fixtures playable) ≡ true
    → odd_at playable k ≢ none
unfolding odd_at
odd_at-some [] k e = cc
odd_at-some (item ∷ items) k e = elim (Option-cases (odd_at items k)) [
  | inl nothing ↦ λ h. ground (arith, odd_at-some items k)
  | inr (odd, found) ↦ λ h. ground arith
]

or_raise-Returns : {V : Type 0} (o : Option V) → o ≢ none → Returns (or_raise o)
or_raise-Returns none known = absurd (known refl)
or_raise-Returns (some v) known = λ e. cc

odds_at-Returns :
    (terms : Terms) (ids : List ℕ)
    → All (IsOffered terms) ids
    → Returns (odds_at terms.playable ids)
unfolding odds_at
odds_at-Returns terms [] offered = λ e. cc
odds_at-Returns terms (k ∷ ks) (offered, rest) =
    >>=-Returns (or_raise (odd_at terms.playable k)) _
      (or_raise-Returns _ (odd_at-some terms.playable k offered.0))
      (λ odd _.
        >>=-Returns (odds_at terms.playable ks) _ (odds_at-Returns terms ks rest) (λ odds _ e. cc))

-- each candidate offered is decided on
Answers : Terms → LlmDecision → Type 0
Answers terms parsed =
    (k : ℕ)
    → contains k (fixtures terms.playable) ≡ true
    → contains k (decided parsed.candidates) ≡ true

decision_on-some :
    (candidates : List CandidateDecision) (k : ℕ)
    → contains k (decided candidates) ≡ true
    → decision_on candidates k ≢ none
unfolding decision_on
decision_on-some [] k e = cc
decision_on-some (candidate ∷ candidates) k e = λ h. ground (arith, decision_on-some candidates k)

judge_single-Returns :
    (terms : Terms) (used : List ℕ) (sole : CandidateDecision) (odd : ℕ)
    → Returns (judge_single terms used sole odd)
judge_single-Returns terms used sole odd =
    parts (is_bet sole.decision) (leb 2 (length terms.playable))
      (loses sole.estimated_probability odd)
  where
    parts :
        (a b c : Bool)
        → Returns (
            if not a
            then passed used
            else if b
            then failed "single_with_partners"
            else if c
            then failed "single_negative_ev"
            else passed used)
    parts false b c = λ e. cc
    parts true true c = λ e. cc
    parts true false true = λ e. cc
    parts true false false = λ e. cc

check_single-Returns :
    (terms : Terms) (parsed : LlmDecision) (used ids odds : List ℕ)
    → Answers terms parsed
    → All (IsOffered terms) ids
    → Returns (check_single terms parsed used ids odds)
unfolding Answers
check_single-Returns terms parsed used (k ∷ []) (odd ∷ []) answers (offered, _) =
    >>=-Returns (or_raise (decision_on parsed.candidates k)) _
      (or_raise-Returns _ (decision_on-some parsed.candidates k (answers k offered.0)))
      (λ sole _. judge_single-Returns terms used sole odd)
check_single-Returns terms parsed used [] odds answers offered = λ e. cc
check_single-Returns terms parsed used (k ∷ []) [] answers offered = λ e. cc
check_single-Returns terms parsed used (k ∷ []) (odd ∷ odd2 ∷ odds) answers offered = λ e. cc
check_single-Returns terms parsed used (k ∷ k2 ∷ ks) odds answers offered = λ e. cc

check_price-Returns :
    (terms : Terms) (parsed : LlmDecision) (used ids odds : List ℕ) (price : Result ℕ)
    → Answers terms parsed
    → All (IsOffered terms) ids
    → Returns (check_price terms parsed used ids odds price)
check_price-Returns terms parsed used ids odds value_error answers offered = λ e. cc
check_price-Returns terms parsed used ids odds (ok total) answers offered =
    rule-Returns (ltb total terms.min_odd) _ _
      (check_single-Returns terms parsed used ids odds answers offered)

check_coupon-Returns :
    (terms : Terms) (parsed : LlmDecision) (used ids : List ℕ)
    → Answers terms parsed
    → Returns (check_coupon terms parsed used ids)
unfolding check_coupon
check_coupon-Returns terms parsed used ids answers = rule-Returns (has_duplicate ids) _ _ (
    rule-Returns (ltb terms.max_legs (length ids)) _ _ (
      >>=-Returns (use_legs terms used ids) _ (use_legs-Returns terms used ids) (λ used' e.
        let (_, offered) = use_legs-Adds terms used ids e in
        >>=-Returns (odds_at terms.playable ids) _ (odds_at-Returns terms ids offered) (λ odds _.
          check_price-Returns terms parsed used' ids odds (combined_odd odds) answers offered))))

check_coupons-Returns :
    (terms : Terms) (parsed : LlmDecision) (used : List ℕ) (coupons : List (List ℕ))
    → Answers terms parsed
    → Returns (check_coupons terms parsed used coupons)
unfolding check_coupons
check_coupons-Returns terms parsed used [] answers = λ e. cc
check_coupons-Returns terms parsed used (ids ∷ coupons) answers =
    >>=-Returns (check_coupon terms parsed used ids) _
      (check_coupon-Returns terms parsed used ids answers)
      (λ used _. check_coupons-Returns terms parsed used coupons answers)

set-Returns :
    (seen offered : List ℕ)
    → Returns (if same_set seen offered then passed seen else failed "candidate_set")
set-Returns seen offered = parts (same_set seen offered)
  where
    parts : (b : Bool) → Returns (if b then passed seen else failed "candidate_set")
    parts true = λ e. cc
    parts false = λ e. cc

semantics-Returns : (terms : Terms) (parsed : LlmDecision) → Returns (semantics terms parsed)
unfolding semantics Answers
semantics-Returns terms parsed =
    >>=-Returns (seen_of [] parsed.candidates) _ (seen_of-Returns [] parsed.candidates)
      (λ seen first.
        >>=-Returns
          (if same_set seen (fixtures terms.playable) then passed seen else failed "candidate_set")
          _ (set-Returns seen _)
          (λ _ set.
            >>=-Returns (check_coupons terms parsed [] parsed.coupons) _
              (check_coupons-Returns terms parsed [] parsed.coupons
                (λ k h. seen-decided terms parsed k first (same_passed seen _ set) ∙ h))
              (λ used _. check_bets-Returns used parsed.candidates)))

accept_coupons-passed :
    (terms : Terms) (parsed : LlmDecision) (coupons : List (List ℕ))
    → All (IsAccepted terms parsed) coupons
    → (more : List AcceptedCoupon) × (accept_coupons terms.playable coupons ≡ passed more)
unfolding accept_coupons
accept_coupons-passed terms parsed [] accepted = ([], refl)
accept_coupons-passed terms parsed (ids ∷ coupons) (accepted, rest) =
    let (more, e) = accept_coupons-passed terms parsed coupons rest in
    (
      record { fixture_ids = ids; combined_odd = accepted.total } ∷ more,
      rw accepted.priced (rw accepted.price (rw e refl)),
    )

verdict_on-some :
    (terms : Terms) (parsed : LlmDecision) (checked : Checked Unit)
    (accepted : Checked (List AcceptedCoupon))
    → Returns checked
    → (checked ≡ passed tt → (more : List AcceptedCoupon) × (accepted ≡ passed more))
    → (v : Verdict) × (verdict_on terms parsed checked accepted ≡ some v)
verdict_on-some terms parsed (failed rule) accepted one two = (_, refl)
verdict_on-some terms parsed (passed _) accepted one two =
    let (more, e) = two refl in (_, ap (verdict_on terms parsed (passed tt)) e)
verdict_on-some terms parsed raised accepted one two = absurd (one refl)

review_parsed-some :
    (terms : Terms) (parsed : Parsed) → (v : Verdict) × (review_parsed terms parsed ≡ some v)
review_parsed-some terms (invalid code) = (_, refl)
review_parsed-some terms (reply parsed) =
    verdict_on-some terms parsed (semantics terms parsed) _ (semantics-Returns terms parsed) (λ e.
      accept_coupons-passed terms parsed parsed.coupons (semantics-IsSound terms parsed e).accepted)

-- The review of any text gives a verdict, whatever the reader makes of it: no look-up of an odd or of
-- a decision fails, and each coupon of a reply that passes has a price.
pub review_model_output-some :
    (parse_decision : String → Parsed) (raw : String) (terms : Terms)
    → (v : Verdict) × (review_model_output parse_decision raw terms ≡ some v)
unfolding review_model_output
review_model_output-some parse_decision raw terms = review_parsed-some terms (parse_decision raw)
