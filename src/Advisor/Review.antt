-- ===== src/Advisor/Review.antt =====
-- services/advisor/llm/validate.py: whether a parsed reply of the model may be stored and played. The
-- reading of its text, by json and pydantic, is a parameter.
mod Sets
mod CouponLaws
mod Laws
mod RaiseLaws
mod Tests
use predictor.Prelude.{
  ℕ, ◌*◌, String, Bool, true, false, not, ◌&&◌, ◌||◌, Option, none, some, List, [], ◌∷◌, all,
  length, leb, ltb, ◌==◌, if◌then◌else◌,
}
use predictor.Prelude.Ratio.{Ratio}
use predictor.Prelude.Result.{Result, ok, value_error}
use predictor.Advisor.Odds.{combined_odd}
use predictor.Advisor.Sandbox.Slips.{contains}

pub data ReasonCode : Type 0 where
  favorite_pressure : ReasonCode
  high_shot_volume : ReasonCode
  low_tempo : ReasonCode
  red_card : ReasonCode
  odd_too_low : ReasonCode
  late_minute : ReasonCode
  weak_favorite : ReasonCode

pub data Decision : Type 0 where
  bet : Decision
  reject : Decision
  wait : Decision

pub record CandidateDecision : Type 0 where
  pub fixture_id : ℕ
  pub decision : Decision
  pub estimated_probability : Ratio
  pub confidence : Ratio
  pub reasons : List ReasonCode
  pub rationale : String

pub record LlmDecision : Type 0 where
  pub candidates : List CandidateDecision
  -- each coupon is the list of its `fixture_ids`
  pub coupons : List (List ℕ)

pub record PricedCandidate : Type 0 where
  pub fixture_id : ℕ
  pub odd : ℕ

pub record AcceptedCoupon : Type 0 where
  pub fixture_ids : List ℕ
  pub combined_odd : ℕ

pub record Verdict : Type 0 where
  pub status : String
  pub detail : String
  pub decision : Option LlmDecision
  pub coupons : List AcceptedCoupon

-- What `_semantics` comes to: the name of the rule that failed, or the value that it goes on with; a
-- missing key or an empty `next` raises.
pub data Checked (V : Type 0) : Type 0 where
  passed : V → Checked V
  failed : String → Checked V
  raised : Checked V

infixl 5 ◌>>=◌
abbrev pub ◌>>=◌ : {V W : Type 0} → Checked V → (V → Checked W) → Checked W
passed v >>= next = next v
failed rule >>= next = failed rule
raised >>= next = raised

-- the arguments of `_semantics` beside the reply
pub record Terms : Type 0 where
  pub playable : List PricedCandidate
  pub open_fixture_ids : ℕ → Bool
  pub min_odd : ℕ
  pub max_legs : ℕ

abbrev pub fixtures : List PricedCandidate → List ℕ
fixtures [] = []
fixtures (item ∷ items) = item.fixture_id ∷ fixtures items

abbrev pub decided : List CandidateDecision → List ℕ
decided [] = []
decided (candidate ∷ candidates) = candidate.fixture_id ∷ decided candidates

-- the loop over `seen`
unfoldable pub seen_of : List ℕ → List CandidateDecision → Checked (List ℕ)
seen_of seen [] = passed seen
seen_of seen (candidate ∷ candidates) =
    let rest = seen_of (candidate.fixture_id ∷ seen) candidates in
    if contains candidate.fixture_id seen then failed "duplicate_candidate" else rest

abbrev pub same_set : List ℕ → List ℕ → Bool
same_set a b = all (λ k. contains k b) a && all (λ k. contains k a) b

-- `len(ids) != len(set(ids))`
abbrev pub has_duplicate : List ℕ → Bool
has_duplicate [] = false
has_duplicate (k ∷ ks) = contains k ks || has_duplicate ks

-- `priced[fixture_id]`: of two entries the later one counts
abbrev pub or_first : Option ℕ → PricedCandidate → ℕ → Option ℕ
or_first (some odd) item k = some odd
or_first none item k = if item.fixture_id == k then some item.odd else none

unfoldable pub odd_at : List PricedCandidate → ℕ → Option ℕ
odd_at [] k = none
odd_at (item ∷ items) k = or_first (odd_at items k) item k

abbrev pub or_raise : {V : Type 0} → Option V → Checked V
or_raise none = raised
or_raise (some v) = passed v

unfoldable pub odds_at : List PricedCandidate → List ℕ → Checked (List ℕ)
odds_at playable [] = passed []
odds_at playable (k ∷ ks) = do
  odd ← or_raise (odd_at playable k)
  odds ← odds_at playable ks
  passed (odd ∷ odds)

-- the loop over the legs of a coupon, with the set `used`
unfoldable pub use_legs : Terms → List ℕ → List ℕ → Checked (List ℕ)
use_legs terms used [] = passed used
use_legs terms used (k ∷ ks) =
    let rest = use_legs terms (k ∷ used) ks in
    if not (contains k (fixtures terms.playable))
    then failed "unknown_fixture"
    else if terms.open_fixture_ids k
    then failed "open_coupon"
    else if contains k used
    then failed "duplicate_leg"
    else rest

-- `next(item for item in parsed.candidates if ...)`
unfoldable pub decision_on : List CandidateDecision → ℕ → Option CandidateDecision
decision_on [] k = none
decision_on (candidate ∷ candidates) k =
    let rest = decision_on candidates k in
    if candidate.fixture_id == k then some candidate else rest

abbrev pub is_bet : Decision → Bool
is_bet bet = true
is_bet _ = false

-- the expected payout of a stake of one is below one; the odd and the kept share are in thousandths
abbrev pub loses : Ratio → ℕ → Bool
loses probability odd = ltb (probability.num * odd * 880) (probability.den * 1000000)

abbrev pub judge_single : Terms → List ℕ → CandidateDecision → ℕ → Checked (List ℕ)
judge_single terms used sole odd =
    if not (is_bet sole.decision)
    then passed used
    else if leb 2 (length terms.playable)
    then failed "single_with_partners"
    else if loses sole.estimated_probability odd
    then failed "single_negative_ev"
    else passed used

abbrev pub check_single : Terms → LlmDecision → List ℕ → List ℕ → List ℕ → Checked (List ℕ)
check_single terms parsed used (k ∷ []) (odd ∷ []) = do
  sole ← or_raise (decision_on parsed.candidates k)
  judge_single terms used sole odd
check_single terms parsed used _ _ = passed used

abbrev pub check_price :
    Terms → LlmDecision → List ℕ → List ℕ → List ℕ → Result ℕ → Checked (List ℕ)
check_price terms parsed used ids odds value_error = failed "invalid_odd"
check_price terms parsed used ids odds (ok total) =
    let single = check_single terms parsed used ids odds in
    if ltb total terms.min_odd then failed "below_threshold" else single

unfoldable pub check_coupon : Terms → LlmDecision → List ℕ → List ℕ → Checked (List ℕ)
check_coupon terms parsed used ids =
    if has_duplicate ids
    then failed "duplicate_leg"
    else if ltb terms.max_legs (length ids)
    then failed "too_many_legs"
    else do
      used ← use_legs terms used ids
      odds ← odds_at terms.playable ids
      check_price terms parsed used ids odds (combined_odd odds)

unfoldable pub check_coupons : Terms → LlmDecision → List ℕ → List (List ℕ) → Checked (List ℕ)
check_coupons terms parsed used [] = passed used
check_coupons terms parsed used (ids ∷ coupons) = do
  used ← check_coupon terms parsed used ids
  check_coupons terms parsed used coupons

-- the last loop: the bets are the legs
unfoldable pub check_bets : List ℕ → List CandidateDecision → Checked Unit
check_bets used [] = passed tt
check_bets used (candidate ∷ candidates) =
    let rest = check_bets used candidates in
    let in_coupon = contains candidate.fixture_id used in
    if is_bet candidate.decision && not in_coupon
    then failed "bet_not_in_coupon"
    else if not (is_bet candidate.decision) && in_coupon
    then failed "not_a_bet"
    else rest

-- `_semantics`
unfoldable pub semantics : Terms → LlmDecision → Checked Unit
semantics terms parsed = do
  seen ← seen_of [] parsed.candidates
  seen ← if same_set seen (fixtures terms.playable) then passed seen else failed "candidate_set"
  used ← check_coupons terms parsed [] parsed.coupons
  check_bets used parsed.candidates

-- What `parse_decision` returns, or the code of its error.
pub data Parsed : Type 0 where
  invalid : String → Parsed
  reply : LlmDecision → Parsed

abbrev pub priced : List ℕ → Result ℕ → Checked AcceptedCoupon
priced ids value_error = raised
priced ids (ok total) = passed (record { fixture_ids = ids; combined_odd = total })

unfoldable pub accept_coupons : List PricedCandidate → List (List ℕ) → Checked (List AcceptedCoupon)
accept_coupons playable [] = passed []
accept_coupons playable (ids ∷ coupons) = do
  odds ← odds_at playable ids
  coupon ← priced ids (combined_odd odds)
  accepted ← accept_coupons playable coupons
  passed (coupon ∷ accepted)

-- a reply that keeps to the schema, by what `_semantics` says of it; none where the code raises
abbrev pub verdict_on :
    Terms → LlmDecision → Checked Unit → Checked (List AcceptedCoupon) → Option Verdict
verdict_on terms parsed (failed rule) accepted =
    some (record { status = rule; detail = rule; decision = some parsed; coupons = [] })
verdict_on terms parsed (passed _) (passed coupons) =
    some (record { status = "ok"; detail = ""; decision = some parsed; coupons = coupons })
verdict_on terms parsed _ _ = none

abbrev pub review_parsed : Terms → Parsed → Option Verdict
review_parsed terms (invalid code) =
    some (record { status = "invalid_output"; detail = code; decision = none; coupons = [] })
review_parsed terms (reply parsed) =
    verdict_on terms parsed (semantics terms parsed) (accept_coupons terms.playable parsed.coupons)

unfoldable pub review_model_output : (String → Parsed) → String → Terms → Option Verdict
review_model_output parse_decision raw terms = review_parsed terms (parse_decision raw)
