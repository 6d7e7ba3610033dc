-- ===== src/Advisor/Review/CouponLaws.antt =====
-- What the review of a reply asks of a coupon.
use predictor.Prelude.{
  ℕ, String, ◌≤◌, ◌<◌, ◌≡◌, refl, sym, ◌∙◌, subst, Bool, true, false, not, some, List, [], ◌∷◌,
  ◌++◌, arith, All, length, leb, ltb, if◌then◌else◌,
}
use predictor.Prelude.Result.{Result, ok, value_error}
use predictor.Advisor.Odds.{combined_odd}
use predictor.Advisor.Sandbox.Slips.{contains}
use predictor.Advisor.Review.{
  CandidateDecision, LlmDecision, PricedCandidate, Checked, passed, failed, raised, ◌>>=◌, Terms,
  fixtures, decided, seen_of, has_duplicate, or_raise, odd_at, odds_at, use_legs, decision_on,
  is_bet, loses, judge_single, check_single, check_price, check_coupon, check_coupons,
}
use predictor.Advisor.Review.Sets.{Adds, Adds-nil, Adds-cons, Adds-append}

pub >>=-passed :
    {V W : Type 0} (first : Checked V) (next : V → Checked W) {w : W}
    → (first >>= next) ≡ passed w
    → (v : V) × (first ≡ passed v) × (next v ≡ passed w)
>>=-passed (passed v) next e = (v, refl, e)
>>=-passed (failed rule) next e = cc
>>=-passed raised next e = cc

-- a rule that a passing reply does not break
pub unbroken :
    {V : Type 0} (test : Bool) (rule : String) (rest : Checked V) {v : V}
    → (if test then failed rule else rest) ≡ passed v
    → (test ≡ false) × (rest ≡ passed v)
unbroken true rule rest e = cc
unbroken false rule rest e = (refl, e)

passed-injective : {V : Type 0} {v w : V} → passed v ≡ passed w → v ≡ w
passed-injective e = cc

not-false : (b : Bool) → not b ≡ false → b ≡ true
not-false true e = refl
not-false false e = cc

pub seen_of-Adds :
    (seen : List ℕ) (candidates : List CandidateDecision) {more : List ℕ}
    → seen_of seen candidates ≡ passed more
    → Adds seen (decided candidates) more
unfolding seen_of
seen_of-Adds seen [] e = subst (Adds seen []) (passed-injective e) (Adds-nil seen)
seen_of-Adds seen (candidate ∷ candidates) e =
    let (new, rest) = unbroken (contains candidate.fixture_id seen) _ _ e in
    Adds-cons seen _ _ _ new (seen_of-Adds (candidate.fixture_id ∷ seen) candidates rest)

-- The fixture was offered to the model, and no coupon on it is open.
abbrev pub IsOffered : Terms → ℕ → Type 0
IsOffered terms k =
    (contains k (fixtures terms.playable) ≡ true) × (terms.open_fixture_ids k ≡ false)

pub use_legs-Adds :
    (terms : Terms) (used ids : List ℕ) {more : List ℕ}
    → use_legs terms used ids ≡ passed more
    → Adds used ids more × All (IsOffered terms) ids
unfolding use_legs
use_legs-Adds terms used [] e = (subst (Adds used []) (passed-injective e) (Adds-nil used), tt)
use_legs-Adds terms used (k ∷ ks) e =
    let (known, e) = unbroken (not (contains k (fixtures terms.playable))) _ _ e in
    let (closed, e) = unbroken (terms.open_fixture_ids k) _ _ e in
    let (new, e) = unbroken (contains k used) _ _ e in
    let (adds, offered) = use_legs-Adds terms (k ∷ used) ks e in
    (Adds-cons used k ks _ new adds, ((not-false _ known, closed), offered))

-- What an accepted coupon promises.
pub record IsAccepted (terms : Terms) (parsed : LlmDecision) (ids : List ℕ) : Type 0 where
  pub size : length ids ≤ terms.max_legs
  pub offered : All (IsOffered terms) ids
  pub odds : List ℕ
  pub priced : odds_at terms.playable ids ≡ passed odds
  pub total : ℕ
  pub price : combined_odd odds ≡ ok total
  pub enough : terms.min_odd ≤ total
  pub single :
      (k odd : ℕ) (sole : CandidateDecision)
      → ids ≡ k ∷ []
      → odd_at terms.playable k ≡ some odd
      → decision_on parsed.candidates k ≡ some sole
      → is_bet sole.decision ≡ true
      → (length terms.playable < 2) × (loses sole.estimated_probability odd ≡ false)

odds_at-one :
    (playable : List PricedCandidate) (k odd : ℕ)
    → odd_at playable k ≡ some odd
    → odds_at playable (k ∷ []) ≡ passed (odd ∷ [])
unfolding odds_at
odds_at-one playable k odd e = rw e refl

leb-false : (a b : ℕ) → leb a b ≡ false → b < a
leb-false a b e = ground arith

ltb-false : (a b : ℕ) → ltb a b ≡ false → b ≤ a
ltb-false a b e = ground arith

judge_single-bet :
    (terms : Terms) (used : List ℕ) (sole : CandidateDecision) (odd : ℕ) {more : List ℕ}
    → is_bet sole.decision ≡ true
    → judge_single terms used sole odd ≡ passed more
    → (length terms.playable < 2) × (loses sole.estimated_probability odd ≡ false)
judge_single-bet terms used sole odd is e =
    let (few, pays) =
      parts (is_bet sole.decision) (leb 2 (length terms.playable))
        (loses sole.estimated_probability odd) is e in
    (leb-false 2 _ few, pays)
  where
    parts :
        (a b c : Bool) {more : List ℕ}
        → a ≡ true
        → (if not a
            then passed used
            else if b
            then failed "single_with_partners"
            else if c
            then failed "single_negative_ev"
            else passed used)
          ≡ passed more
        → (b ≡ false) × (c ≡ false)
    parts true false false is e = (refl, refl)
    parts true false true is e = cc
    parts true true c is e = cc
    parts false b c is e = cc

judge_single-used :
    (terms : Terms) (used : List ℕ) (sole : CandidateDecision) (odd : ℕ) {more : List ℕ}
    → judge_single terms used sole odd ≡ passed more
    → used ≡ more
judge_single-used terms used sole odd e =
    parts (is_bet sole.decision) (leb 2 (length terms.playable))
      (loses sole.estimated_probability odd) e
  where
    parts :
        (a b c : Bool) {more : List ℕ}
        → (if not a
            then passed used
            else if b
            then failed "single_with_partners"
            else if c
            then failed "single_negative_ev"
            else passed used)
          ≡ passed more
        → used ≡ more
    parts false b c e = passed-injective e
    parts true true c e = cc
    parts true false true e = cc
    parts true false false e = passed-injective e

check_single-used :
    (terms : Terms) (parsed : LlmDecision) (used ids odds : List ℕ) {more : List ℕ}
    → check_single terms parsed used ids odds ≡ passed more
    → used ≡ more
check_single-used terms parsed used (k ∷ []) (odd ∷ []) e =
    let (sole, _, e) =
      >>=-passed (or_raise (decision_on parsed.candidates k))
        (λ sole. judge_single terms used sole odd) e in
    judge_single-used terms used sole odd e
check_single-used terms parsed used [] odds e = passed-injective e
check_single-used terms parsed used (k ∷ []) [] e = passed-injective e
check_single-used terms parsed used (k ∷ []) (odd ∷ odd2 ∷ odds) e = passed-injective e
check_single-used terms parsed used (k ∷ k2 ∷ ks) odds e = passed-injective e

-- what `check_single` says of a single that is a bet
Single : Terms → LlmDecision → List ℕ → Type 0
Single terms parsed ids =
    (k odd : ℕ) (sole : CandidateDecision)
    → ids ≡ k ∷ []
    → odd_at terms.playable k ≡ some odd
    → decision_on parsed.candidates k ≡ some sole
    → is_bet sole.decision ≡ true
    → (length terms.playable < 2) × (loses sole.estimated_probability odd ≡ false)

check_single-bet :
    (terms : Terms) (parsed : LlmDecision) (used ids odds : List ℕ) {more : List ℕ}
    → odds_at terms.playable ids ≡ passed odds
    → check_single terms parsed used ids odds ≡ passed more
    → Single terms parsed ids
unfolding Single
check_single-bet terms parsed used ids odds {more} priced e k odd sole one at found is =
    let priced : odds_at terms.playable (k ∷ []) ≡ passed odds =
      subst (λ l. odds_at terms.playable l ≡ passed odds) one priced in
    let same : odds ≡ odd ∷ [] =
      passed-injective (sym priced ∙ odds_at-one terms.playable k odd at) in
    let e : check_single terms parsed used (k ∷ []) odds ≡ passed more =
      subst (λ l. check_single terms parsed used l odds ≡ passed more) one e in
    let e : check_single terms parsed used (k ∷ []) (odd ∷ []) ≡ passed more =
      subst (λ l. check_single terms parsed used (k ∷ []) l ≡ passed more) same e in
    let e =
      subst (λ o. (or_raise o >>= (λ s. judge_single terms used s odd)) ≡ passed more) found e in
    judge_single-bet terms used sole odd is e

check_price-parts :
    (terms : Terms) (parsed : LlmDecision) (used ids odds : List ℕ) (price : Result ℕ)
    {more : List ℕ}
    → check_price terms parsed used ids odds price ≡ passed more
    → (total : ℕ) × (price ≡ ok total)
      × (terms.min_odd ≤ total)
      × (check_single terms parsed used ids odds ≡ passed more)
check_price-parts terms parsed used ids odds value_error e = cc
check_price-parts terms parsed used ids odds (ok total) e =
    let (enough, e) = unbroken (ltb total terms.min_odd) _ _ e in
    (total, refl, ltb-false total _ enough, e)

check_coupon-IsAccepted :
    (terms : Terms) (parsed : LlmDecision) (used ids : List ℕ) {more : List ℕ}
    → check_coupon terms parsed used ids ≡ passed more
    → Adds used ids more × IsAccepted terms parsed ids
unfolding check_coupon Single
check_coupon-IsAccepted terms parsed used ids {more} e =
    let (_, e) = unbroken (has_duplicate ids) _ _ e in
    let (few, e) = unbroken (ltb terms.max_legs (length ids)) _ _ e in
    let (mid, legs, e) =
      >>=-passed (use_legs terms used ids)
        (λ used.
          odds_at terms.playable ids
          >>= (λ odds. check_price terms parsed used ids odds (combined_odd odds)))
        e in
    let (adds, offered) = use_legs-Adds terms used ids legs in
    let (odds, priced, e) =
      >>=-passed (odds_at terms.playable ids)
        (λ odds. check_price terms parsed mid ids odds (combined_odd odds)) e in
    let (total, price, enough, e) =
      check_price-parts terms parsed mid ids odds (combined_odd odds) e in
    (
      subst (Adds used ids) (check_single-used terms parsed mid ids odds e) adds,
      record {
        size = ltb-false _ _ few;
        offered = offered;
        odds = odds;
        priced = priced;
        total = total;
        price = price;
        enough = enough;
        single = check_single-bet terms parsed mid ids odds priced e;
      },
    )

abbrev pub legs : List (List ℕ) → List ℕ
legs [] = []
legs (ids ∷ coupons) = ids ++ legs coupons

pub check_coupons-IsAccepted :
    (terms : Terms) (parsed : LlmDecision) (used : List ℕ) (coupons : List (List ℕ)) {more : List ℕ}
    → check_coupons terms parsed used coupons ≡ passed more
    → Adds used (legs coupons) more × All (IsAccepted terms parsed) coupons
unfolding check_coupons
check_coupons-IsAccepted terms parsed used [] e =
    (subst (Adds used []) (passed-injective e) (Adds-nil used), tt)
check_coupons-IsAccepted terms parsed used (ids ∷ coupons) e =
    let (mid, one, e) =
      >>=-passed (check_coupon terms parsed used ids)
        (λ used. check_coupons terms parsed used coupons) e in
    let (first, accepted) = check_coupon-IsAccepted terms parsed used ids one in
    let (second, rest) = check_coupons-IsAccepted terms parsed mid coupons e in
    (Adds-append used ids mid (legs coupons) _ first second, (accepted, rest))
