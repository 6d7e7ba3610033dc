-- ===== src/Advisor/Recommend/StrategyLaws.antt =====
-- One change of a strategy's status, and one promotion, keep at most one strategy promoted.
use predictor.Prelude.{
  ℕ, ◌+◌, ◌≤◌, ◌≡◌, refl, sym, subst, String, Bool, true, false, Option, none, some, List, [], ◌∷◌,
  arith, str_eq, eq_iff, ◌==◌, ==_self, Bool-cases, inl, inr, ◌⊎◌, if◌then◌else◌,
}
use predictor.Advisor.Sandbox.Book.{Strategy}
use predictor.Advisor.Sandbox.Place.{set_status}
use predictor.Advisor.Recommend.Strategies.{
  Desk, strategy_move, find_promoted, replace_current, promote,
}

abbrev pub is_promoted : Strategy → ℕ
is_promoted strategy = if str_eq strategy.status "promoted" then 1 else 0

abbrev pub promoted : List Strategy → ℕ
promoted [] = 0
promoted (strategy ∷ strategies) = is_promoted strategy + promoted strategies

abbrev pub copies : ℕ → List Strategy → ℕ
copies k [] = 0
copies k (strategy ∷ strategies) = (if strategy.id == k then 1 else 0) + copies k strategies

copies-set_status :
    (k j : ℕ) (status : String) (xs : List Strategy)
    → copies k (set_status j status xs) ≡ copies k xs
unfolding set_status
copies-set_status k j status [] = refl
copies-set_status k j status (x ∷ xs) = elim (Bool-cases (x.id == j)) [
  | inl e ↦ rw e (omega (arith, copies-set_status k j status xs))
  | inr e ↦ rw e (omega (arith, copies-set_status k j status xs))
]

set_status-promoted :
    (k : ℕ) (status : String) (xs : List Strategy)
    → str_eq status "promoted" ≡ false
    → promoted (set_status k status xs) ≤ promoted xs
unfolding set_status
set_status-promoted k status [] h = omega arith
set_status-promoted k status (x ∷ xs) h = elim (Bool-cases (x.id == k)) [
  | inl e ↦ rw (e, h) (omega (arith, set_status-promoted k status xs h))
  | inr e ↦ rw e (omega (arith, set_status-promoted k status xs h))
]

found-cases :
    (b : Bool) (x c : Strategy) (rest : Option Strategy)
    → (if b then some x else rest) ≡ some c
    → ((b ≡ true) × (x ≡ c)) ⊎ ((b ≡ false) × (rest ≡ some c))
found-cases true x c rest e = inl (refl, cc)
found-cases false x c rest e = inr (refl, e)

demote_self :
    (x : Strategy) (xs : List Strategy)
    → promoted xs ≡ 0
    → promoted (set_status x.id "sandbox" (x ∷ xs)) ≡ 0
unfolding set_status
demote_self x xs zero =
    let rest = set_status-promoted x.id "sandbox" xs refl in rw (==_self x.id) (omega arith)

demote_rest :
    (k : ℕ) (x : Strategy) (xs : List Strategy)
    → str_eq x.status "promoted" ≡ false
    → promoted (set_status k "sandbox" xs) ≡ 0
    → promoted (set_status k "sandbox" (x ∷ xs)) ≡ 0
unfolding set_status
demote_rest k x xs p rest = elim (Bool-cases (x.id == k)) [
  | inl e ↦ rw e (omega arith)
  | inr e ↦ rw (e, p) (omega arith)
]

demote_all :
    (xs : List Strategy) (c : Strategy)
    → find_promoted xs ≡ some c
    → promoted xs ≤ 1
    → promoted (set_status c.id "sandbox" xs) ≡ 0
demote_all [] c e h = absurd (ground arith)
demote_all (x ∷ xs) c e h =
    elim (found-cases (str_eq x.status "promoted") x c (find_promoted xs) e) [
      | inl (p, same) ↦
          subst (λ d. promoted (set_status d.id "sandbox" (x ∷ xs)) ≡ 0) same
            (demote_self x xs (ground arith))
      | inr (p, later) ↦ demote_rest c.id x xs p (demote_all xs c later (ground arith))
    ]

no_promoted : (xs : List Strategy) → find_promoted xs ≡ none → promoted xs ≡ 0
no_promoted [] e = refl
no_promoted (x ∷ xs) e = elim (Bool-cases (str_eq x.status "promoted")) [
  | inl p ↦ absurd (ground arith)
  | inr p ↦ let rest = no_promoted xs (ground arith) in rw p (omega arith)
]

found_promoted :
    (xs : List Strategy) (c : Strategy)
    → find_promoted xs ≡ some c
    → str_eq c.status "promoted" ≡ true
found_promoted [] c e = absurd (ground arith)
found_promoted (x ∷ xs) c e =
    elim (found-cases (str_eq x.status "promoted") x c (find_promoted xs) e) [
      | inl (p, same) ↦ subst (λ d. str_eq d.status "promoted" ≡ true) same p
      | inr (p, later) ↦ found_promoted xs c later
    ]

promote_one :
    (k : ℕ) (xs : List Strategy)
    → promoted (set_status k "sandbox" xs) ≡ 0
    → promoted (set_status k "promoted" xs) ≡ copies k xs
unfolding set_status
promote_one k [] h = refl
promote_one k (x ∷ xs) h = elim (Bool-cases (x.id == k)) [
  | inl e ↦ let rest = promote_one k xs (ground arith) in rw e (omega arith)
  | inr e ↦
      let rest = promote_one k xs (ground arith) in
      let not_promoted : is_promoted x ≡ 0 = ground arith in rw e (omega arith)
]

-- Ids name one strategy each, and at most one strategy is promoted.
pub record IsSound (strategies : List Strategy) : Type 0 where
  pub keyed : (k : ℕ) → copies k strategies ≤ 1
  pub single : promoted strategies ≤ 1

pub set_status-IsSound :
    (k : ℕ) (status : String) (strategies : List Strategy)
    → str_eq status "promoted" ≡ false
    → IsSound strategies
    → IsSound (set_status k status strategies)
set_status-IsSound k status strategies h sound =
    let fewer = set_status-promoted k status strategies h in
    let single = sound.single in
    record {
      keyed =
          λ j. subst (λ n. n ≤ 1) (sym (copies-set_status j k status strategies)) (sound.keyed j);
      single = omega arith;
    }

pub strategy_move-IsSound :
    (s : Strategy) (status source note : String) (desk : Desk)
    → str_eq status "promoted" ≡ false
    → IsSound desk.strategies
    → IsSound (strategy_move s status source note desk).strategies
unfolding strategy_move
strategy_move-IsSound s status source note desk h sound =
    elim (Bool-cases (str_eq s.status status)) [
      | inl e ↦ rw e sound
      | inr e ↦ rw e (set_status-IsSound s.id status desk.strategies h sound)
    ]

-- what a promotion needs of the table: the strategy aside, none is promoted
record IsFree (k : ℕ) (strategies : List Strategy) : Type 0 where
  sound : IsSound strategies
  free : promoted (set_status k "sandbox" strategies) ≡ 0

replaced :
    (c : Strategy) (desk : Desk)
    → str_eq c.status "promoted" ≡ true
    → (strategy_move c "sandbox" "operator" "replaced" desk).strategies
      ≡ set_status c.id "sandbox" desk.strategies
unfolding strategy_move
replaced c desk p = let promoted_name = (eq_iff c.status "promoted").0 p in rw promoted_name refl

replace_current-IsFree :
    (k : ℕ) (current : Option Strategy) (desk : Desk)
    → find_promoted desk.strategies ≡ current
    → IsSound desk.strategies
    → IsFree k (replace_current k current desk).strategies
replace_current-IsFree k none desk e sound =
    let fewer = set_status-promoted k "sandbox" desk.strategies refl in
    let zero = no_promoted desk.strategies e in record { sound = sound; free = omega arith }
replace_current-IsFree k (some c) desk e sound =
    let zero = demote_all desk.strategies c e sound.single in
    elim (Bool-cases (c.id == k)) [
      | inl same ↦ rw same (record {
        sound = sound;
        free =
            subst (λ j. promoted (set_status j "sandbox" desk.strategies) ≡ 0) (ground arith) zero;
      })
      | inr other ↦
          let moved = replaced c desk (found_promoted desk.strategies c e) in
          let fewer =
            set_status-promoted k "sandbox" (set_status c.id "sandbox" desk.strategies) refl in
          rw other (record {
            sound = strategy_move-IsSound c "sandbox" "operator" "replaced" desk refl sound;
            free = rw moved (omega arith);
          })
    ]

promoted_move-IsSound :
    (s : Strategy) (desk : Desk)
    → IsFree s.id desk.strategies
    → IsSound (strategy_move s "promoted" "operator" "" desk).strategies
unfolding strategy_move
promoted_move-IsSound s desk f = elim (Bool-cases (str_eq s.status "promoted")) [
  | inl e ↦ rw e f.sound
  | inr e ↦
      let one = promote_one s.id desk.strategies f.free in
      let key = f.sound.keyed s.id in
      rw e (record {
        keyed = λ k.
            subst (λ n. n ≤ 1) (sym (copies-set_status k s.id "promoted" desk.strategies))
              (f.sound.keyed k);
        single = omega arith;
      })
]

pub promote-IsSound :
    (s : Strategy) (desk : Desk) → IsSound desk.strategies → IsSound (promote s desk).strategies
unfolding promote
promote-IsSound s desk sound =
    promoted_move-IsSound s (replace_current s.id (find_promoted desk.strategies) desk)
      (replace_current-IsFree s.id (find_promoted desk.strategies) desk refl sound)
