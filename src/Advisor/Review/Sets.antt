-- ===== src/Advisor/Review/Sets.antt =====
-- Sets of ids as lists: what it is to add ids that are all new.
use predictor.Prelude.{
  ℕ, ◌≡◌, refl, sym, ◌∙◌, Bool, true, false, ◌||◌, List, [], ◌∷◌, ◌++◌, arith, ◌==◌, ==_self, inl,
  inr, Bool-cases,
}
use predictor.Advisor.Sandbox.Slips.{contains}
use predictor.Advisor.Review.{has_duplicate}

contains-append :
    (k : ℕ) (xs ys : List ℕ) → contains k (xs ++ ys) ≡ (contains k xs || contains k ys)
contains-append k [] ys = refl
contains-append k (x ∷ xs) ys = ground (arith, contains-append k xs ys)

pub contains_head : (k : ℕ) (ks : List ℕ) → contains k (k ∷ ks) ≡ true
contains_head k ks = ground (arith, ==_self k)

abbrev pub Apart : List ℕ → List ℕ → Type 0
Apart xs ys = (k : ℕ) → contains k xs ≡ true → contains k ys ≡ false

or_false : (a b : Bool) → (a || b) ≡ false → (a ≡ false) × (b ≡ false)
or_false true b e = cc
or_false false b e = (refl, e)

has_duplicate-append :
    (xs ys : List ℕ)
    → has_duplicate xs ≡ false
    → has_duplicate ys ≡ false
    → Apart ys xs
    → has_duplicate (xs ++ ys) ≡ false
has_duplicate-append [] ys dx dy apart = dy
has_duplicate-append (x ∷ xs) ys dx dy apart =
    let (new, dx) = or_false (contains x xs) _ dx in
    let rest = has_duplicate-append xs ys dx dy (λ k h. (or_false (k == x) _ (apart k h)).1) in
    elim (Bool-cases (contains x ys)) [
      | inl hit ↦ absurd (ground (arith, apart x hit, ==_self x))
      | inr miss ↦ ground (arith, contains-append x xs ys, new)
    ]

-- `more` is `used` with the ids of ks, which are distinct and none of them used before.
pub record Adds (used ks more : List ℕ) : Type 0 where
  pub distinct : has_duplicate ks ≡ false
  pub fresh : Apart ks used
  pub all : (k : ℕ) → contains k more ≡ (contains k ks || contains k used)

pub Adds-nil : (used : List ℕ) → Adds used [] used
Adds-nil used = record { distinct = refl; fresh = λ k h. cc; all = λ k. refl }

pub Adds-cons :
    (used : List ℕ) (k : ℕ) (ks more : List ℕ)
    → contains k used ≡ false
    → Adds (k ∷ used) ks more
    → Adds used (k ∷ ks) more
Adds-cons used k ks more new rest = record {
  distinct = elim (Bool-cases (contains k ks)) [
    | inl hit ↦ absurd (ground (arith, rest.fresh k hit, ==_self k))
    | inr miss ↦ ground (arith, rest.distinct)
  ];
  fresh = λ j h. ground (arith, rest.fresh j);
  all = λ j. ground (arith, rest.all j);
}

pub Adds-append :
    (used xs mid ys more : List ℕ) → Adds used xs mid → Adds mid ys more → Adds used (xs ++ ys) more
Adds-append used xs mid ys more first second = record {
  distinct =
      has_duplicate-append xs ys first.distinct second.distinct
        (λ k h. (or_false (contains k xs) _ (sym (first.all k) ∙ second.fresh k h)).0);
  fresh =
      λ k h. ground (arith, first.fresh k, first.all k, second.fresh k, contains-append k xs ys);
  all = λ k. ground (arith, first.all k, second.all k, contains-append k xs ys);
}
