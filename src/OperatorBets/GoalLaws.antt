-- ===== src/OperatorBets/GoalLaws.antt =====
-- When a next-goal bet is won.
use predictor.Prelude.{
  ℕ, ◌+◌, ◌≤◌, ◌<◌, ◌≡◌, ◌↔◌, ◌≢◌, ◌⊎◌, inl, inr, refl, String, Bool, true, false, ◌&&◌, Option,
  none, some, List, [], ◌∷◌, All, eq_iff, arith, Bool-cases, leb, is_some,
}
use predictor.Prelude.Codes.{is_code_in}
use predictor.OperatorBets.Goals.{
  FixtureEvent, Side, home, away, event_side, goal_since, add_home, add_away,
  has_counting_goal_since_snapshot, goal_counts_for_next_goal, resolve_auto_outcome, short_of,
  leave_open, finished_no_goal,
}

-- the score of the goals in a list of events
unfoldable pub score : ℕ → ℕ → ℕ × ℕ → List FixtureEvent → ℕ × ℕ
score home_id away_id (h, a) [] = (h, a)
score home_id away_id (h, a) (event ∷ events) = elim (event_side home_id away_id event) [
  | none ↦ score home_id away_id (h, a) events
  | some side ↦ score home_id away_id (add_home side h, add_away side a) events
]

Side-cases : (o : Option Side) → (o ≡ none) ⊎ ((o ≡ some home) ⊎ (o ≡ some away))
Side-cases none = inl refl
Side-cases (some home) = inr (inl refl)
Side-cases (some away) = inr (inr refl)

score_mono :
    (home_id away_id h a : ℕ) (events : List FixtureEvent)
    → (h ≤ (score home_id away_id (h, a) events).0) × (a ≤ (score home_id away_id (h, a) events).1)
unfolding score
score_mono home_id away_id h a [] = (omega arith, omega arith)
score_mono home_id away_id h a (event ∷ events) =
    elim (Side-cases (event_side home_id away_id event)) [
      | inl e ↦ rw (score, e) (score_mono home_id away_id h a events)
      | inr (inl e) ↦
          let m = score_mono home_id away_id (h + 1) a events in
          rw (score, e) (omega (arith, m.0), m.1)
      | inr (inr e) ↦
          let m = score_mono home_id away_id h (a + 1) events in
          rw (score, e) (m.0, omega (arith, m.1))
    ]

goal_since-past :
    (home_id away_id snap_home snap_away h a : ℕ) (events : List FixtureEvent)
    → goal_since home_id away_id snap_home snap_away h a events ≡ true
    → (snap_home < (score home_id away_id (h, a) events).0)
      ⊎ (snap_away < (score home_id away_id (h, a) events).1)
unfolding goal_since score goal_counts_for_next_goal
goal_since-past home_id away_id snap_home snap_away h a [] e = ground arith
goal_since-past home_id away_id snap_home snap_away h a (event ∷ events) e =
    elim (Side-cases (event_side home_id away_id event)) [
      | inl s ↦ ground (arith, goal_since-past home_id away_id snap_home snap_away h a events)
      | inr (inl s) ↦ ground (
        arith,
        goal_since-past home_id away_id snap_home snap_away (h + 1) a events,
        score_mono home_id away_id (h + 1) a events,
      )
      | inr (inr s) ↦ ground (
        arith,
        goal_since-past home_id away_id snap_home snap_away h (a + 1) events,
        score_mono home_id away_id h (a + 1) events,
      )
    ]

both_le : (a b c d : ℕ) → (leb a b && leb c d) ≡ true → (a ≤ b) × (c ≤ d)
both_le a b c d h = ground arith

past-goal_since :
    (home_id away_id snap_home snap_away h a : ℕ) (events : List FixtureEvent)
    → All (λ event. is_some event.minute ≡ true) events
    → h ≤ snap_home
    → a ≤ snap_away
    → (snap_home < (score home_id away_id (h, a) events).0)
      ⊎ (snap_away < (score home_id away_id (h, a) events).1)
    → goal_since home_id away_id snap_home snap_away h a events ≡ true
unfolding goal_since score goal_counts_for_next_goal
past-goal_since home_id away_id snap_home snap_away h a [] timed hh ha e = ground arith
past-goal_since home_id away_id snap_home snap_away h a (event ∷ events) timed hh ha e =
    elim (Side-cases (event_side home_id away_id event)) [
      | inl s ↦
          ground
            (arith, past-goal_since home_id away_id snap_home snap_away h a events timed.1 hh ha)
      | inr (inl s) ↦ elim (Bool-cases (leb (h + 1) snap_home && leb a snap_away)) [
        | inl within ↦
            let rest =
              past-goal_since home_id away_id snap_home snap_away (h + 1) a events timed.1
                (both_le (h + 1) snap_home a snap_away within).0 ha in
            ground (arith, rest)
        | inr past ↦ rw (goal_since, s, past, timed.0) refl
      ]
      | inr (inr s) ↦ elim (Bool-cases (leb h snap_home && leb (a + 1) snap_away)) [
        | inl within ↦
            let rest =
              past-goal_since home_id away_id snap_home snap_away h (a + 1) events timed.1 hh
                (both_le h snap_home (a + 1) snap_away within).1 in
            ground (arith, rest)
        | inr past ↦ rw (goal_since, s, past, timed.0) refl
      ]
    ]

-- When every event has its minute, a goal counts for a bet exactly when the goals among the events
-- take the score of one side past the score at the bet.
pub has_counting_goal_iff :
    (events : List FixtureEvent) (home_id away_id snap_home snap_away : ℕ)
    → All (λ event. is_some event.minute ≡ true) events
    → (has_counting_goal_since_snapshot events home_id away_id snap_home snap_away ≡ true) ↔ (
        (snap_home < (score home_id away_id (0, 0) events).0)
        ⊎ (snap_away < (score home_id away_id (0, 0) events).1))
unfolding has_counting_goal_since_snapshot
has_counting_goal_iff events home_id away_id snap_home snap_away timed = (
  goal_since-past home_id away_id snap_home snap_away 0 0 events,
  past-goal_since home_id away_id snap_home snap_away 0 0 events timed (omega arith) (omega arith),
)

won-lost : ◌≢◌ {A = String} "won" "lost"
won-lost e = ground (arith, eq_iff "won" "lost")

-- The outcome that the settlement writes by itself: won exactly when a goal counted, or at the end
-- of a match that is over and whose score rose on one side and fell on none; lost exactly when such
-- a match ended on the score of the bet, no goal counted. Any outcome is one of these two, so that it
-- never voids a bet.
pub resolve_auto_outcome_iff :
    (snap_home snap_away now_home now_away : ℕ) (status : Option String) (goal : Bool)
    → ((resolve_auto_outcome snap_home snap_away now_home now_away status goal ≡ some "won") ↔ (
        (goal ≡ true)
        ⊎ ((snap_home ≤ now_home)
            × (snap_away ≤ now_away)
            × (is_code_in (short_of status) leave_open ≡ false)
            × (is_code_in (short_of status) finished_no_goal ≡ true)
            × (snap_home + snap_away < now_home + now_away))))
      × ((resolve_auto_outcome snap_home snap_away now_home now_away status goal ≡ some "lost") ↔ (
          (goal ≡ false)
          × (snap_home ≡ now_home)
          × (snap_away ≡ now_away)
          × (is_code_in (short_of status) leave_open ≡ false)
          × (is_code_in (short_of status) finished_no_goal ≡ true)))
      × ((outcome : String)
          → resolve_auto_outcome snap_home snap_away now_home now_away status goal ≡ some outcome
          → (outcome ≡ "won") ⊎ (outcome ≡ "lost"))
unfolding resolve_auto_outcome
resolve_auto_outcome_iff snap_home snap_away now_home now_away status goal =
    (ground (arith, won-lost), ground (arith, won-lost), λ outcome e. ground arith)
