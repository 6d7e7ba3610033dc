-- ===== src/Client/MarkLaws.antt =====
-- The marks that `_recent` leaves, beside the times of all calls sent.
use mathlib.Core.List.{append_assoc}
use predictor.Prelude.{
  ℕ, ◌+◌, ◌≤◌, ◌<◌, ◌≡◌, refl, sym, subst, ap, ◌∙◌, List, [], ◌∷◌, ◌++◌, arith, length, keep, All,
  All-imp, leb, ltb, inl, inr, Bool-cases,
}
use predictor.Client.Window.{minute, recent}

-- how many of the times are no older than a minute
abbrev pub in_minute : ℕ → List ℕ → ℕ
in_minute now log = length (keep (λ t. leb now (t + minute)) log)

-- The marks are the times that are not dropped, and those dropped are old at the time t.
pub record Tracks (t : ℕ) (marks log : List ℕ) : Type 0 where
  pub old : List ℕ
  pub split : log ≡ old ++ marks
  pub past : All (λ m. m + minute < t) old

All-snoc : (P : ℕ → Type 0) (xs : List ℕ) (x : ℕ) → All P xs → P x → All P (xs ++ x ∷ [])
All-snoc P [] x h p = (p, tt)
All-snoc P (y ∷ xs) x (q, h) p = (q, All-snoc P xs x h p)

recent-drops :
    (now : ℕ) (marks old log : List ℕ)
    → All (λ m. m + minute < now) old
    → log ≡ old ++ marks
    → Tracks now (recent now minute marks) log
unfolding recent
recent-drops now [] old log past split = record { old = old; split = split; past = past }
recent-drops now (mark ∷ marks) old log past split = elim (Bool-cases (ltb (mark + minute) now)) [
  | inl e ↦ rw e (
      recent-drops now marks (old ++ mark ∷ []) log (All-snoc _ old mark past (ground arith))
        (split ∙ sym (append_assoc old (mark ∷ []) marks)))
  | inr e ↦ rw e (record { old = old; split = split; past = past })
]

pub later : (t now : ℕ) (marks log : List ℕ) → t ≤ now → Tracks t marks log → Tracks now marks log
later t now marks log le h = record {
  old = h.old;
  split = h.split;
  past = All-imp h.old (λ m p. omega arith) h.past;
}

pub recent-Tracks :
    (t now : ℕ) (marks log : List ℕ)
    → t ≤ now
    → Tracks t marks log
    → Tracks now (recent now minute marks) log
recent-Tracks t now marks log le h =
    let h = later t now marks log le h in recent-drops now marks h.old log h.past h.split

pub snoc-Tracks :
    (t x : ℕ) (marks log : List ℕ) → Tracks t marks log → Tracks t (marks ++ x ∷ []) (log ++ x ∷ [])
snoc-Tracks t x marks log h = record {
  old = h.old;
  split = ap (λ l. l ++ x ∷ []) h.split ∙ append_assoc h.old marks (x ∷ []);
  past = h.past;
}

in_minute-old :
    (now : ℕ) (old marks : List ℕ)
    → All (λ m. m + minute < now) old
    → in_minute now (old ++ marks) ≡ in_minute now marks
in_minute-old now [] marks past = refl
in_minute-old now (m ∷ old) marks (p, past) = ground (arith, in_minute-old now old marks past)

in_minute-le : (now : ℕ) (marks : List ℕ) → in_minute now marks ≤ length marks
in_minute-le now [] = omega arith
in_minute-le now (m ∷ marks) = ground (arith, in_minute-le now marks)

-- No more calls of the minute than marks.
pub Tracks-in_minute :
    (now : ℕ) (marks log : List ℕ) → Tracks now marks log → in_minute now log ≤ length marks
Tracks-in_minute now marks log h =
    subst (λ l. in_minute now l ≤ length marks) (sym h.split)
      (omega (arith, in_minute-old now h.old marks h.past, in_minute-le now marks))
