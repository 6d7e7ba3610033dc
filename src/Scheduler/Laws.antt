-- ===== src/Scheduler/Laws.antt =====
-- A reading that is used without a request is current; the reading that is preferred is not too low.
use predictor.Prelude.{
  ℕ, ◌*◌, ◌<◌, ◌+◌, ◌-◌, ◌≤◌, ◌≡◌, ◌⊎◌, refl, subst, Bool, true, false, not, ◌&&◌, ◌||◌, Option,
  none, some, arith, Bool-cases, inl, inr, if◌then◌else◌, str_eq,
}
use predictor.Prelude.Int.{ℤ, pos_part, neg_part, pos, ◌+ℤ◌, ◌-ℤ◌, ◌≤ℤ◌, ltb_ℤ, leb_ℤ, int_laws}
use predictor.Prelude.Time.{DateTime, as_utc, second}
use predictor.Client.State.{QuotaSnapshot}
use predictor.Scheduler.{
  buffer_of, aged, inside_buffer, Settings, State, reset_probe, is_api, is_same_utc_day,
  blocks_until_reset, spent_today, status_is_spent_today, probing_reset, status_confirms_buffer,
  needs_status_confirmation, quota_reading_stale, or_else, remember_status, trusted, cached_reading,
  observed_blocks, held, known_quota, other_day, older, prefer, prefer_observed,
}

-- how old a reading may get: a quarter of an hour inside the buffer, else the refresh of the settings
abbrev pub age_limit : Settings → QuotaSnapshot → ℕ
age_limit settings r =
    if leb_ℤ r.remaining (pos (buffer_of settings r))
    then 15 * 60 * second
    else settings.status_refresh

-- The reading says when it was fetched, and it has not reached its age limit.
abbrev pub IsYoung : Settings → ℕ → QuotaSnapshot → Type 0
IsYoung settings now r =
    (fetched : DateTime) × (r.fetched_at ≡ some fetched)
    × (now < as_utc fetched + age_limit settings r)

-- The reading is the last `/status` that was kept, and its calls left are inside the buffer.
abbrev pub IsConfirming : Settings → State → QuotaSnapshot → Type 0
IsConfirming settings s r =
    (s.status_quota ≡ some r)
    × (str_eq r.reading "status" ≡ true)
    × (leb_ℤ r.remaining (pos (buffer_of settings r)) ≡ true)

-- What the scheduler may use without asking: a reading of the API from today, young enough or the
-- status that confirms the buffer.
pub record IsCurrent (settings : Settings) (now : ℕ) (s : State) (r : QuotaSnapshot) : Type 0 where
  pub api : is_api r ≡ true
  pub today : is_same_utc_day r now ≡ true
  pub young : IsYoung settings now r ⊎ IsConfirming settings s r

aged-young :
    (fetched_at : Option DateTime) (now age : ℕ)
    → aged fetched_at now age ≡ false
    → (fetched : DateTime) × (fetched_at ≡ some fetched) × (now < as_utc fetched + age)
aged-young none now age e = cc
aged-young (some fetched) now age e = (fetched, refl, ground arith)

stale-IsYoung :
    (settings : Settings) (now : ℕ) (r : QuotaSnapshot)
    → quota_reading_stale settings now r ≡ false
    → IsYoung settings now r
unfolding quota_reading_stale inside_buffer
stale-IsYoung settings now r e = parts (leb_ℤ r.remaining (pos (buffer_of settings r))) e
  where
    parts :
        (inside : Bool)
        → (if not inside
            then aged r.fetched_at now settings.status_refresh
            else aged r.fetched_at now reset_probe)
          ≡ false
        → (fetched : DateTime) × (r.fetched_at ≡ some fetched)
          × (now < as_utc fetched + (if inside then 15 * 60 * second else settings.status_refresh))
    parts true e = aged-young r.fetched_at now reset_probe e
    parts false e = aged-young r.fetched_at now settings.status_refresh e

inside-le :
    (settings : Settings) (r : QuotaSnapshot)
    → inside_buffer settings r ≡ true
    → leb_ℤ r.remaining (pos (buffer_of settings r)) ≡ true
unfolding inside_buffer
inside-le settings r e = e

and_parts : (a b : Bool) → (a && b) ≡ true → (a ≡ true) × (b ≡ true)
and_parts true b e = (refl, e)
and_parts false b e = cc

not-true : (b : Bool) → not b ≡ true → b ≡ false
not-true false e = refl
not-true true e = cc

spent-IsCurrent :
    (settings : Settings) (now : ℕ) (s : State) (status : Option QuotaSnapshot)
    (cached : QuotaSnapshot)
    → s.status_quota ≡ status
    → spent_today settings now status ≡ true
    → IsCurrent settings now s (or_else status cached)
spent-IsCurrent settings now s none cached at e = cc
spent-IsCurrent settings now s (some status) cached at e =
    let (e, inside) =
      and_parts (str_eq status.reading "status" && is_api status && is_same_utc_day status now) _
        e in
    let (e, today) = and_parts (str_eq status.reading "status" && is_api status) _ e in
    let (reading, api) = and_parts (str_eq status.reading "status") _ e in
    record { api = api; today = today; young = inr (at, reading, inside-le settings status inside) }

not-false : (b : Bool) → not b ≡ false → b ≡ true
not-false true e = refl
not-false false e = cc

or_false : (a b : Bool) → (a || b) ≡ false → (a ≡ false) × (b ≡ false)
or_false false b e = (refl, e)
or_false true b e = cc

guarded_parts : (a b : Bool) → (if a then false else b) ≡ true → (a ≡ false) × (b ≡ true)
guarded_parts false b e = (refl, e)
guarded_parts true b e = cc

else_some :
    {A : Type 0} (test : Bool) (rest : Option A) {x : A}
    → (if test then none else rest) ≡ some x
    → rest ≡ some x
else_some true rest e = cc
else_some false rest e = e

confirms_parts :
    (settings : Settings) (now : ℕ) (s : State)
    → status_confirms_buffer settings now s ≡ true
    → (status_is_spent_today settings now s && not (probing_reset settings now s)) ≡ true
unfolding status_confirms_buffer
confirms_parts settings now s e = e

spent_status :
    (settings : Settings) (now : ℕ) (s : State)
    → status_is_spent_today settings now s ≡ true
    → spent_today settings now s.status_quota ≡ true
unfolding status_is_spent_today
spent_status settings now s e = e

-- the three readings that `trusted` can return
abbrev chosen :
    (test spent confirms : Bool) (cached status : QuotaSnapshot) (remembered s : State)
    → Option (QuotaSnapshot × State)
chosen test spent confirms cached status remembered s =
    if test
    then (if spent
        then some (cached, remembered)
        else if confirms
        then some (status, s)
        else some (cached, remembered))
    else none

trusted-cases :
    (test spent confirms : Bool) (cached status r : QuotaSnapshot) (remembered s s' : State)
    → chosen test spent confirms cached status remembered s ≡ some (r, s')
    → (test ≡ true) × ((cached ≡ r) ⊎ ((confirms ≡ true) × (status ≡ r)))
trusted-cases false spent confirms cached status r remembered s s' e = cc
trusted-cases true true confirms cached status r remembered s s' e = (refl, inl cc)
trusted-cases true false true cached status r remembered s s' e = (refl, inr (refl, cc))
trusted-cases true false false cached status r remembered s s' e = (refl, inl cc)

trusted-IsCurrent :
    (settings : Settings) (now : ℕ) (s s' : State) (cached r : QuotaSnapshot)
    → trusted settings now s cached ≡ some (r, s')
    → IsCurrent settings now s r
trusted-IsCurrent settings now s s' cached r e =
    let young = not (quota_reading_stale settings now cached) in
    let confirmed = not (needs_status_confirmation settings now s cached) in
    let (test, result) =
      trusted-cases (is_api cached && is_same_utc_day cached now && confirmed && young)
        (leb_ℤ cached.remaining (pos 0)) (status_confirms_buffer settings now s) cached
        (or_else s.status_quota cached) r (remember_status cached s) s s' e in
    let (test, fresh) =
      and_parts (is_api cached && is_same_utc_day cached now && confirmed) _ test in
    let (test, _) = and_parts (is_api cached && is_same_utc_day cached now) _ test in
    let (api, today) = and_parts (is_api cached) _ test in
    let kept : IsCurrent settings now s cached = record {
      api = api;
      today = today;
      young = inl (stale-IsYoung settings now cached (not-true _ fresh));
    } in
    elim result [
      | inl same ↦ subst (IsCurrent settings now s) same kept
      | inr (confirms, same) ↦
          let (spent, _) =
            and_parts (status_is_spent_today settings now s) _
              (confirms_parts settings now s confirms) in
          subst (IsCurrent settings now s) same (
            spent-IsCurrent settings now s s.status_quota cached refl
              (spent_status settings now s spent))
    ]

cached-IsCurrent :
    (settings : Settings) (now : ℕ) (s s' : State) (cached : Option QuotaSnapshot)
    (r : QuotaSnapshot)
    → cached_reading settings now s cached ≡ some (r, s')
    → IsCurrent settings now s r
cached-IsCurrent settings now s s' none r e = cc
cached-IsCurrent settings now s s' (some cached) r e =
    trusted-IsCurrent settings now s s' cached r e

blocking-IsCurrent :
    (settings : Settings) (now : ℕ) (s : State) (observed : QuotaSnapshot)
    → observed_blocks settings now observed ≡ true
    → IsCurrent settings now s observed
unfolding blocks_until_reset
blocking-IsCurrent settings now s observed e =
    let (blocks, fresh) = and_parts (blocks_until_reset observed now) _ e in
    let (open_api, today) = guarded_parts _ _ blocks in
    let (not_api, _) = or_false (not (is_api observed)) _ open_api in
    record {
      api = not-false _ not_api;
      today = today;
      young = inl (stale-IsYoung settings now observed (not-true _ fresh));
    }

if_some :
    (test : Bool) (observed r : QuotaSnapshot) (t s' : State)
    (rest : Option (QuotaSnapshot × State))
    → (if test then some (observed, t) else rest) ≡ some (r, s')
    → ((test ≡ true) × (observed ≡ r)) ⊎ (rest ≡ some (r, s'))
if_some true observed r t s' rest e = inl (refl, cc)
if_some false observed r t s' rest e = inr e

held-IsCurrent :
    (settings : Settings) (now : ℕ) (s s' : State) (observed : Option QuotaSnapshot)
    (r : QuotaSnapshot)
    → held settings now s observed ≡ some (r, s')
    → IsCurrent settings now s r
held-IsCurrent settings now s s' none r e = cached-IsCurrent settings now s s' s.quota r e
held-IsCurrent settings now s s' (some observed) r e =
    elim (if_some (observed_blocks settings now observed) observed r _ s' _ e) [
      | inl (blocks, same) ↦
          subst (IsCurrent settings now s) same (blocking-IsCurrent settings now s observed blocks)
      | inr rest ↦ cached-IsCurrent settings now s s' s.quota r rest
    ]

-- A reading that `_ensure_quota` returns without a request comes from the API and from today in UTC;
-- and it is younger than its limit, which is a quarter of an hour inside the buffer and the refresh of
-- the settings outside of it, or it is the kept `/status`, with its calls left inside the buffer.
pub known_quota-IsCurrent :
    (settings : Settings) (now : ℕ) (s s' : State) (r : QuotaSnapshot)
    → known_quota settings now s ≡ some (r, s')
    → IsCurrent settings now s r
unfolding known_quota
known_quota-IsCurrent settings now s s' r e =
    held-IsCurrent settings now s s' s.client_quota r (else_some _ _ e)

small_drop :
    (calls : ℕ) (before after : ℤ)
    → ltb_ℤ (pos calls) (before -ℤ after) ≡ false
    → before ≤ℤ after +ℤ pos calls
small_drop calls before after e =
    let below : pos_part (before -ℤ after) ≤ calls + neg_part (before -ℤ after) = ground arith in
    omega int_laws

prefer-bounds :
    (now calls : ℕ) (quota : QuotaSnapshot) (observed : Option QuotaSnapshot)
    → quota.remaining ≤ℤ (prefer now calls quota observed).remaining +ℤ pos calls
prefer-bounds now calls quota none = omega int_laws
prefer-bounds now calls quota (some observed) =
    let drop = ltb_ℤ (pos calls) (quota.remaining -ℤ observed.remaining) in
    elim (Bool-cases (
      not (is_api observed)
      || other_day observed.fetched_at observed now
      || older observed.fetched_at quota.fetched_at
      || drop)) [
        | inl e ↦ rw e (omega int_laws)
        | inr e ↦
            let (_, small) =
              or_false
                (not (is_api observed)
                  || other_day observed.fetched_at observed now
                  || older observed.fetched_at quota.fetched_at)
                drop e in
            rw e (small_drop calls quota.remaining observed.remaining small)
      ]

-- The reading that `_prefer_observed` picks never has fewer calls left than the reading before it, less
-- the calls made in this tick.
pub prefer_observed-bounds :
    (now : ℕ) (s : State) (quota : QuotaSnapshot)
    → quota.remaining
      ≤ℤ (prefer_observed now s quota).remaining +ℤ pos (s.client_calls - s.calls_baseline)
unfolding prefer_observed
prefer_observed-bounds now s quota =
    prefer-bounds now (s.client_calls - s.calls_baseline) quota s.client_quota
