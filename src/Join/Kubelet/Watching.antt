-- ===== src/Join/Kubelet/Watching.antt =====
-- The watch for the registration ends, and what a join leaves running.
use asterkube.Prelude.{
  ℕ, zero, suc, ◌+◌, ◌*◌, ◌≤◌, ◌<◌, ltb, Bool, true, false, not, [], ◌∷◌, Option, some, String, ◌≡◌,
  refl, ap, if_cases, arith, ◌⊎◌, inl, inr,
}
use asterkube.Prelude.Prog.{run}
use asterkube.Join.{
  JoinCall, JoinAnswer, JoinProg, JoinHistory, JoinSystem, sleeps, tells_time, reads_file, number,
  read_file_string, string_of,
}
use asterkube.Join.Kubelet.{
  Cmd, has_exited, watch_registration, watch_fuel, time_of, says_registered,
}

-- The milliseconds of the pauses.
abbrev pub slept : JoinHistory → ℕ
slept [] = 0
slept ((sleeps ms, r) ∷ h) = ms + slept h
slept (x ∷ h) = slept h

-- A clock that goes on by the pauses and by the time that everything else takes.
pub record Clock (sys : JoinSystem) : Type 0 where
  pub lag : JoinHistory → ℕ
  pub tells : (h : JoinHistory) → sys h tells_time ≡ number (slept h + lag h)
  pub goes_on : (c : JoinCall) (r : JoinAnswer) (h : JoinHistory) → lag h ≤ lag ((c, r) ∷ h)

abbrev time_at : {sys : JoinSystem} → Clock sys → JoinHistory → ℕ
time_at clock h = slept h + clock.lag h

-- What the last call of a watch shows of its answer: the log tells of the registration, or the time is over or the
-- kubelet has exited.
abbrev pub Shows : ℕ → Cmd → String → Bool → JoinHistory → Type 0
Shows deadline k log_path true ((reads_file p, r) ∷ h) =
    (p ≡ log_path) × (says_registered (string_of r) ≡ true)
Shows deadline k log_path false ((tells_time, r) ∷ h) =
    (deadline ≤ time_of r) ⊎ (has_exited k ≡ true)
Shows deadline k log_path _ _ = ⊥

module _ (sys : JoinSystem) (clock : Clock sys) (deadline : ℕ) (k : Cmd) (log_path : String) where
  -- It ends with an answer, when the pauses have taken so long at most.
  abbrev Ends : ℕ → JoinHistory → JoinProg (Option Bool) → Type 0
  Ends limit h p =
      (b : Bool) × ((run sys p h).0 ≡ some b)
      × (slept (run sys p h).1 ≤ limit)
      × Shows deadline k log_path b (run sys p h).1

  abbrev looked_at : JoinHistory → JoinHistory
  looked_at h = (tells_time, sys h tells_time) ∷ h

  abbrev read_at : JoinHistory → JoinHistory
  read_at h = (reads_file log_path, sys (looked_at h) (reads_file log_path)) ∷ looked_at h

  abbrev slept_at : JoinHistory → JoinHistory
  slept_at h = (sleeps 3000, sys (read_at h) (sleeps 3000)) ∷ read_at h

  in_time :
      (h : JoinHistory)
      → not (ltb (time_of (sys h tells_time)) deadline) ≡ false
      → time_at clock h < deadline
  in_time h e =
      let now : time_of (sys h tells_time) ≡ time_at clock h = ap time_of (clock.tells h) in
      ground (arith, e, now)

  -- A round ends, if what follows on it does.
  one_round :
      (fuel limit : ℕ) (h : JoinHistory)
      → slept h ≤ limit
      → (time_at clock h < deadline
          → Ends limit (slept_at h) (watch_registration fuel deadline k log_path))
      → Ends limit h (watch_registration (suc fuel) deadline k log_path)
  unfolding watch_registration read_file_string
  one_round fuel limit h l later =
      if_cases (Ends limit (looked_at h)) (not (ltb (time_of (sys h tells_time)) deadline))
        (λ e. (false, refl, l, inl (ground (arith, e))))
        (λ e.
          if_cases (Ends limit (looked_at h)) (has_exited k) (λ q. (false, refl, l, inr q))
            (λ q.
              if_cases (Ends limit (read_at h))
                (says_registered (string_of (sys (looked_at h) (reads_file log_path))))
                (λ s. (true, refl, l, (refl, s))) (λ s. later (in_time h e))))

  slept_at_later : (h : JoinHistory) → time_at clock h + 3000 ≤ time_at clock (slept_at h)
  slept_at_later h = omega (
    arith,
    clock.goes_on tells_time (sys h tells_time) h,
    clock.goes_on (reads_file log_path) (sys (looked_at h) (reads_file log_path)) (looked_at h),
    clock.goes_on (sleeps 3000) (sys (read_at h) (sleeps 3000)) (read_at h),
  )

  watch_registration_bounded :
      (fuel limit : ℕ) (h : JoinHistory)
      → deadline ≤ time_at clock h + 3000 * fuel
      → slept h + 3000 * fuel ≤ limit
      → Ends limit h (watch_registration (suc fuel) deadline k log_path)
  watch_registration_bounded zero limit h d l =
      one_round zero limit h (omega (arith, l)) (λ e. absurd (omega (arith, e, d)))
  watch_registration_bounded (suc fuel) limit h d l =
      one_round (suc fuel) limit h (omega (arith, l)) (λ e.
        watch_registration_bounded fuel limit (slept_at h) (omega (arith, d, slept_at_later h))
          (omega (arith, l)))

-- On a clock that goes on at least by the pauses, the watch for the registration of a kubelet comes to an answer with
-- the fuel that it is given, and its pauses take 75 seconds in all at most. It answers true behind a look at the log
-- that tells of the registration, and false behind one at the clock, when the 75 seconds are over or the kubelet is
-- known to have exited.
pub watch_registration-Ends :
    (sys : JoinSystem) (clock : Clock sys) (k : Cmd) (log_path : String) (h : JoinHistory)
    → let now = sys h tells_time in
      let after =
        run sys
          (watch_registration watch_fuel (time_of now + 75000) k log_path)
          ((tells_time, now) ∷ h) in
      (b : Bool) × (after.0 ≡ some b)
      × (slept after.1 ≤ slept h + 75000)
      × Shows (time_of now + 75000) k log_path b after.1
watch_registration-Ends sys clock k log_path h =
    let now = ap time_of (clock.tells h) in
    watch_registration_bounded sys clock _ k log_path 25 (slept h + 75000)
      ((tells_time, sys h tells_time) ∷ h)
      (omega (arith, now, clock.goes_on tells_time (sys h tells_time) h)) (omega arith)
