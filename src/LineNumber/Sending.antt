-- ===== src/LineNumber/Sending.antt =====
-- When BcuUpdateLineNumber of 1.0.x/ProdExplUnits/sourcecode/bcu_function.cxx ends.
use mitcbcu.Common.{
  ℕ, zero, suc, ◌+◌, ◌<◌, ◌≡◌, ◌≢◌, refl, ap, ◌∙◌, arith, Bool, true, false, ==-of_ne, ℤ,
  Bool-cases, inl, inr,
}
use mitcbcu.LineNumber.{
  Line, Command, Sent, Outcome, returned, unfinished, is_positive, write_counted, write_uncounted,
  update_line_number, ◌>>=◌,
}

-- What is left to do behind the loop for the amplifiers.
abbrev sent_behind : (ℕ → ℤ) → ℕ × Bool → Sent
sent_behind w eamp =
    let bcu = write_counted 2 w eamp.0 in
    record { to_ccu = (write_counted 2 w 0).1; to_eamp = eamp.1; to_bcu = bcu.1; calls = bcu.0 }

abbrev finish : (ℕ → ℤ) → Line → Command → ℕ × Bool → Outcome (Line × Sent)
finish w s cmd eamp = returned (record s { this_line_no = cmd.line_no }, sent_behind w eamp)

uncounted_never :
    (fuel n : ℕ) (w : ℕ → ℤ)
    → ((k : ℕ) → is_positive (w k) ≡ false)
    → write_uncounted fuel w n ≡ unfinished
uncounted_never zero n w h = refl
uncounted_never (suc fuel) n w h = rw (h n) (uncounted_never fuel (n + 1) w h)

-- The first call from `n` on that succeeds.
pub record IsFirst (w : ℕ → ℤ) (n j : ℕ) : Type 0 where
  taken : is_positive (w (n + j)) ≡ true
  refused : (i : ℕ) → i < j → is_positive (w (n + i)) ≡ false

at_once : (w : ℕ → ℤ) (n : ℕ) → is_positive (w n) ≡ true → IsFirst w n 0
at_once w n h =
    let e : n + 0 ≡ n = omega arith in
    record { taken = ap (λ i. is_positive (w i)) e ∙ h; refused = λ i below. absurd (omega arith) }

refused_before :
    (w : ℕ → ℤ) (n j : ℕ)
    → is_positive (w n) ≡ false
    → ((i : ℕ) → i < j → is_positive (w (n + 1 + i)) ≡ false)
    → (i : ℕ) → i < suc j
    → is_positive (w (n + i)) ≡ false
refused_before w n j r f zero l =
    let e : n + 0 ≡ n = omega arith in ap (λ i. is_positive (w i)) e ∙ r
refused_before w n j r f (suc i) l =
    let e : n + suc i ≡ n + 1 + i = omega arith in ap (λ i. is_positive (w i)) e ∙ f i (omega arith)

later :
    (w : ℕ → ℤ) (n j : ℕ) → is_positive (w n) ≡ false → IsFirst w (n + 1) j → IsFirst w n (suc j)
later w n j r f =
    let e : n + suc j ≡ n + 1 + j = omega arith in
    record {
      taken = ap (λ i. is_positive (w i)) e ∙ f.taken;
      refused = refused_before w n j r f.refused;
    }

uncounted_ends :
    (fuel k n : ℕ) (w : ℕ → ℤ)
    → k < fuel
    → is_positive (w (n + k)) ≡ true
    → (j : ℕ) × IsFirst w n j × (write_uncounted fuel w n ≡ returned (n + j + 1, true))
uncounted_ends zero k n w l h = absurd (omega arith)
uncounted_ends (suc fuel) zero n w l h =
    let e : n ≡ n + 0 = omega arith in
    let now = ap (λ i. is_positive (w i)) e ∙ h in
    let e' : n + 1 ≡ n + 0 + 1 = omega arith in
    (0, at_once w n now, rw now (ap (λ m. returned (m, true)) e'))
uncounted_ends (suc fuel) (suc k) n w l h = elim (Bool-cases (is_positive (w n))) [
  | inl e ↦
      let e' : n + 1 ≡ n + 0 + 1 = omega arith in
      (0, at_once w n e, rw e (ap (λ m. returned (m, true)) e'))
  | inr e ↦
      let same : n + 1 + k ≡ n + suc k = omega arith in
      let h' = ap (λ i. is_positive (w i)) same ∙ h in
      let (j, f, r) = uncounted_ends fuel k (n + 1) w (omega arith) h' in
      let e' : n + 1 + j + 1 ≡ n + suc j + 1 = omega arith in
      (suc j, later w n j e f, rw e (r ∙ ap (λ m. returned (m, true)) e'))
]

-- BcuUpdateLineNumber of a line number other than 0 ends if one of the calls of BlockBufferWrite behind
-- the at most two for the CCU succeeds: the line number is then the new one, the package for the
-- amplifiers was stored by the first of these calls that succeeded, and the calls for the other BCU
-- are those directly behind it.
pub update_line_number_returns :
    (fuel k : ℕ) (w : ℕ → ℤ) (s : Line) (cmd : Command)
    → cmd.line_no ≢ 0
    → k < fuel
    → is_positive (w ((write_counted 2 w 0).0 + k)) ≡ true
    → let ccu = write_counted 2 w 0 in
      (j : ℕ) × IsFirst w ccu.0 j
      × let bcu = write_counted 2 w (ccu.0 + j + 1) in
        (update_line_number fuel w s cmd
          ≡ returned (
            record s { this_line_no = cmd.line_no },
            record { to_ccu = ccu.1; to_eamp = true; to_bcu = bcu.1; calls = bcu.0 },
          ))
unfolding update_line_number
update_line_number_returns fuel k w s cmd ne l h =
    let (j, f, e) = uncounted_ends fuel k (write_counted 2 w 0).0 w l h in
    (j, f, rw (==-of_ne cmd.line_no 0 ne) (ap (λ o. o >>= finish w s cmd) e))

-- While the buffer takes no block, BcuUpdateLineNumber of a line number other than 0 does not end in
-- any number of rounds: the loop that sends to the amplifiers does not count its rounds.
pub update_line_number_never :
    (fuel : ℕ) (w : ℕ → ℤ) (s : Line) (cmd : Command)
    → cmd.line_no ≢ 0
    → ((k : ℕ) → is_positive (w k) ≡ false)
    → update_line_number fuel w s cmd ≡ unfinished
unfolding update_line_number
update_line_number_never fuel w s cmd ne h =
    rw (==-of_ne cmd.line_no 0 ne)
      (ap (λ o. o >>= finish w s cmd) (uncounted_never fuel (write_counted 2 w 0).0 w h))
