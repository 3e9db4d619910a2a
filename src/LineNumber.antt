-- ===== src/LineNumber.antt =====
-- A new line number or a station to leave out, from the touch screen: BcuUpdateLineNumber,
-- UpdateSkipStationInformation and ChangeLineNumber of 1.0.x/ProdExplUnits/sourcecode/bcu_function.cxx.
-- What the calls of BlockBufferWrite return, one after the other, is an argument, since other threads
-- read the buffer between them; what is shown on the screen is left out.
pub mod Sending
mod Tests
use mitcbcu.Common.{
  ℕ, zero, suc, ◌+◌, Bool, true, false, ◌&&◌, ◌==◌, ltb, if◌then◌else◌, List, [], ◌∷◌, set, ℤ, pos,
  negsuc, sub_u32, update,
}
use mitcbcu.StateMachine.{ann_idle, line_number_change_event, intercom_idle}
use mitcbcu.Stations.{max_station_number, clear_skip_station_info}

-- SKIP_STATION.
abbrev pub skip_station : ℕ
skip_station = 50

-- How a function ends: with a value, behind the end of `station_information`, or not in its rounds.
pub data Outcome {ℓ} (A : Type ℓ) : Type ℓ where
  returned : A → Outcome A
  out_of_bounds : Outcome A
  unfinished : Outcome A

infixl 5 ◌>>=◌
abbrev pub ◌>>=◌ {ℓ κ} : {A : Type ℓ} {B : Type κ} → Outcome A → (A → Outcome B) → Outcome B
returned a >>= f = f a
out_of_bounds >>= f = out_of_bounds
unfinished >>= f = unfinished

-- `bcu_state.this_line_no`, and the field `effective` of the rows of `station_information`.
pub record Line : Type 0 where
  pub this_line_no : ℕ
  pub rows : ℕ → List ℕ

-- The fields of `send_infomation_t` that are used.
pub record Command : Type 0 where
  pub event_type_ann : ℕ
  pub event_type_intercom : ℕ
  pub line_no : ℕ
  pub line_number : ℕ
  pub station_no : ℕ
  pub effective : ℕ

abbrev pub is_positive : ℤ → Bool
is_positive (pos n) = ltb 0 n
is_positive (negsuc n) = false

-- The loops `do {...} while(ret <= 0 && write_counts < 2)` that count, with the rounds left and the
-- number of the next call; they give the number of the call behind them, and whether one succeeded.
abbrev pub write_counted : ℕ → (ℕ → ℤ) → ℕ → ℕ × Bool
write_counted zero w n = (n, false)
write_counted (suc rounds) w n =
    let rest = write_counted rounds w (n + 1) in if is_positive (w n) then (n + 1, true) else rest

-- The loop for the amplifiers, which does not count, on fuel: as above, the number of the call behind
-- it, and whether its last call succeeded.
abbrev pub write_uncounted : ℕ → (ℕ → ℤ) → ℕ → Outcome (ℕ × Bool)
write_uncounted zero w n = unfinished
write_uncounted (suc fuel) w n =
    let ok = is_positive (w n) in
    let rest = write_uncounted fuel w (n + 1) in if ok then returned (n + 1, ok) else rest

-- Which of the three kinds of device a package was stored for, and the calls of BlockBufferWrite.
pub record Sent : Type 0 where
  pub to_ccu : Bool
  pub to_eamp : Bool
  pub to_bcu : Bool
  pub calls : ℕ

-- BcuUpdateLineNumber of a command that is not NULL.
unfoldable pub update_line_number : ℕ → (ℕ → ℤ) → Line → Command → Outcome (Line × Sent)
update_line_number fuel w s cmd =
    if cmd.line_no == 0
    then returned (s, record { to_ccu = false; to_eamp = false; to_bcu = false; calls = 0 })
    else let ccu = write_counted 2 w 0 in
      write_uncounted fuel w ccu.0 >>= λ eamp.
      let bcu = write_counted 2 w eamp.0 in
      returned (
        record s { this_line_no = cmd.line_no },
        record { to_ccu = ccu.1; to_eamp = eamp.1; to_bcu = bcu.1; calls = bcu.0 },
      )

-- ChangeLineNumber, with ClearSkipStationInfo on the row of the line.
unfoldable pub change_line_number : ℕ → (ℕ → ℤ) → Line → Command → Outcome Line
change_line_number fuel w s cmd =
    let l = sub_u32 cmd.line_no 3 in
    if cmd.event_type_ann == line_number_change_event && cmd.event_type_intercom == intercom_idle
    then (update_line_number fuel w s cmd >>= λ r.
        if ltb l 2
        then returned
            (record (r.0) { rows = update (r.0).rows l (clear_skip_station_info ((r.0).rows l)) })
        else out_of_bounds)
    else returned s

-- UpdateSkipStationInformation: the command it leaves, and what was stored for CCU and EAMP.
unfoldable pub update_skip_station : (ℕ → ℤ) → Line → Command → Outcome (Line × Command × Sent)
update_skip_station w s cmd =
    let l = sub_u32 cmd.line_number 3 in
    let eamp = write_counted 2 w 0 in
    let ccu = write_counted 2 w eamp.0 in
    if cmd.event_type_ann == skip_station && cmd.event_type_intercom == intercom_idle
    then if ltb l 2 && ltb cmd.station_no max_station_number
      then returned (
        record {
          this_line_no = cmd.line_number;
          rows = update s.rows l (set (s.rows l) cmd.station_no cmd.effective);
        },
        record cmd { event_type_ann = ann_idle; event_type_intercom = intercom_idle; line_no = 0 },
        record { to_ccu = ccu.1; to_eamp = eamp.1; to_bcu = false; calls = ccu.0 },
      )
      else out_of_bounds
    else returned (s, cmd, record { to_ccu = false; to_eamp = false; to_bcu = false; calls = 0 })
