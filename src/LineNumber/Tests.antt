-- ===== src/LineNumber/Tests.antt =====
-- A change of the line for 1.0.x/ProdExplUnits/sourcecode/bcu_function.cxx.
use mitcbcu.Common.{
  ℕ, ◌+◌, ◌≡◌, refl, arith, true, false, ltb, if◌then◌else◌, [], ◌∷◌, ℤ, pos, negsuc,
}
use mitcbcu.LineNumber.{Line, Command, returned, unfinished, write_counted, update_line_number}
use mitcbcu.LineNumber.Sending.{IsFirst, update_line_number_never, update_line_number_returns}

abbrev line : Line
line = record { this_line_no = 3; rows = λ _. 1 ∷ 0 ∷ 2 ∷ [] }

abbrev to_line4 : Command
to_line4 = record {
  event_type_ann = 11;
  event_type_intercom = 255;
  line_no = 4;
  line_number = 0;
  station_no = 0;
  effective = 0;
}

-- A buffer that takes blocks from the fifth call on.
abbrev busy : ℕ → ℤ
busy n = if ltb n 4 then negsuc 0 else pos 8

update_line_number_never_example : update_line_number 9 (λ _. negsuc 0) line to_line4 ≡ unfinished
update_line_number_never_example =
    update_line_number_never 9 (λ _. negsuc 0) line to_line4 (omega arith) (λ k. refl)

update_line_number_returns_example :
    (j : ℕ) × IsFirst busy 2 j
    × let bcu = write_counted 2 busy (2 + j + 1) in
      (update_line_number 9 busy line to_line4
        ≡ returned (
          record line { this_line_no = 4 },
          record { to_ccu = false; to_eamp = true; to_bcu = bcu.1; calls = bcu.0 },
        ))
update_line_number_returns_example =
    update_line_number_returns 9 2 busy line to_line4 (omega arith) (omega arith) refl

-- The two calls for the CCU failed.
busy_sent :
    update_line_number 9 busy line to_line4
    ≡ returned (
      record line { this_line_no = 4 },
      record { to_ccu = false; to_eamp = true; to_bcu = true; calls = 6 },
    )
unfolding update_line_number
busy_sent = refl
