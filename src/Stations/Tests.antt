-- ===== src/Stations/Tests.antt =====
-- A line with stations that are left out, for the functions of
-- 1.0.x/ProdExplUnits/sourcecode/bcu_function.cxx.
use mitcbcu.Common.{ℕ, ◌≤◌, ◌<◌, ◌≡◌, ◌≢◌, refl, List, some, arith, inl, set, sym, ℕ_discrete}
use mathlib.Core.Path.{subst}
use mitcbcu.Stations.{
  found, unfinished, scan, get_next_station_no, adjust_station_no, Region, Line, LineCommand,
  update_tcms_line_info, init_station_information,
}
use mitcbcu.Stations.Scan.{IsSkipped, IsServed}
use mitcbcu.Stations.Next.{IsNextUp, next_station_up, next_station_never}
use mitcbcu.Stations.Adjust.{IsPrevious, adjust_station_no_lem}
use mitcbcu.Stations.Update.{HasRegion, update_lem}

-- Stations 4 and 5 are left out.
abbrev row : List ℕ
row = set (set init_station_information 4 0) 5 0

served6 : IsServed row 6
served6 = (1, refl, omega arith)

next_up_run : get_next_station_no 32 row 3 3 1 9 ≡ found 6
unfolding get_next_station_no scan
next_up_run = refl

next_station_up_example :
    (n : ℕ) × (get_next_station_no 32 row 3 3 1 6 ≡ found n) × IsNextUp row 3 6 n
next_station_up_example =
    next_station_up row 3 6 32 refl (omega arith) (omega arith) (omega arith) served6

left_out : (i : ℕ) → 3 < i → i ≤ 5 → IsSkipped row i
left_out i l h = elim (ℕ_discrete i 4) [
  | yes e ↦ subst (IsSkipped row) (sym e) refl
  | no n ↦ subst (IsSkipped row) (sym (the_other i l h n)) refl
]
  where
    the_other : (i : ℕ) → 3 < i → i ≤ 5 → i ≢ 4 → i ≡ 5
    the_other i l h n = omega arith

next_station_never_example : get_next_station_no 500 row 3 3 1 5 ≡ unfinished
next_station_never_example = next_station_never row 3 5 500 (omega arith) (omega arith) left_out

abbrev region : ℕ → Region
region up_or_down = record {
  region_no = 1;
  os_begin_station_no = 1;
  os_terminal_station_no = 9;
  os_current_station_no = 6;
  os_next_station_no = 7;
  os_cycle_line = 0;
  stop_or_leave = 0;
  os_running_up_or_down = up_or_down;
}

adjust_station_no_lem_example :
    (n : ℕ) × (adjust_station_no 31 row (region 1)
      ≡ some (record (region 1) { os_current_station_no = n; os_next_station_no = 6 }))
    × IsPrevious row 1 6 n
adjust_station_no_lem_example =
    adjust_station_no_lem row (region 1) 6 31 refl (omega arith) (inl refl) (omega arith)
      (omega arith) served6 refl refl

abbrev line : Line
line = record { region = region 2; current_region_no = 1; current_region_info_no = 1 }

abbrev command : LineCommand
command = record {
  event_type_ann = 11;
  event_type_intercom = 255;
  region_no = 0;
  region_update_type = 1;
  start_station_no = 1;
  terminal_station_no = 6;
  up_or_down = 1;
  whether_the_cycle = 0;
  get_or_set = 0;
  current_station_no = 3;
}

update_lem_example :
    (n : ℕ) × (l' : Line) × (update_tcms_line_info 32 row line command ≡ some (l', 3))
    × HasRegion command n l'.region
    × IsNextUp row 3 6 n
    × (update_tcms_line_info 32 row l' (record command { current_station_no = 5 }) ≡ some (l', 0))
update_lem_example =
    update_lem row line command 32 5 refl (omega arith)
      (record { ann = refl; intercom = refl; set = refl; by_stations = (refl, refl) }) refl refl
      (omega arith) (omega arith) served6
