-- ===== src/Tables/Tests.antt =====
-- Rows on the tables of 1.0.x/ProdExplUnits/sourcecode/bcu_update_table_from_ccu.cxx.
use mitcbcu.Common.{ℕ, ◌≡◌, refl, arith, inr, [], ◌∷◌, none, some, replicate, Returns, ◌>>=◌}
use mitcbcu.Tables.{
  Tables, Station, RegionStation, StationRow, SectionRow, update_line_station, update_line_region,
}
use mitcbcu.Tables.StationTable.{run_stations, stations_lem}
use mitcbcu.Tables.StationTable
use mitcbcu.Tables.RegionTable.{run_regions, regions_lem}
use mitcbcu.Tables.RegionTable

abbrev old_station : Station
old_station = record {
  effective = 1;
  station_chinese_name = [];
  door_side_up = 3;
  door_side_down = 4;
}

abbrev old_region : RegionStation
old_region = record {
  line_no = 0;
  region_no = 0;
  running_direction = 0;
  whether_the_cycle_bus = 0;
  start_station_no = 0;
  over_station_no = 0;
}

abbrev empty : Tables
empty = record {
  stations = λ _ _. old_station;
  regions = λ _ _. old_region;
  total_stations_number = λ _. 0;
  total_regions_number = λ _. 0;
  default_region_no = λ _. 0;
  whether_begin_line3 = 0;
  whether_begin_line4 = 0;
  this_line_no = 3;
  part_info_from_ccu = 0;
  d2d_volume = 0;
  intercomm_volume = 0;
  car_volume = 0;
  monitor_volume = 0;
}

-- Station 5 of line 4, which trains pass, and which a second row serves again.
abbrev station_row : ℕ → ℕ → StationRow
station_row index across = record {
  line_no = 4;
  total_row = 2;
  current_index = index;
  station_no = 5;
  fix_across_station = across;
  station_name = 65 ∷ [];
}

stations_lem_example :
    Returns
      (λ t'.
        (l s : ℕ)
        → t'.stations l s
          ≡ StationTable.given
              (StationTable.last_row l s (station_row 1 1 ∷ station_row 2 0 ∷ []))
              old_station)
      (run_stations empty (station_row 1 1 ∷ station_row 2 0 ∷ []))
stations_lem_example = stations_lem empty (station_row 1 1 ∷ station_row 2 0 ∷ []) (
  record { line = inr refl; station = omega arith; name = omega arith },
  (record { line = inr refl; station = omega arith; name = omega arith }, tt),
)

-- A name of 32 bytes is written behind its array.
long_name :
    update_line_station empty (record (station_row 1 0) { station_name = replicate 32 65 }) ≡ none
unfolding update_line_station
long_name = refl

passed_station :
    (run_stations empty (station_row 1 1 ∷ []) >>= λ t. some (t.stations 1 5).effective) ≡ some 0
unfolding update_line_station
passed_station = refl

abbrev section_row : ℕ → SectionRow
section_row index = record {
  line_no = 3;
  total_row = 8;
  current_index = index;
  row_line_no = 3;
  line_direction = 1;
  spec_cycle = 0;
  default_section = 1;
  section_no = index;
  start_station = 1;
  end_station = 9;
}

regions_lem_example :
    Returns
      (λ t'.
        ((l i : ℕ)
          → t'.regions l i
            ≡ RegionTable.given
                (RegionTable.last_row l i (section_row 2 ∷ section_row 8 ∷ []))
                old_region)
        × ((l : ℕ) → t'.regions l 7 ≡ old_region))
      (run_regions empty (section_row 2 ∷ section_row 8 ∷ []))
regions_lem_example =
    regions_lem empty (section_row 2 ∷ section_row 8 ∷ [])
      ((omega arith, omega arith), ((omega arith, omega arith), tt))

stored_region :
    (run_regions empty (section_row 2 ∷ []) >>= λ t. some (t.regions 0 1).running_direction)
    ≡ some 1
unfolding update_line_region
stored_region = refl
