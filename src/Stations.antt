-- ===== src/Stations.antt =====
-- The stations of the line: GetNextStationNo, AdjustStationNo, BCUUpdateTCMSLineInfo,
-- InitStationInformation and ClearSkipStationInfo of 1.0.x/ProdExplUnits/sourcecode/bcu_function.cxx. Of
-- the array `station_information`, which `pp_skip_station_info` points to, the field `effective` is
-- modelled: 0 for a station that is left out. The numbers of stations are `unsigned char`. What is
-- shown on the screen is left out.
pub mod Scan
pub mod Next
pub mod Adjust
pub mod Update
mod Tests
use mitcbcu.Common.{
  ℕ, zero, suc, ◌+◌, ◌-◌, Bool, true, false, not, ◌&&◌, ◌||◌, if◌then◌else◌, ◌==◌, ltb, leb, List,
  [], ◌∷◌, Option, none, some, get_elem?, set, replicate, u8, ℤ, pos, negsuc,
}
use mitcbcu.StateMachine.{line_number_change_event, intercom_idle}

-- MAX_STATION_NUMBER.
abbrev pub max_station_number : ℕ
max_station_number = 32

-- How a search ends: at a station, behind the end of the array, or not in the rounds that it got.
pub data Search : Type 0 where
  found : ℕ → Search
  out_of_bounds : Search
  unfinished : Search

-- The loops `while(effective == 0)`, each with its way to the next station.
pub scan : ℕ → (ℕ → ℕ) → List ℕ → ℕ → Search
scan zero step row r = unfinished
scan (suc fuel) step row r = elim (get_elem? row r) [
  | none ↦ out_of_bounds
  | some effective ↦ elim (effective == 0) [ true ↦ scan fuel step row (step r) | false ↦ found r ]
]

-- On line 3 upwards, not behind the terminal station.
abbrev pub step_up : ℕ → ℕ → ℕ
step_up ter r = if leb ter (u8 (r + 1)) then ter else u8 (r + 1)

-- On line 3 downwards.
abbrev pub step_down : ℕ → ℕ → ℕ
step_down ter r = if leb (u8 (r + 255)) ter then ter else u8 (r + 255)

-- On line 4, which is a circle.
abbrev pub step_round : ℕ → ℕ → ℕ
step_round up_or_down r =
    if up_or_down == 1
    then if ltb max_station_number (u8 (r + 1)) then 1 else u8 (r + 1)
    else if ltb (u8 (r + 255)) 1
    then max_station_number
    else u8 (r + 255)

-- GetNextStationNo on the row `effective` of line 4, which it reads for both lines.
pub get_next_station_no : ℕ → List ℕ → ℕ → ℕ → ℕ → ℕ → Search
get_next_station_no fuel row line_no cur_station_no up_or_down ter_station_no =
    if line_no == 3
    then if up_or_down == 1
      then scan fuel (step_up ter_station_no) row (step_up ter_station_no cur_station_no)
      else scan fuel (step_down ter_station_no) row (step_down ter_station_no cur_station_no)
    else if line_no == 4
    then scan fuel (step_round up_or_down) row (step_round up_or_down cur_station_no)
    else found cur_station_no

-- `region_station_info_t`, as far as it is used here.
pub record Region : Type 0 where
  pub region_no : ℕ
  pub os_begin_station_no : ℕ
  pub os_terminal_station_no : ℕ
  pub os_current_station_no : ℕ
  pub os_next_station_no : ℕ
  pub os_cycle_line : ℕ
  pub stop_or_leave : ℕ
  pub os_running_up_or_down : ℕ

-- The body of the loop of AdjustStationNo.
abbrev pub step_back : ℕ → ℕ → ℕ
step_back up_or_down r =
    if up_or_down == 1
    then if ltb (u8 (r + 255)) 1 then max_station_number - 1 else u8 (r + 255)
    else if up_or_down == 2
    then if ltb (max_station_number - 1) (u8 (r + 1)) then 1 else u8 (r + 1)
    else r

-- The previous station as the current one.
abbrev pub arrived : Region → Search → Option Region
arrived g (found cur) =
    some (record g { os_current_station_no = cur; os_next_station_no = g.os_current_station_no })
arrived g out_of_bounds = none
arrived g unfinished = none

-- AdjustStationNo; `none` if the loop leaves the array or does not end in `fuel` rounds.
pub adjust_station_no : ℕ → List ℕ → Region → Option Region
adjust_station_no fuel row g =
    if g.stop_or_leave == 0
    then if g.os_current_station_no == g.os_begin_station_no && g.os_cycle_line == 0
      then arrived g (found 0)
      else arrived g (
          scan fuel (step_back g.os_running_up_or_down) row
            (step_back g.os_running_up_or_down g.os_current_station_no))
    else if g.stop_or_leave == 1
        && (g.os_current_station_no == g.os_terminal_station_no && g.os_cycle_line == 0)
    then some (record g { os_next_station_no = 0 })
    else some g

-- The loop of InitStationInformation over one line.
abbrev pub init_station_information : List ℕ
init_station_information = replicate max_station_number 1

-- The loop of ClearSkipStationInfo, over the row of its line.
pub clear_skip_station_info : List ℕ → List ℕ
clear_skip_station_info [] = []
clear_skip_station_info (e ∷ row) = (if e == 2 then e else 1) ∷ clear_skip_station_info row

-- The command of BCUUpdateTCMSLineInfo, with `line_info_t`.
pub record LineCommand : Type 0 where
  pub event_type_ann : ℕ
  pub event_type_intercom : ℕ
  pub region_no : ℕ
  pub region_update_type : ℕ
  pub start_station_no : ℕ
  pub terminal_station_no : ℕ
  pub up_or_down : ℕ
  pub whether_the_cycle : ℕ
  pub get_or_set : ℕ
  pub current_station_no : ℕ

-- What BCUUpdateTCMSLineInfo changes: the region, and the region's number of the current line, whose
-- `current_region_info.region_no` it only compares.
pub record Line : Type 0 where
  pub region : Region
  pub current_region_no : ℕ
  pub current_region_info_no : ℕ

abbrev pub default_line_no : ℕ
default_line_no = 3

abbrev pub with_next : Line → LineCommand → Search → Option (Line × ℕ)
with_next l c out_of_bounds = none
with_next l c unfinished = none
with_next l c (found next) = some (
  record l {
    region = record l.region {
      region_no = 0;
      os_begin_station_no = c.start_station_no;
      os_terminal_station_no = c.terminal_station_no;
      os_current_station_no = c.current_station_no;
      os_running_up_or_down = c.up_or_down;
      os_cycle_line = c.whether_the_cycle;
      os_next_station_no = next;
    };
  },
  3,
)

-- The three comparisons of BCUUpdateTCMSLineInfo.
abbrev pub is_new : Line → LineCommand → Bool
is_new l c =
    not (l.region.os_terminal_station_no == c.terminal_station_no)
    || (not (l.region.os_running_up_or_down == c.up_or_down)
        || not (l.region.os_begin_station_no == c.start_station_no))

-- BCUUpdateTCMSLineInfo: the line and the result, or `none` if GetNextStationNo does not return.
pub update_tcms_line_info : ℕ → List ℕ → Line → LineCommand → Option (Line × ℕ)
update_tcms_line_info fuel row l c =
    if c.event_type_ann == line_number_change_event
      && (c.event_type_intercom == intercom_idle && c.get_or_set == 0)
    then if c.region_no == 0 && c.region_update_type == 1
      then if is_new l c
        then with_next l c (
            get_next_station_no fuel row default_line_no c.current_station_no c.up_or_down
              c.terminal_station_no)
        else some (l, 0)
      else if not (l.current_region_info_no == c.region_no) && c.region_update_type == 0
      then some (record l { current_region_no = c.region_no }, 4)
      else some (l, 0)
    else some (l, 0)
