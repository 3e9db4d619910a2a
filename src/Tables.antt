-- ===== src/Tables.antt =====
-- The tables that a BCU gets row by row from a CCU: BcuUpdateLcdLineStationArray,
-- BcuUpdateLcdLineRegionArray, BcuUpdateLcdDefaultLineArray, BcuUpdateDoorSideArray and
-- BcuUpdateBcuVolArray of 1.0.x/ProdExplUnits/sourcecode/bcu_update_table_from_ccu.cxx. The two lines are
-- 3 and 4; an access outside of an array gives `none`. What is shown on the screen is left out.
pub mod StationTable
pub mod RegionTable
pub mod Dispatch
mod Tests
use mitcbcu.Common.{
  ℕ, zero, suc, ◌+◌, ◌-◌, ◌*◌, Bool, true, false, ◌&&◌, ltb, leb, ◌==◌, if◌then◌else◌, List, [],
  ◌∷◌, Option, none, some, u8, u32, sub_u32, update, ◌>>=◌, ℤ, pos, negsuc, length,
}
use mitcbcu.Stations.{max_station_number}

-- `station_information_t`, as far as the rows set it; `station_chinese_name` is a C string's bytes.
pub record Station : Type 0 where
  pub effective : ℕ
  pub station_chinese_name : List ℕ
  pub door_side_up : ℕ
  pub door_side_down : ℕ

-- `region_station_t`, as far as the rows set it.
pub record RegionStation : Type 0 where
  pub line_no : ℕ
  pub region_no : ℕ
  pub running_direction : ℕ
  pub whether_the_cycle_bus : ℕ
  pub start_station_no : ℕ
  pub over_station_no : ℕ

-- What the rows change: `pp_station_info` and `p_regin_info` by the index of the line, the fields of
-- `bcu_region_info`, the volumes, and the globals.
pub record Tables : Type 0 where
  pub stations : ℕ → ℕ → Station
  pub regions : ℕ → ℕ → RegionStation
  pub total_stations_number : ℕ → ℕ
  pub total_regions_number : ℕ → ℕ
  pub default_region_no : ℕ → ℕ
  pub whether_begin_line3 : ℕ
  pub whether_begin_line4 : ℕ
  pub this_line_no : ℕ
  pub part_info_from_ccu : ℕ
  pub d2d_volume : ℕ
  pub intercomm_volume : ℕ
  pub car_volume : ℕ
  pub monitor_volume : ℕ

abbrev pub update2 {ℓ} : {A : Type ℓ} → (ℕ → ℕ → A) → ℕ → ℕ → A → ℕ → ℕ → A
update2 f l s v = update f l (update (f l) s v)

-- `line_no - 3`, in `unsigned int`.
abbrev pub line_index : ℕ → ℕ
line_index line_no = sub_u32 line_no 3

-- `line_station_code_row_t` with its `current_row_info`; `station_name` is what strcpy finds there, up
-- to the first 0.
pub record StationRow : Type 0 where
  pub line_no : ℕ
  pub total_row : ℕ
  pub current_index : ℕ
  pub station_no : ℕ
  pub fix_across_station : ℕ
  pub station_name : List ℕ

-- The size of `station_chinese_name`.
abbrev pub station_name_length : ℕ
station_name_length = 32

-- `strcpy` into an array of this size; a string that does not fit with its 0 is written behind it.
abbrev pub strcpy : ℕ → List ℕ → Option (List ℕ)
strcpy size src = if ltb (length src) size then some src else none

-- The entry of a station after its row.
abbrev pub with_station : StationRow → List ℕ → Station → Station
with_station r name s = record s {
  effective = if r.fix_across_station == 1 then 0 else 1;
  station_chinese_name = name;
}

abbrev pub store_station : Tables → StationRow → Option Tables
store_station t r =
    let l = line_index r.line_no in
    if ltb r.current_index max_station_number
    then if ltb l 2 && ltb r.station_no max_station_number
      then (do
        name ← strcpy station_name_length r.station_name
        some (record t {
          stations =
              update2 t.stations l r.station_no (with_station r name (t.stations l r.station_no));
        }))
      else none
    else some t

-- BcuUpdateLcdLineStationArray.
unfoldable pub update_line_station : Tables → StationRow → Option Tables
update_line_station t r = do
  stored ← store_station t r
  let l = line_index r.line_no
  if ltb l 2
      then some (record stored {
        total_stations_number = update stored.total_stations_number l (u8 r.total_row);
      })
      else none

-- `line_section_row_t` with its `current_row_info`.
pub record SectionRow : Type 0 where
  pub line_no : ℕ
  pub total_row : ℕ
  pub current_index : ℕ
  pub row_line_no : ℕ
  pub line_direction : ℕ  -- unsigned char
  pub spec_cycle : ℕ
  pub default_section : ℕ
  pub section_no : ℕ
  pub start_station : ℕ
  pub end_station : ℕ

-- LINE3_DEFULT_REGIONS_NUMBER and LINE4_DEFULT_REGIONS_NUMBER.
abbrev pub defult_regions_number : ℕ
defult_regions_number = 8

-- The total numbers, which the first row of each line sets.
abbrev pub begin_line : Tables → SectionRow → Tables
begin_line t r =
    if r.line_no == 3 && t.whether_begin_line3 == 0
    then record t {
      whether_begin_line3 = 1;
      total_regions_number = update t.total_regions_number 0 (u8 r.total_row);
    }
    else if r.line_no == 4 && t.whether_begin_line4 == 0
    then record t {
      whether_begin_line4 = 1;
      total_regions_number = update t.total_regions_number 1 (u8 r.total_row);
    }
    else t

abbrev pub max_region_num : SectionRow → ℕ
max_region_num r =
    if r.line_no == 3
    then defult_regions_number
    else if r.line_no == 4
    then defult_regions_number
    else 0

-- The entry of a region.
abbrev pub region_of : SectionRow → RegionStation
region_of r = record {
  line_no = u8 r.row_line_no;
  region_no = u8 r.section_no;
  running_direction = if u8 (r.line_direction + 1) == 1 then 2 else 1;
  whether_the_cycle_bus = r.spec_cycle;
  start_station_no = u8 r.start_station;
  over_station_no = u8 r.end_station;
}

-- The entry before `current_index`; the one before 0 is outside of the array.
abbrev pub store_region : Tables → SectionRow → ℕ → Option Tables
store_region t r zero = none
store_region t r (suc i) =
    let l = line_index r.line_no in
    some (record t {
      regions = update2 t.regions l i (region_of r);
      default_region_no =
          if r.default_section == 1
          then update t.default_region_no l r.section_no
          else t.default_region_no;
    })

-- BcuUpdateLcdLineRegionArray.
unfoldable pub update_line_region : Tables → SectionRow → Option Tables
update_line_region t r =
    if ltb r.current_index (max_region_num r)
    then store_region (begin_line t r) r r.current_index
    else some (begin_line t r)

-- BcuUpdateLcdDefaultLineArray.
unfoldable pub update_default_line : Tables → ℕ → ℕ → Tables
update_default_line t line_no default_line =
    if default_line == 1 then record t { this_line_no = line_no; part_info_from_ccu = 1 } else t

-- A station's two sides in `line_station_door_side_t`.
pub record DoorSide : Type 0 where
  pub station_no : ℕ
  pub up : ℕ
  pub down : ℕ

-- The loop of BcuUpdateDoorSideArray.
abbrev pub door_loop : Tables → ℕ → List DoorSide → Option Tables
door_loop t line_no [] = some t
door_loop t line_no (d ∷ ds) =
    let l = line_index line_no in
    let next = record t {
      stations =
          update2 t.stations l d.station_no
            (record (t.stations l d.station_no) { door_side_up = d.up; door_side_down = d.down });
    } in
    let stored = door_loop next line_no ds in
    let skipped = door_loop t line_no ds in
    if ltb 0 d.station_no && leb d.station_no max_station_number
    then if ltb l 2 && ltb d.station_no max_station_number then stored else none
    else skipped

-- BcuUpdateDoorSideArray of a table that is not NULL; `total_bytes` has to be the size of the table, 16
-- and 8 for each station.
unfoldable pub update_door_side : Tables → ℕ → ℕ → List DoorSide → Option (Tables × ℤ)
update_door_side t line_no total_bytes ds =
    if total_bytes == 16 + 8 * length ds
    then (do stored ← door_loop t line_no ds; some (stored, pos 0))
    else some (t, negsuc 0)

-- BcuUpdateBcuVolArray of a row that is not NULL: `int` values into `unsigned char`.
unfoldable pub update_bcu_vol : Tables → ℕ → ℕ → ℕ → ℕ → Tables
update_bcu_vol t d2d d2p d2eamp d2listen = record t {
  d2d_volume = u8 d2d;
  intercomm_volume = u8 d2p;
  car_volume = u8 d2eamp;
  monitor_volume = u8 d2listen;
}
