-- ===== src/Tables/Dispatch.antt =====
-- BcuGdGetDbFromServerCcu of 1.0.x/ProdExplUnits/sourcecode/bcu_gd_sync.cxx: which table a package is a
-- row of. Its rows of addresses and priorities go to other state and are left out, and so is the
-- password of the screen; the rows of versions, announcements, numbers and paths change nothing.
use mitcbcu.Common.{
  ℕ, ◌+◌, ◌≡◌, ◌≢◌, ◌==◌, if◌then◌else◌, List, Option, some, ℤ, negsuc, ◌>>=◌, Returns, arith,
}
use mitcbcu.Sync.{subevent_type_line_station_table_sync}
use mitcbcu.Tables.{
  Tables, StationRow, SectionRow, DoorSide, update_line_station, update_line_region,
  update_default_line, update_door_side, update_bcu_vol,
}

-- The bytes of `gd_sync_context`, read as each of the rows, and `gd_sync_context_len`.
pub record Context : Type 0 where
  pub recv_len : ℕ
  pub station : StationRow
  pub section : SectionRow
  pub line_no : ℕ
  pub default_line : ℕ
  pub doors_line_no : ℕ
  pub doors_total_bytes : ℕ
  pub doors : List DoorSide
  pub d2d_volume : ℕ
  pub d2p_volume : ℕ
  pub d2eamp_volume : ℕ
  pub d2listen_volume : ℕ

-- The sizes of the rows that the target's compiler gives.
pub record Sizes : Type 0 where
  pub line_station_code_row : ℕ
  pub line_section_row : ℕ
  pub default_line_table_row : ℕ
  pub pu_volume_table_row : ℕ

abbrev pub subevent_type_line_section_table_sync : ℕ
subevent_type_line_section_table_sync = 19

abbrev pub subevent_type_default_line_table_sync : ℕ
subevent_type_default_line_table_sync = 21

abbrev pub subevent_type_station_door_side_sync : ℕ
subevent_type_station_door_side_sync = 30

abbrev pub subevent_type_station_bcu_volume_sync : ℕ
subevent_type_station_bcu_volume_sync = 31

-- The cases of its switch, each with the test of the length.
abbrev pub switch_subevent : Sizes → Tables → ℕ → Context → Option Tables
switch_subevent sizes t subevent_type c =
    if subevent_type == subevent_type_line_station_table_sync
    then if c.recv_len == sizes.line_station_code_row + 4
      then update_line_station t c.station
      else some t
    else if subevent_type == subevent_type_line_section_table_sync
    then if c.recv_len == sizes.line_section_row + 4 then update_line_region t c.section else some t
    else if subevent_type == subevent_type_default_line_table_sync
    then if c.recv_len == sizes.default_line_table_row + 4
      then some (update_default_line t c.line_no c.default_line)
      else some t
    else if subevent_type == subevent_type_station_door_side_sync
    then if c.recv_len == c.doors_total_bytes + 4
      then (do r ← update_door_side t c.doors_line_no c.doors_total_bytes c.doors; some r.0)
      else some t
    else if subevent_type == subevent_type_station_bcu_volume_sync
    then if c.recv_len == sizes.pu_volume_table_row + 4
      then some (update_bcu_vol t c.d2d_volume c.d2p_volume c.d2eamp_volume c.d2listen_volume)
      else some t
    else some t

-- BcuGdGetDbFromServerCcu of a package that is not NULL; its result is never set.
unfoldable pub get_db_from_server_ccu : Sizes → Tables → ℕ → Context → Option (Tables × ℤ)
get_db_from_server_ccu sizes t subevent_type c = do
  updated ← switch_subevent sizes t subevent_type c
  some (updated, negsuc 0)

-- Of the sub-events that are no rows of stations, regions or door sides, none faults or changes the
-- stations or the regions.
pub frame_lem :
    (sizes : Sizes) (t : Tables) (subevent_type : ℕ) (c : Context)
    → subevent_type ≢ subevent_type_line_station_table_sync
    → subevent_type ≢ subevent_type_line_section_table_sync
    → subevent_type ≢ subevent_type_station_door_side_sync
    → Returns
        (λ r. (r.0.stations ≡ t.stations) × (r.0.regions ≡ t.regions) × (r.1 ≡ negsuc 0))
        (get_db_from_server_ccu sizes t subevent_type c)
unfolding get_db_from_server_ccu update_default_line update_bcu_vol
frame_lem sizes t subevent_type c a b d = ground arith
