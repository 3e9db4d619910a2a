-- ===== src/Stations/Update.antt =====
-- BCUUpdateTCMSLineInfo of 1.0.x/ProdExplUnits/sourcecode/bcu_function.cxx.
use mitcbcu.Common.{ℕ, ◌≤◌, ◌<◌, ◌≡◌, true, List, some, length, arith}
use mitcbcu.StateMachine.{line_number_change_event, intercom_idle}
use mitcbcu.Stations.{Line, Region, LineCommand, update_tcms_line_info, is_new, max_station_number}
use mitcbcu.Stations.Scan.{IsServed}
use mitcbcu.Stations.Next.{IsNextUp, next_station_up}

-- A command that the code takes for one that sets the region by its stations: its test is for a
-- get_or_set of 0, while the declaration's comment says that 0 asks for the line and 1 sets it.
pub record IsRegion (c : LineCommand) : Type 0 where
  pub ann : c.event_type_ann ≡ line_number_change_event
  pub intercom : c.event_type_intercom ≡ intercom_idle
  pub set : c.get_or_set ≡ 0
  pub by_stations : (c.region_no ≡ 0) × (c.region_update_type ≡ 1)

-- The region is the command's, with this next station.
pub record HasRegion (c : LineCommand) (next : ℕ) (g : Region) : Type 0 where
  pub region : g.region_no ≡ 0
  pub begin : g.os_begin_station_no ≡ c.start_station_no
  pub terminal : g.os_terminal_station_no ≡ c.terminal_station_no
  pub current : g.os_current_station_no ≡ c.current_station_no
  pub direction : g.os_running_up_or_down ≡ c.up_or_down
  pub cycle : g.os_cycle_line ≡ c.whether_the_cycle
  pub following : g.os_next_station_no ≡ next

-- BCUUpdateTCMSLineInfo of a command whose get_or_set is 0, with a region by its stations, upwards, with a terminal station that is served
-- and lies behind the current one, where the terminal station, the direction or the first station is
-- new: it returns 3, the region is the command's, and its next station is the first one behind the
-- current that is served. The same command again, or one that differs in its current station only,
-- returns 0 and changes nothing.
pub update_lem :
    (row : List ℕ) (l : Line) (c : LineCommand) (fuel now : ℕ)
    → length row ≡ max_station_number
    → max_station_number ≤ fuel
    → IsRegion c
    → is_new l c ≡ true
    → c.up_or_down ≡ 1
    → c.current_station_no < c.terminal_station_no
    → c.terminal_station_no < max_station_number
    → IsServed row c.terminal_station_no
    → (n : ℕ) × (l' : Line) × (update_tcms_line_info fuel row l c ≡ some (l', 3))
      × HasRegion c n l'.region
      × IsNextUp row c.current_station_no c.terminal_station_no n
      × (update_tcms_line_info fuel row l' (record c { current_station_no = now }) ≡ some (l', 0))
unfolding update_tcms_line_info
update_lem row l c fuel now size f v new up h b s =
    let (n, e, p) =
      next_station_up row c.current_station_no c.terminal_station_no fuel size f h b s in
    let l' = record l {
      region = record l.region {
        region_no = 0;
        os_begin_station_no = c.start_station_no;
        os_terminal_station_no = c.terminal_station_no;
        os_current_station_no = c.current_station_no;
        os_running_up_or_down = c.up_or_down;
        os_cycle_line = c.whether_the_cycle;
        os_next_station_no = n;
      };
    } in
    (
      n,
      l',
      ground (arith, v.ann, v.intercom, v.set, v.by_stations, new, up, e),
      ground arith,
      p,
      ground (arith, v.ann, v.intercom, v.set, v.by_stations),
    )
