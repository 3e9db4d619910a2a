-- ===== src/Tables/StationTable.antt =====
-- The table of stations after any rows: BcuUpdateLcdLineStationArray of
-- 1.0.x/ProdExplUnits/sourcecode/bcu_update_table_from_ccu.cxx.
use mitcbcu.Common.{
  ℕ, ◌<◌, ◌≡◌, refl, sym, ap, ◌∙◌, arith, Bool, true, false, ◌&&◌, ltb, ◌==◌, if◌then◌else◌, List,
  [], ◌∷◌, Option, none, some, ◌⊎◌, inl, inr, Returns, length, ◌>>=◌, Bool-cases, Returns-mono,
  Returns-bind, ==→eq, ltb-of_lt,
}
use mitcbcu.Stations.{max_station_number}
use mitcbcu.Tables.{
  Tables, Station, StationRow, line_index, station_name_length, with_station, update_line_station,
  update2,
}

abbrev pub run_stations : Tables → List StationRow → Option Tables
run_stations t [] = some t
run_stations t (r ∷ rs) = do next ← update_line_station t r; run_stations next rs

-- A row of line 3 or 4 and of a station in the array, with a name that fits with its 0.
pub record IsRow (r : StationRow) : Type 0 where
  pub line : (r.line_no ≡ 3) ⊎ (r.line_no ≡ 4)
  pub station : r.station_no < max_station_number
  pub name : length r.station_name < station_name_length

abbrev pub AllRows : List StationRow → Type 0
AllRows [] = Unit {0}
AllRows (r ∷ rs) = IsRow r × AllRows rs

-- Whether a row is stored at a station of a line.
abbrev pub is_for : ℕ → ℕ → StationRow → Bool
is_for l s r =
    ltb r.current_index max_station_number && l == line_index r.line_no && s == r.station_no

abbrev pub latest : Option StationRow → StationRow → Bool → Option StationRow
latest (some r') r b = some r'
latest none r true = some r
latest none r false = none

-- The last row for a station.
abbrev pub last_row : ℕ → ℕ → List StationRow → Option StationRow
last_row l s [] = none
last_row l s (r ∷ rs) = latest (last_row l s rs) r (is_for l s r)

-- A station is left out by the value 1.
abbrev pub served : ℕ → ℕ
served across = if across == 1 then 0 else 1

-- The entry that the last row leaves: its name and whether it is served, with the door sides from
-- before.
abbrev pub given : Option StationRow → Station → Station
given none s = s
given (some r) s = record {
  effective = served r.fix_across_station;
  station_chinese_name = r.station_name;
  door_side_up = s.door_side_up;
  door_side_down = s.door_side_down;
}

given-latest :
    (o : Option StationRow) (r : StationRow) (b : Bool) (s : Station)
    → given o (if b then with_station r r.station_name s else s) ≡ given (latest o r b) s
given-latest none r true s = refl
given-latest none r false s = refl
given-latest (some r') r true s = refl
given-latest (some r') r false s = refl

pub update2_lem {ℓ} :
    {A : Type ℓ} (f : ℕ → ℕ → A) (g : A → A) (l' s' l s : ℕ)
    → update2 f l' s' (g (f l' s')) l s ≡ (if l == l' && s == s' then g (f l s) else f l s)
update2_lem f g l' s' l s = elim (Bool-cases (l == l')) [
  | inr e ↦ rw e refl
  | inl e ↦ elim (Bool-cases (s == s')) [
    | inr e' ↦ rw e (rw e' (ap (λ k. f k s) (sym (==→eq l l' e))))
    | inl e' ↦ rw e (
        rw e'
          (ap (λ k. g (f k s')) (sym (==→eq l l' e)) ∙ ap (λ k. g (f l k)) (sym (==→eq s s' e'))))
  ]
]

pub in_lines : (n : ℕ) → (n ≡ 3) ⊎ (n ≡ 4) → ltb (line_index n) 2 ≡ true
in_lines n h = ground arith

row_lem :
    (t : Tables) (r : StationRow)
    → IsRow r
    → Returns
        (λ t'.
          (l s : ℕ)
          → t'.stations l s ≡ (
              if is_for l s r
              then with_station r r.station_name (t.stations l s)
              else t.stations l s))
        (update_line_station t r)
unfolding update_line_station
row_lem t r v =
    rw (in_lines r.line_no v.line) (elim (Bool-cases (ltb r.current_index max_station_number)) [
      | inr e ↦ rw e (λ l s. refl)
      | inl e ↦ rw e (
          rw (ltb-of_lt r.station_no max_station_number v.station) (
            rw (ltb-of_lt (length r.station_name) station_name_length v.name) (λ l s.
              update2_lem t.stations (with_station r r.station_name) (line_index r.line_no)
                r.station_no l s)))
    ])

-- After any rows of the lines 3 and 4, with stations in the array and names of less than 32 bytes, no
-- access was outside of an array, and each station has what the last row for it says, of the rows whose index is below 32, with its
-- door sides kept; a station without such a row is as before.
pub stations_lem :
    (t : Tables) (rs : List StationRow)
    → AllRows rs
    → Returns
        (λ t'. (l s : ℕ) → t'.stations l s ≡ given (last_row l s rs) (t.stations l s))
        (run_stations t rs)
stations_lem t [] v = λ l s. refl
stations_lem t (r ∷ rs) v =
    Returns-bind _ _ (update_line_station t r) _ (row_lem t r v.0) λ next step.
      Returns-mono _ _ (run_stations next rs) (stations_lem next rs v.1) λ t' rest l s.
        rest l s
        ∙ ap (given (last_row l s rs)) (step l s)
        ∙ given-latest (last_row l s rs) r (is_for l s r) (t.stations l s)
