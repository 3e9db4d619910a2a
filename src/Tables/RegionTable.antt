-- ===== src/Tables/RegionTable.antt =====
-- The table of regions after any rows: BcuUpdateLcdLineRegionArray of
-- 1.0.x/ProdExplUnits/sourcecode/bcu_update_table_from_ccu.cxx.
use mitcbcu.Common.{
  ℕ, zero, suc, ◌+◌, ◌%◌, u8, ◌<◌, ◌≡◌, refl, ap, ◌∙◌, arith, Bool, true, false, ◌&&◌, ltb, ◌==◌,
  if◌then◌else◌, List, [], ◌∷◌, Option, none, some, ◌⊎◌, inl, inr, Returns, ◌>>=◌, Bool-cases,
  Returns-mono, Returns-bind, if_ind,
}
use mitcbcu.Tables.{
  Tables, RegionStation, SectionRow, line_index, begin_line, max_region_num, region_of,
  store_region, update_line_region,
}
use mitcbcu.Tables.StationTable.{update2_lem}

abbrev pub run_regions : Tables → List SectionRow → Option Tables
run_regions t [] = some t
run_regions t (r ∷ rs) = do next ← update_line_region t r; run_regions next rs

-- The rows are counted from 1, and their direction is an `unsigned char`.
abbrev pub AllCounted : List SectionRow → Type 0
AllCounted [] = Unit {0}
AllCounted (r ∷ rs) = ((0 < r.current_index) × (r.line_direction < 256)) × AllCounted rs

-- The region of a row: the directions 0 and others are 2 and 1, and the numbers lose their high bytes.
abbrev pub region : SectionRow → RegionStation
region r = record {
  line_no = r.row_line_no % 256;
  region_no = r.section_no % 256;
  running_direction = if r.line_direction == 0 then 2 else 1;
  whether_the_cycle_bus = r.spec_cycle;
  start_station_no = r.start_station % 256;
  over_station_no = r.end_station % 256;
}

direction_lem : (d : ℕ) → d < 256 → (u8 (d + 1) == 1) ≡ (d == 0)
direction_lem d h = ground arith

region_of_lem : (r : SectionRow) → r.line_direction < 256 → region_of r ≡ region r
region_of_lem r h = rw (direction_lem r.line_direction h) refl

-- Whether a row is stored at an entry of a line.
abbrev pub is_for : ℕ → ℕ → SectionRow → Bool
is_for l i r =
    ltb r.current_index (max_region_num r) && l == line_index r.line_no && suc i == r.current_index

abbrev pub latest : Option SectionRow → SectionRow → Bool → Option SectionRow
latest (some r') r b = some r'
latest none r true = some r
latest none r false = none

-- The last row for an entry.
abbrev pub last_row : ℕ → ℕ → List SectionRow → Option SectionRow
last_row l i [] = none
last_row l i (r ∷ rs) = latest (last_row l i rs) r (is_for l i r)

abbrev pub given : Option SectionRow → RegionStation → RegionStation
given none s = s
given (some r) s = region r

given-latest :
    (o : Option SectionRow) (r : SectionRow) (b : Bool) (s : RegionStation)
    → given o (if b then region r else s) ≡ given (latest o r b) s
given-latest none r true s = refl
given-latest none r false s = refl
given-latest (some r') r b s = refl

regions-begin_line : (t : Tables) (r : SectionRow) → (begin_line t r).regions ≡ t.regions
regions-begin_line t r =
    if_ind (λ (t' : Tables). t'.regions ≡ t.regions) (r.line_no == 3 && t.whether_begin_line3 == 0)
      _ _ (λ _. refl)
      (λ _.
        if_ind (λ (t' : Tables). t'.regions ≡ t.regions)
          (r.line_no == 4 && t.whether_begin_line4 == 0) _ _ (λ _. refl) (λ _. refl))

abbrev IsStored : Tables → SectionRow → Tables → Type 0
IsStored t r t' = (l i : ℕ) → t'.regions l i ≡ (if is_for l i r then region_of r else t.regions l i)

suc_test : (i n : ℕ) → (suc i == suc n) ≡ (i == n)
suc_test i n = ground arith

stored_lem :
    (t : Tables) (r : SectionRow) (n : ℕ)
    → 0 < n
    → Returns
        (λ t'.
          (l i : ℕ)
          → t'.regions l i
            ≡ (if l == line_index r.line_no && suc i == n then region_of r else t.regions l i))
        (store_region t r n)
stored_lem t r zero p = absurd (omega arith)
stored_lem t r (suc n) p =
    λ l i. rw (suc_test i n) (update2_lem t.regions (λ _. region_of r) (line_index r.line_no) n l i)

row_lem :
    (t : Tables) (r : SectionRow)
    → 0 < r.current_index
    → Returns (IsStored t r) (update_line_region t r)
unfolding update_line_region
row_lem t r p = elim (Bool-cases (ltb r.current_index (max_region_num r))) [
  | inr e ↦ rw e (λ l i. rw e (ap (λ f. f l i) (regions-begin_line t r)))
  | inl e ↦ rw e (
      Returns-mono _ _ (store_region (begin_line t r) r r.current_index)
        (stored_lem (begin_line t r) r r.current_index p)
        (λ t' h l i. rw e (
          h l i
          ∙ ap
              (λ f.
                if l == line_index r.line_no && suc i == r.current_index
                then region_of r
                else f l i)
              (regions-begin_line t r))))
]

-- The eighth row of a line is stored nowhere.
last_row_eighth : (l : ℕ) (rs : List SectionRow) → last_row l 7 rs ≡ none
last_row_eighth l [] = refl
last_row_eighth l (r ∷ rs) = rw (last_row_eighth l rs) (rw (eighth l r) refl)
  where
    eighth : (l : ℕ) (r : SectionRow) → is_for l 7 r ≡ false
    eighth l r = ground arith

entries_lem :
    (t : Tables) (rs : List SectionRow)
    → AllCounted rs
    → Returns
        (λ t'. (l i : ℕ) → t'.regions l i ≡ given (last_row l i rs) (t.regions l i))
        (run_regions t rs)
entries_lem t [] v = λ l i. refl
entries_lem t (r ∷ rs) v =
    Returns-bind _ _ (update_line_region t r) _ (row_lem t r v.0.0) λ next step.
      Returns-mono _ _ (run_regions next rs) (entries_lem next rs v.1) λ t' rest l i.
        rest l i
        ∙ ap (given (last_row l i rs))
            (step l i ∙ ap (λ e. if is_for l i r then e else t.regions l i) (region_of_lem r v.0.1))
        ∙ given-latest (last_row l i rs) r (is_for l i r) (t.regions l i)

-- After any rows, counted from 1, no access was outside of an array, and each entry of a line is the
-- region of the last row for it, of the rows of line 3 or 4 whose index is below 8, or as before when
-- there is none. So the eighth entry of a line is always as before.
pub regions_lem :
    (t : Tables) (rs : List SectionRow)
    → AllCounted rs
    → Returns
        (λ t'.
          ((l i : ℕ) → t'.regions l i ≡ given (last_row l i rs) (t.regions l i))
          × ((l : ℕ) → t'.regions l 7 ≡ t.regions l 7))
        (run_regions t rs)
regions_lem t rs v =
    Returns-mono _ _ (run_regions t rs) (entries_lem t rs v)
      λ t' h. (h, λ l. h l 7 ∙ ap (λ o. given o (t.regions l 7)) (last_row_eighth l rs))

-- A row counted from 0 is stored before the array.
index_zero_faults :
    (t : Tables) (r : SectionRow)
    → (r.line_no ≡ 3) ⊎ (r.line_no ≡ 4)
    → r.current_index ≡ 0
    → update_line_region t r ≡ none
unfolding update_line_region
index_zero_faults t r (inl l) z = rw l (rw z refl)
index_zero_faults t r (inr l) z = rw l (rw z refl)
