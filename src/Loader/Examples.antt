-- ===== src/Loader/Examples.antt =====
-- The checks of the loader on a small case.
use fode_hpc_wflop.Base.{
  ℕ, zero, suc, ◌+◌, ◌-◌, ◌*◌, false, ◌&&◌, leb, Option, some, none, Result, String, is_empty, All,
  if◌then◌else◌, ℤ, pos, ok, ◌≡◌, refl, [], ◌∷◌, arith,
}
use fode_hpc_wflop.Double.Whole.{whole}
use fode_hpc_wflop.Fode.Grid.{IsCase}
use fode_hpc_wflop.Fode.Fixture.{farm}
use fode_hpc_wflop.Base.Sort.{stable_sort, insert_sorted}
use fode_hpc_wflop.Farm.Evaluate.{has_adjacent}
use Prim.Native.Char.{code}
use fode_hpc_wflop.Text.{Text, chars}
use fode_hpc_wflop.Loader.Json.{raw_value, parse_string}
use fode_hpc_wflop.Loader.Cases.{
  case_objects, parse_numbers, parse_scalar, parse_fields, parse_case, cases_from, load_cases,
  load_case,
}
use fode_hpc_wflop.Loader.Cases.Loaded.{Unrepeated, load_cases-IsCase, load_case-load_cases}
use fode_hpc_wflop.Loader.{CaseFields, breaks_contract, check_case}
use fode_hpc_wflop.Loader.Admits.{check_case-IsCase}

abbrev fields : CaseFields ℤ
fields = record {
  case_id = "small";
  rows = pos 2;
  cols = pos 3;
  turbine_count = pos 2;
  cell_width = pos 400;
  theta = pos 0 ∷ [];
  velocity = pos 12 ∷ [];
  probability = pos 1 ∷ [];
  unavailable_cells_1based = pos 2 ∷ [];
}

fields_pass : check_case fields ≡ ok farm
unfolding check_case breaks_contract has_adjacent stable_sort insert_sorted
fields_pass = refl

check_case-IsCase_example : IsCase farm
check_case-IsCase_example = check_case-IsCase fields farm fields_pass (omega arith)

-- A `strtod` that reads natural numbers only.
digits_at : ℕ → Text → ℕ × ℕ
digits_at value [] = (value, 0)
digits_at value (c ∷ text) =
    let more = digits_at (value * 10 + (code c - 48)) text in
    if leb 48 (code c) && leb (code c) 57 then (more.0, suc more.1) else (value, 0)

natural_at : Text → Option (ℤ × ℕ)
unfolding digits_at
natural_at text =
    let read = digits_at 0 text in
    elim (read.1) [ zero ↦ none | suc more ↦ some (pos read.0, more) ]

abbrev document : Text
document =
    chars
      "{\"cases\": [{\"case_id\": \"small\", \"rows\": 2, \"cols\": 3, \"turbine_count\": 2, \"cell_width\": 400, \"wind_directions_rad\": [0], \"wind_speeds_mps\": [12], \"joint_probabilities\": [1], \"unavailable_cells_1based\": [2]}]}"

read_text : String → Result Text
read_text path = ok document

loaded : load_cases natural_at read_text "cases.json" ≡ ok (farm ∷ [])
unfolding load_cases read_text case_objects cases_from parse_case parse_fields parse_numbers
    parse_scalar natural_at raw_value parse_string check_case breaks_contract has_adjacent
    stable_sort insert_sorted
loaded = refl

load_cases-IsCase_example :
    (is_empty (farm ∷ []) ≡ false) × Unrepeated [] (farm ∷ []) × All IsCase (farm ∷ [])
load_cases-IsCase_example =
    load_cases-IsCase natural_at read_text "cases.json" (farm ∷ []) loaded (omega arith)

load_case-load_cases_example : load_case natural_at read_text "cases.json" "small" ≡ ok farm
load_case-load_cases_example =
    load_case-load_cases natural_at read_text "cases.json" (farm ∷ []) loaded 0 farm (omega arith)
