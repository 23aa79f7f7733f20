-- ===== src/Loader/Cases.antt =====
-- `parse_numbers`, `case_objects`, `parse_case`, `load_cases` and `load_case` of
-- hpc/fode_cpp/src/case_loader.cpp. `strtod` and the read of the file are parameters.
pub mod Loaded
use Prim.Native.Char.{Char, code}
use Prim.Native.String.{◌++◌ as ◌<>◌}
use text.Mathlib.Text.{◌==◌ as ◌≗◌}
use fode_hpc_wflop.Base.{
  ℕ, zero, suc, ◌-◌, Bool, true, false, ◌&&◌, ◌||◌, if◌then◌else◌, Option, none, some, List, [],
  ◌∷◌, ◌++◌, map, String, length, is_empty, leb, Result, ok, err, runtime_error, ◌>>=◌, ◌>>◌,
  throw_if,
}
use fode_hpc_wflop.Case.{CaseData}
use fode_hpc_wflop.Double.{Double}
use fode_hpc_wflop.Text.{Text, chars, is, string_of}
use fode_hpc_wflop.Loader.{CaseFields, check_case}
use fode_hpc_wflop.Loader.Json.{
  matching_delimiter, start, find_after, found, raw_value, parse_string,
}

is_digit : Char → Bool
is_digit ch = leb b'0' (code ch) && leb (code ch) b'9'

begins_digit : Text → Bool
begins_digit [] = false
begins_digit (ch ∷ text) = is_digit ch

-- Where `parse_numbers` calls `strtod`.
starts_number : Char → Text → Bool
unfolding is_digit begins_digit
starts_number ch text = is_digit ch || is ch b'-' || is ch b'+' || (is ch b'.' && begins_digit text)

-- The loop over the array's text, whose position is `left` characters before its end.
objects_from : ℕ → ℕ → Text → Result (List Text)
objects_from skip zero text = ok []
objects_from skip (suc left) [] = ok []
objects_from (suc skip) (suc left) (ch ∷ text) = objects_from skip left text
objects_from zero (suc left) (ch ∷ text) = elim (is ch b'{') [
  | false ↦ objects_from 0 left text
  | true ↦
      matching_delimiter "{" "}" start (ch ∷ text)
      >>= (λ cut. objects_from (length cut.0 - 1) left text >>= (λ objects. ok (cut.0 ∷ objects)))
]

unfoldable pub case_objects : Text → Result (List Text)
unfolding objects_from
case_objects document = do
  behind ← found (find_after (chars "\"cases\"") document) "benchmark contract has no cases array"
  array ← found (find_after (chars "[") behind) "benchmark cases field is not an array"
  cut ← matching_delimiter "[" "]" start (chars "[" ++ array)
  objects_from 0 (length cut.0 - 2) array

unfoldable pub has_id : List String → String → Bool
has_id [] id = false
has_id (seen ∷ ids) id = id ≗ seen || has_id ids id

unfoldable pub find_case : {W : Type 0} → String → List (CaseData W) → Result (CaseData W)
find_case id [] = err (runtime_error ("unknown discrete WFLOP case: " <> id))
find_case id (data' ∷ cases) = if data'.case_id ≗ id then ok data' else find_case id cases

module _ {W : Type 0} ⦃D : Double W⦄ (strtod : Text → Option (W × ℕ)) where
  -- `strtod` gives the value and how many characters it reads behind the first.
  numbers_from : ℕ → Text → List W
  numbers_from skip [] = []
  numbers_from (suc skip) (ch ∷ text) = numbers_from skip text
  numbers_from zero (ch ∷ text) = elim (starts_number ch text) [
    | false ↦ numbers_from 0 text
    | true ↦ elim (strtod (ch ∷ text)) [
      | none ↦ numbers_from 0 text
      | some (value, more) ↦ value ∷ numbers_from more text
    ]
  ]

  unfoldable pub parse_numbers : Text → List W
  unfolding numbers_from starts_number
  parse_numbers raw = numbers_from 0 raw

  scalar_of : Option (W × ℕ) → Result W
  scalar_of (some (value, more)) = ok value
  scalar_of none = err (runtime_error "expected JSON number")

  unfoldable pub parse_scalar : Text → Result W
  unfolding scalar_of
  parse_scalar raw = scalar_of (strtod raw)

  unfoldable pub parse_fields : Text → Result (CaseFields W)
  parse_fields object = do
    raw_id ← raw_value object (chars "case_id")
    id ← parse_string raw_id
    raw_rows ← raw_value object (chars "rows")
    rows ← parse_scalar raw_rows
    raw_cols ← raw_value object (chars "cols")
    cols ← parse_scalar raw_cols
    raw_count ← raw_value object (chars "turbine_count")
    count ← parse_scalar raw_count
    raw_width ← raw_value object (chars "cell_width")
    width ← parse_scalar raw_width
    theta ← raw_value object (chars "wind_directions_rad")
    velocity ← raw_value object (chars "wind_speeds_mps")
    probability ← raw_value object (chars "joint_probabilities")
    unavailable ← raw_value object (chars "unavailable_cells_1based")
    ok (record {
      case_id = string_of id;
      rows = D.round_int rows;
      cols = D.round_int cols;
      turbine_count = D.round_int count;
      cell_width = width;
      theta = parse_numbers theta;
      velocity = parse_numbers velocity;
      probability = parse_numbers probability;
      unavailable_cells_1based = map D.round_int (parse_numbers unavailable);
    })

  unfoldable pub parse_case : Text → Result (CaseData W)
  parse_case object = do fields ← parse_fields object; check_case fields

  unfoldable pub cases_from : List String → List Text → Result (List (CaseData W))
  unfolding has_id
  cases_from ids [] = ok []
  cases_from ids (object ∷ objects) = do
    data' ← parse_case object
    throw_if (has_id ids data'.case_id)
        (runtime_error ("duplicate case identifier: " <> data'.case_id))
    cases ← cases_from (data'.case_id ∷ ids) objects
    ok (data' ∷ cases)

  module _ (read_text : String → Result Text) where
    unfoldable pub load_cases : String → Result (List (CaseData W))
    unfolding cases_from
    load_cases path = do
      document ← read_text path
      objects ← case_objects document
      cases ← cases_from [] objects
      throw_if (is_empty cases) (runtime_error "benchmark contract contains no cases")
      ok cases

    unfoldable pub load_case : String → String → Result (CaseData W)
    unfolding load_cases find_case
    load_case path case_id = do cases ← load_cases path; find_case case_id cases
