-- ===== src/Wflop/Arguments.antt =====
-- `parse_u64`, `parse_algorithm_list` and `parse_arguments` of hpc/wflop_cpp/src/main.cpp. `std::stoull`
-- is a parameter: the value and how many characters it has read.
pub mod Listed
mod Examples
use Prim.Native.String.{◌++◌ as ◌<>◌}
use text.Mathlib.Text.{◌==◌ as ◌≗◌}
use fode_hpc_wflop.Base.{
  ℕ, ◌+◌, ◌-◌, ◌^◌, ◌%◌, ltb, ℤ, pos, sub_ℕ, Bool, true, false, not, ◌&&◌, ◌||◌, ◌==◌,
  if◌then◌else◌, List, [], ◌∷◌, ◌++◌, String, Option, some, none, length, is_empty, Result, ok, err,
  runtime_error, ◌>>=◌, ◌>>◌, throw_if,
}
use fode_hpc_wflop.Text.{Text, chars, is, string_of}

pub record Arguments : Type 0 where
  pub cases_path : String
  pub models_path : String
  pub algorithm : String
  pub algorithms : List Text
  pub problem : String
  pub case_id : String
  pub output_path : String
  pub seed : ℕ
  pub physical_fes : ℕ
  pub workers : ℤ
  pub all_cases : Bool
  pub all_algorithms : Bool
  pub list_algorithms : Bool
  pub list_problems : Bool
  pub self_check : Bool
  pub check_ise_rename : Bool

abbrev pub defaults : Arguments
defaults = record {
  cases_path = "shared/contracts/benchmark_cases.json";
  models_path = "shared/models/sugga_cpp";
  algorithm = "fode";
  algorithms = [];
  problem = "fode_e0_common";
  case_id = "WS5tn30";
  output_path = "";
  seed = 20260728;
  physical_fes = 24000;
  workers = pos 20;
  all_cases = false;
  all_algorithms = false;
  list_algorithms = false;
  list_problems = false;
  self_check = false;
  check_ise_rename = false;
}

abbrev refuse_empty : Text → Result (Unit {0})
refuse_empty id =
    throw_if (is_empty id) (runtime_error "empty algorithm identifier in --algorithms")

-- The loop, with the characters since the last comma.
unfoldable pub ids_from : Text → Text → Result (List Text)
ids_from id [] = do refuse_empty id; ok (id ∷ [])
ids_from id (ch ∷ text) =
    let cut = refuse_empty id >> (ids_from [] text >>= (λ ids. ok (id ∷ ids))) in
    let longer = ids_from (id ++ ch ∷ []) text in if is ch b',' then cut else longer

unfoldable pub parse_algorithm_list : Text → Result (List Text)
unfolding ids_from
parse_algorithm_list text = do
  result ← ids_from [] text
  throw_if (is_empty result) (runtime_error "--algorithms requires at least one ID")
  ok result

-- `static_cast<int>` of a value of 64 bits
abbrev to_int : ℕ → ℤ
to_int value =
    let word = value % 2 ^ 32 in if ltb word (2 ^ 31) then pos word else sub_ℕ word (2 ^ 32)

module _ (stoull : Text → Result (ℕ × ℕ)) where
  parse_u64 : Text → Text → Result ℕ
  parse_u64 text flag = do
    (value, consumed) ← stoull text
    throw_if (not (consumed == length text))
        (runtime_error ("invalid value for " <> string_of flag <> ": " <> string_of text))
    ok value

  -- The flags with a value; `none` for any other flag.
  set_value : Text → Text → Arguments → Option (Result Arguments)
  unfolding parse_u64
  set_value flag value a =
      let name = string_of flag in
      if name ≗ "--cases"
      then some (ok (record a { cases_path = string_of value }))
      else if name ≗ "--models"
      then some (ok (record a { models_path = string_of value }))
      else if name ≗ "--algorithm"
      then some (ok (record a { algorithm = string_of value }))
      else if name ≗ "--algorithms"
      then some (parse_algorithm_list value >>= (λ ids. ok (record a { algorithms = ids })))
      else if name ≗ "--problem"
      then some (ok (record a { problem = string_of value }))
      else if name ≗ "--case"
      then some (ok (record a { case_id = string_of value }))
      else if name ≗ "--output"
      then some (ok (record a { output_path = string_of value }))
      else if name ≗ "--seed"
      then some (parse_u64 value flag >>= (λ n. ok (record a { seed = n })))
      else if name ≗ "--physical-fes"
      then some (parse_u64 value flag >>= (λ n. ok (record a { physical_fes = n })))
      else if name ≗ "--workers"
      then some (parse_u64 value flag >>= (λ n. ok (record a { workers = to_int n })))
      else none

  -- The flags without one.
  set_switch : Text → Arguments → Option Arguments
  set_switch flag a =
      let name = string_of flag in
      if name ≗ "--all-cases"
      then some (record a { all_cases = true })
      else if name ≗ "--all-algorithms"
      then some (record a { all_algorithms = true })
      else if name ≗ "--list-algorithms"
      then some (record a { list_algorithms = true })
      else if name ≗ "--list-problems"
      then some (record a { list_problems = true })
      else if name ≗ "--self-check"
      then some (record a { self_check = true })
      else if name ≗ "--check-ise-rename"
      then some (record a { check_ise_rename = true })
      else none

  abbrev goes_on :
      Option Arguments → (Arguments → Result (Option Arguments)) → Text → Result (Option Arguments)
  goes_on (some a) rest flag = rest a
  goes_on none rest flag =
      if string_of flag ≗ "--help" || string_of flag ≗ "-h"
      then ok none
      else err (runtime_error ("unknown argument: " <> string_of flag))

  -- The loop over `argv`; it returns `none` where the program prints its usage and exits.
  arguments_from : List Text → Arguments → Result (Option Arguments)
  unfolding set_value set_switch
  arguments_from [] a = ok (some a)
  arguments_from (flag ∷ []) a = elim (set_value flag [] a) [
    | some taken ↦ err (runtime_error ("missing value after " <> string_of flag))
    | none ↦ goes_on (set_switch flag a) (λ b. ok (some b)) flag
  ]
  arguments_from (flag ∷ value ∷ rest) a = elim (set_value flag value a) [
    | some taken ↦ taken >>= (λ b. arguments_from rest b)
    | none ↦ goes_on (set_switch flag a) (λ b. arguments_from (value ∷ rest) b) flag
  ]

  abbrev exclusive : Option Arguments → Result (Option Arguments)
  exclusive none = ok none
  exclusive (some a) =
      throw_if (a.all_algorithms && not (is_empty a.algorithms))
        (runtime_error "--all-algorithms and --algorithms are mutually exclusive")
      >> ok (some a)

  unfoldable pub parse_arguments : List Text → Result (Option Arguments)
  unfolding arguments_from
  parse_arguments argv = arguments_from argv defaults >>= exclusive
