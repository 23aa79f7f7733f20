-- ===== src/Wflop/Arguments/Examples.antt =====
-- `parse_algorithm_list` and `parse_arguments` of hpc/wflop_cpp/src/main.cpp at a few texts.
use fode_hpc_wflop.Base.{
  ℕ, List, [], ◌∷◌, ◌≡◌, refl, All, true, false, is_empty, some, none, Result, ok, err,
  runtime_error, invalid_argument,
}
use fode_hpc_wflop.Text.{Text, chars}
use fode_hpc_wflop.Wflop.Report.{joined}
use fode_hpc_wflop.Wflop.Arguments.{defaults, parse_algorithm_list, parse_arguments}
use fode_hpc_wflop.Wflop.Arguments.Listed.{
  Full, parse_algorithm_list-joined, joined-parse_algorithm_list,
}

abbrev ids : List Text
ids = chars "aga" ∷ chars "fode" ∷ []

ids_read : parse_algorithm_list (chars "aga,fode") ≡ ok ids
unfolding parse_algorithm_list
ids_read = refl

-- a comma at the end
end_refused :
    parse_algorithm_list (chars "aga,")
    ≡ err (runtime_error "empty algorithm identifier in --algorithms")
unfolding parse_algorithm_list
end_refused = refl

parse_algorithm_list-joined_example : parse_algorithm_list (joined ids) ≡ ok ids
parse_algorithm_list-joined_example =
    parse_algorithm_list-joined (chars "aga") (chars "fode" ∷ [])
      ((refl, (refl, (refl, (refl, tt)))), ((refl, (refl, (refl, (refl, (refl, tt))))), tt))

joined-parse_algorithm_list_example :
    (joined ids ≡ chars "aga,fode") × All Full ids × (is_empty ids ≡ false)
joined-parse_algorithm_list_example = joined-parse_algorithm_list (chars "aga,fode") ids ids_read

-- A `std::stoull` that reads no number.
no_number : Text → Result (ℕ × ℕ)
no_number text = err (invalid_argument "stoull")

all_cases_set :
    parse_arguments no_number (chars "--all-cases" ∷ chars "--case" ∷ chars "WS1tn10" ∷ [])
    ≡ ok (some (record defaults { all_cases = true; case_id = "WS1tn10" }))
unfolding parse_arguments
all_cases_set = refl

value_missing :
    parse_arguments no_number (chars "--seed" ∷ [])
    ≡ err (runtime_error "missing value after --seed")
unfolding parse_arguments
value_missing = refl

usage_printed : parse_arguments no_number (chars "-h" ∷ chars "--no-flag" ∷ []) ≡ ok none
unfolding parse_arguments
usage_printed = refl
