-- ===== src/Wflop/Report/Examples.antt =====
-- A record of hpc/wflop_cpp/src/main.cpp whose identifiers hold quotes, braces and backslashes.
use fode_hpc_wflop.Base.{
  ℕ, zero, suc, ℤ, pos, neg_part, pos_part, ◌+◌, [], ◌∷◌, ◌++◌, ◌≡◌, refl, All, ok, ◌>>=◌,
}
use fode_hpc_wflop.Text.{Text, chars}
use fode_hpc_wflop.Loader.Json.{start, matching_delimiter, raw_value, parse_string}
use fode_hpc_wflop.Loader.Json.Neutral.{IsPlain}
use fode_hpc_wflop.Wflop.Report.{escape_json, RunResult, Stream, to_json}
use fode_hpc_wflop.Wflop.Report.RoundTrip.{read_back}
use fode_hpc_wflop.Wflop.Report.Object.{IsNumeric, matching_delimiter-to_json}

-- Numbers as strokes.
strokes : ℕ → Text
strokes zero = chars "0"
strokes (suc n) = chars "1" ++ strokes n

strokes-IsPlain : (n : ℕ) → All IsPlain (strokes n)
unfolding strokes
strokes-IsPlain zero = ((refl, refl, refl), tt)
strokes-IsPlain (suc n) = ((refl, refl, refl), strokes-IsPlain n)

abbrev out : Stream ℤ
out = record {
  put_ℕ = strokes;
  put_ℤ = λ n. strokes (pos_part n + neg_part n);
  put_double = λ x. strokes (pos_part x + neg_part x);
}

out-IsNumeric : IsNumeric out
out-IsNumeric = record {
  plain_ℕ = strokes-IsPlain;
  plain_ℤ = λ n. strokes-IsPlain (pos_part n + neg_part n);
  plain_double = λ x. strokes-IsPlain (pos_part x + neg_part x);
}

abbrev result : RunResult ℤ
result = record {
  algorithm_id = chars "fo\"de}";
  method_id = chars "\\";
  algorithm_provenance = chars "{";
  effective_semantics_id = chars "";
  problem_id = chars "p";
  problem_semantics_id = chars "s";
  case_id = chars "small";
  seed = 3;
  physical_fes = 2;
  generations = 1;
  initial_population = 1;
  final_population = 1;
  requested_workers = pos 1;
  observed_workers = pos 1;
  best_expected_power_kw = pos 4;
  best_layout_1based = pos 1 ∷ pos 2 ∷ [];
  total_seconds = pos 0;
  evaluator_seconds = pos 0;
  algorithm_seconds = pos 0;
  pso_update_semantics = chars "}";
}

matching_delimiter-to_json_example :
    matching_delimiter "{" "}" start (to_json out result ++ chars "\n{")
    ≡ ok (to_json out result, chars "\n{")
matching_delimiter-to_json_example =
    matching_delimiter-to_json out out-IsNumeric result (chars "\n{")

read_back_example :
    (raw_value (chars "{\"id\":\"fo\\\"de}\",\"x\":1}") (chars "id") >>= parse_string)
    ≡ ok (chars "fo\"de}")
unfolding escape_json
read_back_example = read_back (chars "id") (chars "fo\"de}") (chars ",\"x\":1}")
