-- ===== src/Wflop/Registry.antt =====
-- hpc/wflop_cpp/src/registry.cpp: the problems and the algorithms that the command line knows. Two
-- texts are the same when their code points are.
use Prim.Native.String.{◌++◌ as ◌<>◌}
use text.Mathlib.Text.{◌==◌ as ◌≗◌}
use fode_hpc_wflop.Base.{
  String, Bool, false, ◌||◌, List, [], ◌∷◌, map, Option, none, some, if◌then◌else◌, Result, ok, err,
  invalid_argument, ◌>>=◌,
}

pub record ProblemDescriptor : Type 0 where
  pub id : String
  pub display_label : String
  pub semantics_id : String
  pub objective : String

pub record AlgorithmDescriptor : Type 0 where
  pub id : String
  pub display_label : String
  pub paper_doi : String
  pub provenance : String
  pub semantics_id : String
  pub compatible_problem_ids : List String

unfoldable pub problem_descriptors : List ProblemDescriptor
problem_descriptors =
    record {
      id = "fode_e0_common";
      display_label = "FODE-E0-L common 50-case benchmark";
      semantics_id = "fode_wflop_e0_legacy_v1";
      objective =
          "maximize expected complete-farm power under the frozen Jensen/Park discrete-grid model";
    }
    ∷ record {
      id = "bde2025_source_replay_ws1_ws4";
      display_label = "BDE official-source WS1-WS4 replay problem";
      semantics_id = "bde2025_source_replay_ws1_ws4_v1";
      objective =
          "maximize expected complete-farm power on the official-source standard and Daegwallyeong discrete grids";
    }
    ∷ record {
      id = "rpso2024_source_problem_ws1_ws4";
      display_label = "RPSO official-source WS1-WS4 problem";
      semantics_id = "rpso2024_source_problem_ws1_ws4_v1";
      objective =
          "maximize expected complete-farm power on the official-source 21 by 21 standard grid";
    }
    ∷ []

unfoldable pub algorithm_descriptors : List AlgorithmDescriptor
algorithm_descriptors =
    record {
      id = "fode";
      display_label = "FODE";
      paper_doi = "10.3390/math13020282";
      provenance = "archived_matlab_source";
      semantics_id = "fode_e0_physical_fes";
      compatible_problem_ids = "fode_e0_common" ∷ [];
    }
    ∷ record {
      id = "aga";
      display_label = "AGA";
      paper_doi = "10.1016/j.apenergy.2019.04.084";
      provenance = "paper_first_archived_matlab_completed";
      semantics_id = "aga_paper_first_e0_physical_fes_v1";
      compatible_problem_ids = "fode_e0_common" ∷ [];
    }
    ∷ record {
      id = "sugga";
      display_label = "SUGGA";
      paper_doi = "10.1016/j.enconman.2019.06.082";
      provenance = "archived_matlab_source_and_frozen_surrogate";
      semantics_id = "sugga_frozen_surrogate_e0_physical_fes_v1";
      compatible_problem_ids = "fode_e0_common" ∷ [];
    }
    ∷ record {
      id = "ise";
      display_label = "ISE";
      paper_doi = "10.1016/j.engappai.2023.106198";
      provenance = "paper_derived";
      semantics_id = "ise_paper_derived_e0_physical_fes_v1";
      compatible_problem_ids = "fode_e0_common" ∷ [];
    }
    ∷ record {
      id = "agpso";
      display_label = "AGPSO";
      paper_doi = "10.1016/j.enconman.2022.116174";
      provenance = "paper_first_source_completed";
      semantics_id = "agpso_paper_staged_parallel_e0_physical_fes_v1";
      compatible_problem_ids = "fode_e0_common" ∷ [];
    }
    ∷ record {
      id = "cgpso";
      display_label = "CGPSO";
      paper_doi = "10.1109/jas.2023.123387";
      provenance = "paper_first_source_completed";
      semantics_id = "cgpso_paper_staged_parallel_e0_physical_fes_v1";
      compatible_problem_ids = "fode_e0_common" ∷ "rpso2024_source_problem_ws1_ws4" ∷ [];
    }
    ∷ record {
      id = "lshade";
      display_label = "LSHADE";
      paper_doi = "10.1109/CEC.2014.6900380";
      provenance = "paper_first_archived_matlab_completed";
      semantics_id = "lshade_paper_first_e0_physical_fes_v1";
      compatible_problem_ids = "fode_e0_common" ∷ [];
    }
    ∷ record {
      id = "clshade";
      display_label = "CLSHADE";
      paper_doi = "10.1016/j.asoc.2023.110306";
      provenance = "paper_derived";
      semantics_id = "clshade_paper_derived_e0_physical_fes_v1";
      compatible_problem_ids = "fode_e0_common" ∷ [];
    }
    ∷ record {
      id = "cede";
      display_label = "CEDE";
      paper_doi = "10.3390/math12233762";
      provenance = "paper_first_local_source_discrepancy_registered";
      semantics_id = "cede_paper_equations_physical_fes_v1";
      compatible_problem_ids = "fode_e0_common" ∷ [];
    }
    ∷ record {
      id = "msshade";
      display_label = "MS-SHADE";
      paper_doi = "10.3390/electronics13163196";
      provenance = "paper_first_local_source_discrepancy_registered";
      semantics_id = "msshade_paper_equations_physical_fes_v1";
      compatible_problem_ids = "fode_e0_common" ∷ [];
    }
    ∷ record {
      id = "bde";
      display_label = "BDE";
      paper_doi = "10.1016/j.energy.2025.137885";
      provenance = "paper_first_official_source_discrepancy_registered";
      semantics_id = "bde_paper_equations_physical_fes_v1";
      compatible_problem_ids = "fode_e0_common" ∷ "bde2025_source_replay_ws1_ws4" ∷ [];
    }
    ∷ record {
      id = "hgpso";
      display_label = "HGPSO";
      paper_doi = "10.26599/tst.2026.9010059";
      provenance = "paper_first_local_source_discrepancy_registered";
      semantics_id = "hgpso_paper_equations_physical_fes_v1";
      compatible_problem_ids = "fode_e0_common" ∷ [];
    }
    ∷ record {
      id = "aiga";
      display_label = "AIGA";
      paper_doi = "10.1007/s42235-024-00498-3";
      provenance = "paper_derived_explicit_reconstruction";
      semantics_id = "aiga_paper_derived_e0_physical_fes_v1";
      compatible_problem_ids = "fode_e0_common" ∷ [];
    }
    ∷ record {
      id = "ciga";
      display_label = "CIGA";
      paper_doi = "10.1145/3766671.3766786";
      provenance = "paper_derived_explicit_reconstruction";
      semantics_id = "ciga_paper_derived_e0_physical_fes_v1";
      compatible_problem_ids = "fode_e0_common" ∷ [];
    }
    ∷ record {
      id = "lsde";
      display_label = "LSDE";
      paper_doi = "10.1049/cit2.70150";
      provenance = "paper_derived_explicit_reconstruction";
      semantics_id = "lsde_paper_derived_e0_physical_fes_v1";
      compatible_problem_ids = "fode_e0_common" ∷ [];
    }
    ∷ record {
      id = "wfadde";
      display_label = "WFADDE";
      paper_doi = "10.2139/ssrn.6135326";
      provenance = "preprint_derived_explicit_reconstruction";
      semantics_id = "wfadde_preprint_derived_e0_physical_fes_v1";
      compatible_problem_ids = "fode_e0_common" ∷ [];
    }
    ∷ record {
      id = "alshade";
      display_label = "A-LSHADE";
      paper_doi = "10.1109/pic62406.2024.10892732";
      provenance = "paper_derived_explicit_reconstruction";
      semantics_id = "alshade_paper_derived_e0_physical_fes_v1";
      compatible_problem_ids = "fode_e0_common" ∷ [];
    }
    ∷ record {
      id = "ppga";
      display_label = "PPGA";
      paper_doi = "10.1109/jas.2025.125351";
      provenance = "paper_derived_declared_problem_transfer";
      semantics_id = "ppga_declared_reconstruction_fode_e0_v1";
      compatible_problem_ids = "fode_e0_common" ∷ [];
    }
    ∷ []

-- `std::find_if` over the descriptors
unfoldable pub find_problem : String → List ProblemDescriptor → Option ProblemDescriptor
find_problem id [] = none
find_problem id (d ∷ ds) = let rest = find_problem id ds in if d.id ≗ id then some d else rest

unfoldable pub find_algorithm : String → List AlgorithmDescriptor → Option AlgorithmDescriptor
find_algorithm id [] = none
find_algorithm id (d ∷ ds) = let rest = find_algorithm id ds in if d.id ≗ id then some d else rest

-- What was found, or the exception with the text.
unfoldable pub found {ℓ} : {A : Type ℓ} → String → Option A → Result A
found text none = err (invalid_argument text)
found text (some a) = ok a

unfoldable pub problem_descriptor : String → Result ProblemDescriptor
unfolding found
problem_descriptor id = found ("unknown problem: " <> id) (find_problem id problem_descriptors)

unfoldable pub algorithm_descriptor : String → Result AlgorithmDescriptor
unfolding found
algorithm_descriptor id =
    found ("unknown algorithm: " <> id) (find_algorithm id algorithm_descriptors)

pub algorithm_ids : List String
algorithm_ids = map (λ d. d.id) algorithm_descriptors

-- `std::find(...) != end`
unfoldable pub is_listed : String → List String → Bool
is_listed id [] = false
is_listed id (x ∷ xs) = x ≗ id || is_listed id xs

unfoldable pub algorithm_supports_problem : String → String → Result Bool
algorithm_supports_problem algorithm_id problem_id = do
  descriptor ← algorithm_descriptor algorithm_id
  ok (is_listed problem_id descriptor.compatible_problem_ids)
