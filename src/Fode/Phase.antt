-- ===== src/Fode/Phase.antt =====
-- `enum RandomPhase` of optimizer.cpp: the second key of each kind of draw.
use fode_hpc_wflop.Base.{ℕ}

abbrev pub initial_key : ℕ
initial_key = 10

abbrev pub memory_index : ℕ
memory_index = 20

abbrev pub normal_cr : ℕ
normal_cr = 21

abbrev pub cauchy_sf : ℕ
cauchy_sf = 22

abbrev pub r1 : ℕ
r1 = 23

abbrev pub r2 : ℕ
r2 = 24

abbrev pub p_best : ℕ
p_best = 25

abbrev pub cross : ℕ
cross = 26

abbrev pub j_rand : ℕ
j_rand = 27

abbrev pub repair_bound : ℕ
repair_bound = 28

abbrev pub repair_fill : ℕ
repair_fill = 29

abbrev pub archive_trim : ℕ
archive_trim = 30

abbrev pub local_k : ℕ
local_k = 40

abbrev pub local_mix : ℕ
local_mix = 41

abbrev pub local_mutation_flag : ℕ
local_mutation_flag = 42

abbrev pub local_mutation_value : ℕ
local_mutation_value = 43
