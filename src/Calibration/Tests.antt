-- ===== src/Calibration/Tests.antt =====
-- Runs of calibration.c, and its theorems at concrete inputs.
use cgroup_research.Prelude.{
  if◌then◌else◌, ◌==◌, inl, ◌||◌, ◌&&◌, ltb, leb, ℕ, ◌%◌, ◌+◌, ◌*◌, ◌/◌, ◌≡◌, refl, true, false,
  Option, some, none, [], ◌∷◌, ◌++◌, pos, codes, arith,
}
use cgroup_research.Prelude.Word.{Text}
use cgroup_research.Prelude.Double.{fixed_point}
use cgroup_research.Cgroup.Tree.{eq_text}
use cgroup_research.BankProfile.Sampling.{starts_with}
use cgroup_research.Activity.Stat.{from}
use cgroup_research.DramMapping.Mapping.{init_from_calibration}
use cgroup_research.Calibration.Json.{read_string}
use cgroup_research.Calibration.Result.{ResultFile, load_result}
use cgroup_research.Calibration.Worker.{Blocking, ChildStatus, Polled, Waited, Waiting, wait_child}
use cgroup_research.Calibration.Waits.{Ticks, IsTicking, Reported, wait_child-returns}
use cgroup_research.Calibration.Taken.{Taken, load_result-Taken}
use cgroup_research.Calibration.Run.{
  CalibrationConfig, Launch, RunAnswers, worker_arguments, calibration_run,
}
use cgroup_research.Calibration.Runs.{Ran, calibration_run-Ran}
use cgroup_research.Calibration.Strings.{PrintsJson, read_string-print}
use cgroup_research.Cgroup.Decimal.{digits_onto, print_pid}
use cgroup_research.Calibration.Masks.{extract_u64}

-- A result file without spaces.
abbrev json : Text
json =
    codes
      "{\"status\":\"success\",\"acceptance\":{\"passed\":true},\"bank_masks\":[\"0x2040\", \"64\"],"
    ++ codes
        "\"mask_set_id\":\"two\",\"metrics\":{\"holdout\":{\"tp\":5,\"tn\":4,\"fp\":0,\"fn\":1,"
    ++ codes "\"accuracy\":1,\"precision\":1,\"recall\":1,\"f1\":1}}}"

abbrev strtod : Text → Option (ℕ × ℕ)
strtod s = some (10000, 1)

abbrev file : ResultFile
file = record {
  opens = true;
  seeks_end = true;
  size = pos 250;
  seeks_start = true;
  allocates = true;
  content = some json;
  file_closes = true;
}

-- The worker exits with 0 in the first turn.
abbrev exits : Waiting
exits = record {
  start = some (5, 0);
  turns = λ i. record { polled = Polled.reaped (ChildStatus.exited 0); clock = some (5 + i, 0) };
  ending_start = some (5, 0);
  ending_turns = λ i. record { polled = Polled.running; clock = some (5 + i, 0) };
  reaps = λ i. if i == 0 then Blocking.interrupted else Blocking.returned;
}

-- The worker runs until it is killed, and every turn takes a second.
abbrev hangs : Waiting
hangs = record exits { turns = λ i. record { polled = Polled.running; clock = some (5 + i, 0) } }

a_second_each :
    {polled : Polled} → Ticks 5000 (λ i. record { polled = polled; clock = some (5 + i, 0) })
a_second_each {polled} = record {
  now = λ i. (5 + i) * 1000 + 0 / 1000000;
  reads = λ i. refl;
  goes_on = λ i. omega arith;
}

hangs-IsTicking : IsTicking hangs
hangs-IsTicking = record {
  start = 5000;
  start_read = refl;
  ticks = a_second_each;
  uninterrupted = λ i h. cc;
  ending_start = 5000;
  ending_start_read = refl;
  ending_ticks = a_second_each;
  last = 1;
  reaped = record { over = inl refl; interrupted = λ i l. ground arith };
}

wait_child-returns_example :
    (waited : Waited) × (wait_child 31 hangs 3 ≡ some waited)
    × Reported 5000 3000 hangs.turns waited
unfolding hangs-IsTicking
wait_child-returns_example =
    wait_child-returns 31 hangs 3 hangs-IsTicking (omega arith) (omega arith) (omega arith)
      (omega arith)

abbrev config : CalibrationConfig ℕ
config = record {
  worker_path = some (codes "kk_calibration.py");
  kk_main_path = none;
  result_path = some (codes "dram-map.json");
  work_dir = some (codes "kk");
  log_path = none;
  runs = 3;
  memory_percent = 500000;
  measurements = 100;
  timing_rounds = 10;
  timeout_sec = 3;
  keep_csv = false;
}

abbrev run_answers : RunAnswers
run_answers = record { removed = true; launch = Launch.launched; waiting = exits; file = file }

calibration_run-Ran_example :
    Ran 31 strtod run_answers (some config) (calibration_run 31 strtod run_answers (some config))
calibration_run-Ran_example = calibration_run-Ran 31 strtod run_answers (some config)

abbrev hex : ℕ → ℕ
hex n = if ltb n 10 then 48 + n else 87 + n

-- The print of a string of code points below 65536, as the documentation has it.
abbrev json_print : Text → Text
json_print [] = []
json_print (c ∷ s) =
    let rest = json_print s in
    if c == 34 || c == 92
    then 92 ∷ c ∷ rest
    else if leb 32 c && leb c 126
    then c ∷ rest
    else if c == 10
    then 92 ∷ 110 ∷ rest
    else if c == 13
    then 92 ∷ 114 ∷ rest
    else if c == 9
    then 92 ∷ 116 ∷ rest
    else if c == 8
    then 92 ∷ 98 ∷ rest
    else if c == 12
    then 92 ∷ 102 ∷ rest
    else 92 ∷ 117 ∷ hex (c / 4096) ∷ hex (c / 256 % 16) ∷ hex (c / 16 % 16) ∷ hex (c % 16) ∷ rest

json_print-PrintsJson : PrintsJson json_print
json_print-PrintsJson = record {
  empty = refl;
  quote = λ s. refl;
  backslash = λ s. refl;
  plain = λ c s p q b. ground arith;
}

read_string-print_example :
    read_string 31 40 (json_print (codes "a\"b\\") ++ 34 ∷ codes ",") false ≡ some (codes "a\"b\\")
read_string-print_example =
    read_string-print json_print json_print-PrintsJson 31 40 (codes "a\"b\\") (codes ",")
      (ground arith) (omega arith) (omega arith)

load_result-Taken_example :
    Taken
      (load_result {W = ℕ} strtod file).1.result
      (init_from_calibration (load_result {W = ℕ} strtod file).1.result).0
unfolding load_result starts_with from eq_text
load_result-Taken_example = load_result-Taken strtod file refl

passes_its_arguments :
    worker_arguments (λ x. codes "50") config
    ≡ codes "kk_calibration.py"
      ∷ codes "--runs"
      ∷ codes "3"
      ∷ codes "--memory-percent"
      ∷ codes "50"
      ∷ codes "--measurements"
      ∷ codes "100"
      ∷ codes "--timing-rounds"
      ∷ codes "10"
      ∷ codes "--work-dir"
      ∷ codes "kk"
      ∷ codes "--output"
      ∷ codes "dram-map.json"
      ∷ []
unfolding worker_arguments print_pid digits_onto
passes_its_arguments = refl

-- A negative count is read as a word.
takes_a_negative_count :
    extract_u64 (record { text = codes "{\"tp\":-1}"; left = 9 }) (codes "tp")
    ≡ some 18446744073709551615
unfolding extract_u64 starts_with from
takes_a_negative_count = refl
