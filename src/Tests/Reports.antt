-- ===== src/Tests/Reports.antt =====
-- The command line, the mapping of files and the reports at concrete inputs.
use itchparser.Prelude.{
  ℕ, ◌+◌, ◌*◌, ◌-◌, ◌^◌, ◌<◌, ◌≡◌, inr, refl, Bool, true, false, none, some, List, [], ◌∷◌, ◌++◌,
  arith, codes, length, ltb, ◌==◌, take, if◌then◌else◌,
}
use itchparser.Types.{make_order, buy, k_max_instruments}
use itchparser.Level.{make_level}
use itchparser.Endian.{Bytes}
use itchparser.Instruments.{InstrumentMap, make_instruments, make_instrument, put}
use itchparser.Book.State.{make_book}
use itchparser.Report.{printed_rows}
use itchparser.Report.Listing.{IsRanking, listed, printed_rows_lem}
use itchparser.Mapping.{MMapFile, make_file, Answers, open_file, release, assign_from}
use itchparser.Mapping.Owners.{
  mapping, descriptor, after, owned, owned_by, open_file_lem, release_lem,
}
use itchparser.Program.{Config, go, configure}
use itchparser.Program.Options.{arguments, configure-arguments, configure-Sized}
use itchparser.Program.Process.{Memory, Clock}
use itchparser.Program.Sample.{sample, live_lines, sample_lem}

-- Three messages of type A and one of type D.
abbrev counters : ℕ → ℕ
counters t = if t == b'A' then 3 else (if t == b'D' then 1 else 0)

printed_rows_lem_example :
    IsRanking (printed_rows counters) × (listed b'D' (printed_rows counters) ≡ some 1)
printed_rows_lem_example = printed_rows_lem counters b'D' (omega arith)

-- Numbers in base ten, up to the first character that is no digit; none is too large.
abbrev digits_from : Bytes → ℕ → ℕ → ℕ × ℕ × Bool
digits_from [] v n = (v, n, false)
digits_from (c ∷ s) v n =
    if ltb c b'0' then (v, n, false) else digits_from s (v * 10 + c - b'0') (n + 1)

abbrev read_number : Bytes → ℕ × ℕ × Bool
read_number s = digits_from s 0 0

abbrev config : Config
config = record {
  path = codes "feed";
  log_path = codes "out.log";
  order_pool_size = 8;
  level_pool_size = 4;
}

configure-arguments_example :
    configure read_number (arguments (codes "8") (codes "4") config) ≡ go config
configure-arguments_example =
    configure-arguments read_number (codes "8") (codes "4") config refl refl (omega arith)
      (omega arith) (3, refl) (2, refl) (omega arith) refl refl

abbrev good : Answers
good = record {
  open_answer = inr 3;
  fstat_error = none;
  is_regular = true;
  st_size = 12;
  mmap_answer = inr 4096;
}

open_file_lem_example : after (open_file good).1 [] ≡ some (owned_by (open_file good).0 ++ [])
open_file_lem_example = open_file_lem good []

abbrev file : MMapFile
file = record { data_ = some 4096; size_ = 12; fd_ = some 3 }

abbrev other_file : MMapFile
other_file = record { data_ = some 8192; size_ = 7; fd_ = some 4 }

release_lem_example :
    (after (release file).1 (mapping 4096 12 ∷ descriptor 3 ∷ []) ≡ some [])
    × ((release file).0 ≡ make_file)
    × ((release (release file).0).1 ≡ [])
    × (after (assign_from file other_file).2 (owned file ++ (owned other_file ++ []))
        ≡ some (owned other_file ++ []))
    × ((assign_from file other_file).0 ≡ other_file)
    × ((assign_from file other_file).1 ≡ make_file)
release_lem_example = release_lem file other_file []

abbrev memory : Memory
memory = record {
  allocate = λ n. ltb n 4096;
  orders = λ _. make_order 0 0 0 0 buy 0 [];
  levels = λ _. make_level;
  raw_orders = λ _. none;
  raw_levels = λ _. none;
}

abbrev clock : Clock
clock = record { start_time = 1; end_time = 2 }

abbrev command : List Bytes
command = arguments (codes "8") (codes "4") config

command-config : configure read_number command ≡ go config
command-config =
    configure-arguments read_number (codes "8") (codes "4") config refl refl (omega arith)
      (omega arith) (3, refl) (2, refl) (omega arith) refl refl

configure-Sized_example :
    ((k : ℕ) × (8 ≡ 2 ^ k)) × ((k : ℕ) × (4 ≡ 2 ^ k)) × (0 < length (codes "feed"))
configure-Sized_example = configure-Sized read_number command config command-config

abbrev frames : Bytes
frames = 0 ∷ 0 ∷ 0 ∷ 1 ∷ b'Z' ∷ []

abbrev instruments : InstrumentMap
instruments =
    put 7
      (record make_instrument {
        locate = 7;
        book = some (record make_book { live_order_count = 2 });
      })
      make_instruments

sample_lem_example :
    sample (λ _. make_level) instruments
    ≡ take 10 (live_lines (λ _. make_level) instruments.slots k_max_instruments 0)
sample_lem_example = sample_lem (λ _. make_level) instruments
