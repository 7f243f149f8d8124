-- ===== src/RunStats.antt =====
-- The counters of `Stats` in include/Stats.hpp. `now` is what `steady_clock::now()` returns.
use itchparser.Prelude.{ℕ, update, inc64, add64}

pub record Stats : Type 0 where
  pub per_type : ℕ → ℕ
  pub total_messages : ℕ
  pub total_bytes : ℕ
  pub total_framing_bytes : ℕ
  pub parse_errors : ℕ
  pub truncated_messages : ℕ
  pub start_time : ℕ
  pub end_time : ℕ

unfoldable pub reset : (now : ℕ) → Stats
reset now = record {
  per_type = λ _. 0;
  total_messages = 0;
  total_bytes = 0;
  total_framing_bytes = 0;
  parse_errors = 0;
  truncated_messages = 0;
  start_time = now;
  end_time = now;
}

unfoldable pub finish : (now : ℕ) → Stats → Stats
finish now st = record st { end_time = now }

unfoldable pub on_message : (type payload_size : ℕ) → Stats → Stats
on_message type payload_size st = record st {
  per_type = update st.per_type type (inc64 (st.per_type type));
  total_messages = inc64 st.total_messages;
  total_bytes = add64 st.total_bytes payload_size;
  total_framing_bytes = add64 st.total_framing_bytes 2;
}

unfoldable pub on_parse_error : Stats → Stats
on_parse_error st = record st { parse_errors = inc64 st.parse_errors }

unfoldable pub on_truncated : Stats → Stats
on_truncated st = record st { truncated_messages = inc64 st.truncated_messages }
