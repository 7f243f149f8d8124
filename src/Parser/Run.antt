-- ===== src/Parser/Run.antt =====
-- `run` of include/Parser.hpp: the walk over the length-prefixed frames. The state of the loop is
-- the buffer from `p` on and `p - buf`. A round moves `p` by two bytes at least, so as many rounds
-- as there are bytes are enough.
use itchparser.Prelude.{ℕ, zero, suc, ◌+◌, Bool, true, false, ltb, ◌==◌, length, drop}
use itchparser.Endian.{Bytes, byte, load_be16}
use itchparser.RunStats.{on_parse_error}
use itchparser.Parser.Handlers.{Session}
use itchparser.Parser.Dispatch.{dispatch}

module _ (little : Bool) where
  unfoldable pub run_from : ℕ → Bytes → (consumed : ℕ) → Session → ℕ × Session
  unfolding on_parse_error
  run_from zero p consumed s = (consumed, s)
  run_from (suc f) p consumed s = elim (ltb (length p) 2) [
    | true ↦ (consumed, s)
    | false ↦
        let payload_len = load_be16 little p in
        let payload = drop 2 p in
        elim (ltb (length payload) payload_len) [
          | true ↦ (consumed + 2, record s { stats = on_parse_error s.stats })
          | false ↦ elim (payload_len == 0) [
            | true ↦ run_from f payload (consumed + 2) (record s { stats = on_parse_error s.stats })
            | false ↦
                run_from f (drop payload_len payload) (consumed + 2 + payload_len)
                  (dispatch little (byte payload 0) payload payload_len s)
          ]
        ]
  ]

  unfoldable pub run : Bytes → Session → ℕ × Session
  unfolding run_from
  run buf s = run_from (length buf) buf 0 s
