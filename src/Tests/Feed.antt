-- ===== src/Tests/Feed.antt =====
-- A small feed through the whole engine.
use itchparser.Prelude.{
  ℕ, ◌+◌, ◌≤◌, ◌≡◌, refl, true, false, none, List, [], ◌∷◌, ◌++◌, arith, length,
}
use itchparser.Types.{Ptr, make_order, buy}
use itchparser.Level.{make_level}
use itchparser.Endian.{Bytes}
use itchparser.Endian.RoundTrip.{to_be}
use itchparser.Wire.{wire_payload_size}
use itchparser.RunStats.{reset, on_message, on_parse_error, on_truncated}
use itchparser.Index
use itchparser.Pool.{link_pool}
use itchparser.Engine.State.{MatchingEngine, engine_with}
use itchparser.Engine.Counters.{IsSound, make_stats-IsSound}
use itchparser.Parser.Handlers.{Session}
use itchparser.Parser.Dispatch.{dispatch}
use itchparser.Parser.Run.{run_from, run}
use itchparser.Parser.Registry.{dispatch-short, dispatch-unknown}
use itchparser.Parser.Messages.{
  Message, add, executed, delete, replace, Header, Symbol, encode, type_of, deliver,
}
use itchparser.Parser.Decode.{dispatch-encode}
use itchparser.Parser.Rounds.{run_from-enough, run-le, run-cut}
use itchparser.Parser.Framing.{feed, after_all, run-feed}
use itchparser.Parser.Counters.{run-Steady}

abbrev start : Session
start = record {
  engine =
      engine_with (link_pool 8 (λ _. none)) (link_pool 4 (λ _. none))
        (λ _. make_order 0 0 0 0 buy 0 []) (λ _. make_level);
  stats = reset 0;
}

abbrev header : Header
header = record { locate = 7; tracking = 0; ts = 9 }

abbrev symbol : Symbol
symbol = record {
  s0 = b'A';
  s1 = b'B';
  s2 = b' ';
  s3 = b' ';
  s4 = b' ';
  s5 = b' ';
  s6 = b' ';
  s7 = b' ';
}

abbrev bid : ℕ → ℕ → ℕ → Message
bid id qty px = add header id b'B' qty symbol px

-- Three bids, and an execution that fills the second.
abbrev messages : List Message
messages = bid 1 10 5 ∷ bid 2 20 6 ∷ bid 3 30 6 ∷ executed header 2 20 1 ∷ []

-- An empty frame, and a frame of an unknown type.
abbrev rest : Bytes
rest = 0 ∷ 0 ∷ 0 ∷ 3 ∷ b'Z' ∷ 1 ∷ 2 ∷ []

abbrev out : ℕ × Session
out = run true (feed messages ++ rest) start

abbrev counts : ℕ × ℕ × ℕ × ℕ × ℕ
counts = (
  out.0, out.1.stats.total_messages, out.1.stats.parse_errors, out.1.engine.stats.live_orders,
  out.1.engine.stats.live_levels,
)

out-counts : counts ≡ (154, 5, 2, 2, 2)
unfolding run feed encode dispatch engine_with link_pool itchparser.Endian.load_be16
    itchparser.Parser.Dispatch.switch itchparser.Parser.Dispatch.cases on_message
    itchparser.Parser.Handlers.handle_order_executed itchparser.Wire.size_of
    itchparser.Parser.Handlers.handle_add_order reset itchparser.Engine.Reduce.on_order_executed
    itchparser.Engine.Add.on_add_order itchparser.Wire.field itchparser.FlatMap.find
    itchparser.Endian.load_be64 itchparser.FlatMap.insert itchparser.FlatMap.hash
    itchparser.Endian.load_be32
out-counts = refl

run-feed_example : run true (feed messages ++ rest) start ≡ (
  length (feed messages) + (run true rest (after_all messages start)).0,
  (run true rest (after_all messages start)).1,
)
run-feed_example = run-feed true messages rest start (
  ((omega arith, omega arith), omega arith, omega arith, omega arith),
  (
    ((omega arith, omega arith), omega arith, omega arith, omega arith),
    (
      ((omega arith, omega arith), omega arith, omega arith, omega arith),
      (((omega arith, omega arith), omega arith, omega arith), tt),
    ),
  ),
)

run-Steady_example : IsSound (run true (feed messages ++ rest) start).1.engine.stats
unfolding engine_with
run-Steady_example = run-Steady true (feed messages ++ rest) start make_stats-IsSound

dispatch-encode_example :
    dispatch false b'D' (encode (delete header 3) ++ rest) (length (encode (delete header 3))) start
    ≡ record start {
      engine = deliver (delete header 3) start.engine;
      stats = on_message b'D' (length (encode (delete header 3))) start.stats;
    }
unfolding type_of
dispatch-encode_example =
    dispatch-encode false rest (delete header 3) start ((omega arith, omega arith), omega arith)

dispatch-short_example :
    dispatch true b'E' (b'E' ∷ 0 ∷ 7 ∷ []) 3 start
    ≡ record start { stats = on_truncated (on_message b'E' 3 start.stats) }
unfolding wire_payload_size
dispatch-short_example = dispatch-short true b'E' (b'E' ∷ 0 ∷ 7 ∷ []) 3 start (omega arith)

dispatch-unknown_example :
    dispatch true b'Z' (b'Z' ∷ 0 ∷ 7 ∷ []) 3 start
    ≡ record start { stats = on_parse_error (on_message b'Z' 3 start.stats) }
unfolding wire_payload_size
dispatch-unknown_example = dispatch-unknown true b'Z' (b'Z' ∷ 0 ∷ 7 ∷ []) 3 start refl

run-le_example : (run true (feed messages ++ rest) start).0 ≤ length (feed messages ++ rest)
run-le_example = run-le true (feed messages ++ rest) start

run_from-enough_example : run_from true 7 rest 0 start ≡ run_from true 100 rest 0 start
run_from-enough_example = run_from-enough true 7 100 rest 0 start (omega arith) (omega arith)

run-cut_example :
    run false (to_be 2 36 ++ (b'A' ∷ 0 ∷ [])) start
    ≡ (2, record start { stats = on_parse_error start.stats })
run-cut_example = run-cut false 36 (b'A' ∷ 0 ∷ []) start (omega arith) (omega arith)

-- With one level in the pool: two bids at one price, and a replacement of the first at another
-- price.
abbrev tight : Session
tight = record start {
  engine =
      engine_with (link_pool 8 (λ _. none)) (link_pool 1 (λ _. none))
        (λ _. make_order 0 0 0 0 buy 0 []) (λ _. make_level);
}

abbrev replaced : MatchingEngine
replaced =
    deliver (replace header 1 9 10 6) (deliver (bid 2 20 5) (deliver (bid 1 10 5) tight.engine))

abbrev kept : Ptr × Ptr × ℕ × ℕ
kept = (
  Index.find 1 replaced.order_index replaced.arena.orders,
  Index.find 9 replaced.order_index replaced.arena.orders,
  replaced.stats.live_orders,
  replaced.stats.add_rejected_level_pool_exhausted,
)

-- Neither the old id nor the new one is in the index.
replaced-kept : kept ≡ (none, none, 1, 1)
unfolding deliver engine_with link_pool Index.find itchparser.Engine.Replace.on_order_replace
    itchparser.Engine.Add.on_add_order itchparser.FlatMap.find itchparser.FlatMap.insert
    itchparser.FlatMap.hash
replaced-kept = refl
