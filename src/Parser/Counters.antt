-- ===== src/Parser/Counters.antt =====
-- The counters of the engine across `dispatch` and `run` of include/Parser.hpp, on any bytes.
use itchparser.Prelude.{
  ℕ, zero, suc, ◌+◌, ◌≡◌, refl, Bool, some, List, [], ◌∷◌, inl, inr, ◌==◌, length, drop, subst,
  Bool-cases, Option-cases,
}
use mathlib.Core.Option.{some-injective}
use itchparser.Endian.{Bytes, byte, load_be16}
use itchparser.Wire.{field}
use itchparser.Wire
use itchparser.RunStats.{on_message, on_parse_error}
use itchparser.Engine.State.{MatchingEngine}
use itchparser.Engine.Info.{
  DirectoryFields, on_stock_directory, on_trading_action, on_reg_sho, on_non_cross_trade,
  on_broken_trade,
}
use itchparser.Engine.Counters.{IsSound}
use itchparser.Engine.Sound.{Steady, on_add_order-Steady}
use itchparser.Engine.Steady.{
  on_order_executed-Steady, on_order_executed_with_price-Steady, on_order_cancel-Steady,
  on_order_delete-Steady, on_order_replace-Steady, on_cross_trade-Steady,
}
use itchparser.Parser.Handlers
use itchparser.Parser.Handlers.{
  Session, Handler, checked_cast, guarded, add_act, add_mpid_act, replace_act, directory_act,
}
use itchparser.Parser.Dispatch.{switch, cases, dispatch}
use itchparser.Parser.Rounds.{round-cases, run_from-Short, run_from-empty, run_from-Full}
use itchparser.Parser.Run.{run_from, run}

-- A change of the session that keeps the counters of the engine consistent.
abbrev SteadyHandler : Handler → Type 0
SteadyHandler h =
    (p : Bytes) (len : ℕ) (s : Session) → IsSound s.engine.stats → IsSound (h p len s).engine.stats

on_stock_directory-Steady :
    (locate : ℕ) (symbol : List ℕ) (d : DirectoryFields)
    → Steady (on_stock_directory locate symbol d)
unfolding on_stock_directory
on_stock_directory-Steady locate symbol d e v = elim (Option-cases (e.instruments.slots locate)) [
  | inl h ↦
      rw (on_stock_directory, h)
        (record { exhausted = v.exhausted; orders = v.orders; levels = v.levels })
  | inr (i, h) ↦ rw (on_stock_directory, h) v
]

on_trading_action-Steady : (locate state : ℕ) → Steady (on_trading_action locate state)
unfolding on_trading_action
on_trading_action-Steady locate state e v = elim (Option-cases (e.instruments.slots locate)) [
  | inl h ↦ rw (on_trading_action, h) v
  | inr (i, h) ↦ rw (on_trading_action, h) v
]

on_reg_sho-Steady : (locate action : ℕ) → Steady (on_reg_sho locate action)
unfolding on_reg_sho
on_reg_sho-Steady locate action e v = elim (Option-cases (e.instruments.slots locate)) [
  | inl h ↦ rw (on_reg_sho, h) v
  | inr (i, h) ↦ rw (on_reg_sho, h) v
]

guarded-Steady :
    (msg : Wire.Layout) (act : Bytes → MatchingEngine → MatchingEngine)
    → ((m : Bytes) → Steady (act m))
    → SteadyHandler (guarded msg act)
unfolding guarded
guarded-Steady msg act k p len s v = elim (Option-cases (checked_cast msg p len)) [
  | inl h ↦ rw (guarded, h) v
  | inr (m, h) ↦ rw (guarded, h) (k m s.engine v)
]

abbrev AllSteady : List (ℕ × Handler) → Type 0
AllSteady [] = Unit {0}
AllSteady ((t, h) ∷ cs) = SteadyHandler h × AllSteady cs

module _ (little : Bool) where
  cases-AllSteady : AllSteady (cases little)
  unfolding cases directory_act add_act add_mpid_act replace_act on_non_cross_trade on_broken_trade
      Handlers.handle_system_event Handlers.handle_stock_directory
      Handlers.handle_stock_trading_action Handlers.handle_reg_sho
      Handlers.handle_market_participant Handlers.handle_mwcb_decline Handlers.handle_mwcb_status
      Handlers.handle_ipo_quoting_period Handlers.handle_luld_auction_collar
      Handlers.handle_operational_halt Handlers.handle_add_order Handlers.handle_order_executed
      Handlers.handle_order_executed_price Handlers.handle_order_cancel Handlers.handle_order_delete
      Handlers.handle_order_replace Handlers.handle_non_cross_trade Handlers.handle_cross_trade
      Handlers.handle_broken_trade Handlers.handle_noii Handlers.handle_rpii Handlers.handle_dlcr
  cases-AllSteady = (
    guarded-Steady Wire.system_event_msg _ (λ m. λ e v. v),
    (
      guarded-Steady Wire.stock_directory_msg (directory_act little)
          (λ m. on_stock_directory-Steady _ _ _),
      (
        guarded-Steady Wire.stock_trading_action_msg _ (λ m. on_trading_action-Steady _ _),
        (
          guarded-Steady Wire.reg_sho_msg _ (λ m. on_reg_sho-Steady _ _),
          (
            guarded-Steady Wire.market_participant_position_msg _ (λ m. λ e v. v),
            (
              guarded-Steady Wire.mwcb_decline_level_msg _ (λ m. λ e v. v),
              (
                guarded-Steady Wire.mwcb_status_msg _ (λ m. λ e v. v),
                (
                  guarded-Steady Wire.ipo_quoting_period_update_msg _ (λ m. λ e v. v),
                  (
                    guarded-Steady Wire.luld_auction_collar_msg _ (λ m. λ e v. v),
                    (
                      guarded-Steady Wire.operational_halt_msg _ (λ m. λ e v. v),
                      (
                        guarded-Steady Wire.add_order_msg (add_act little)
                            (λ m. on_add_order-Steady _ _ _),
                        (
                          guarded-Steady Wire.add_order_mpid_msg (add_mpid_act little)
                              (λ m. on_add_order-Steady _ _ _),
                          (
                            guarded-Steady Wire.order_executed_msg _
                                (λ m. on_order_executed-Steady _ _ _),
                            (
                              guarded-Steady Wire.order_executed_with_price_msg _
                                  (λ m. on_order_executed_with_price-Steady _ _ _),
                              (
                                guarded-Steady Wire.order_cancel_msg _
                                    (λ m. on_order_cancel-Steady _ _ _),
                                (
                                  guarded-Steady Wire.order_delete_msg _
                                      (λ m. on_order_delete-Steady _ _),
                                  (
                                    guarded-Steady Wire.order_replace_msg (replace_act little)
                                        (λ m. on_order_replace-Steady _ _ _),
                                    (
                                      guarded-Steady Wire.non_cross_trade_msg _ (λ m. λ e v.
                                          record {
                                            exhausted = v.exhausted;
                                            orders = v.orders;
                                            levels = v.levels;
                                          }),
                                      (
                                        guarded-Steady Wire.cross_trade_msg _
                                            (λ m. on_cross_trade-Steady _ _),
                                        (
                                          guarded-Steady Wire.broken_trade_msg _ (λ m. λ e v.
                                              record {
                                                exhausted = v.exhausted;
                                                orders = v.orders;
                                                levels = v.levels;
                                              }),
                                          (
                                            guarded-Steady Wire.noii_msg _ (λ m. λ e v. v),
                                            (
                                              guarded-Steady
                                                  Wire.retail_price_improvement_indicator_msg _
                                                  (λ m. λ e v. v),
                                              (guarded-Steady Wire.dlcr_msg _ (λ m. λ e v. v), tt),
                                            ),
                                          ),
                                        ),
                                      ),
                                    ),
                                  ),
                                ),
                              ),
                            ),
                          ),
                        ),
                      ),
                    ),
                  ),
                ),
              ),
            ),
          ),
        ),
      ),
    ),
  )

  switch-Steady :
      (cs : List (ℕ × Handler)) (type : ℕ) (h : Handler)
      → AllSteady cs
      → switch type cs ≡ some h
      → SteadyHandler h
  unfolding switch
  switch-Steady [] type h a at = absurd (cc)
  switch-Steady ((t, g) ∷ cs) type h a at = elim (Bool-cases (t == type)) [
    | inl e ↦
        let same : some g ≡ some h = rw e at at in subst SteadyHandler (some-injective g h same) a.0
    | inr e ↦ switch-Steady cs type h a.1 (rw e at at)
  ]

  dispatch-Steady : (type : ℕ) → SteadyHandler (dispatch little type)
  unfolding dispatch
  dispatch-Steady type p len s v = elim (Option-cases (switch type (cases little))) [
    | inl h ↦ rw (dispatch, h) v
    | inr (g, h) ↦
        rw (dispatch, h)
          (switch-Steady (cases little) type g cases-AllSteady h p len
            (record s { stats = on_message type len s.stats }) v)
  ]

  run_from-Steady :
      (f : ℕ) (p : Bytes) (c : ℕ) (s : Session)
      → IsSound s.engine.stats
      → IsSound (run_from little f p c s).1.engine.stats
  unfolding run_from
  run_from-Steady zero p c s v = v
  run_from-Steady (suc f) [] c s v = v
  run_from-Steady (suc f) (x ∷ []) c s v = v
  run_from-Steady (suc f) (x ∷ y ∷ q) c s v =
      let n = load_be16 little (x ∷ y ∷ q) in
      elim (round-cases n (length q)) [
        | inl r ↦ rw (run_from-Short little f x y q c s n refl r) v
        | inr (inl r) ↦
            rw (run_from-empty little f x y q c s r)
              (run_from-Steady f q (c + 2) (record s { stats = on_parse_error s.stats }) v)
        | inr (inr (r, t)) ↦ rw (run_from-Full little f x y q c s n refl r t) (
            run_from-Steady f (drop n q) (c + 2 + n) (dispatch little (byte q 0) q n s)
              (dispatch-Steady (byte q 0) q n s v))
      ]

  -- Whatever the buffer holds, the walk over it keeps the counters of the engine consistent: the
  -- count of exhausted pools stays the sum, modulo 2 ^ 64, of the three counts of what was rejected
  -- for one, and the counts of live orders and of live levels stay at or below their peaks.
  pub run-Steady :
      (buf : Bytes) (s : Session)
      → IsSound s.engine.stats
      → IsSound (run little buf s).1.engine.stats
  unfolding run
  run-Steady buf s v = run_from-Steady (length buf) buf 0 s v
