-- ===== src/Parser/Registry.antt =====
-- The switch of `dispatch` (include/Parser.hpp) against the registry `kMsgMeta` of
-- include/WireFormat.hpp.
use itchparser.Prelude.{
  ℕ, ◌≤◌, ◌<◌, ◌≡◌, refl, ◌≢◌, ◌⊎◌, inl, inr, Bool, true, false, none, some, List, [], ◌∷◌, arith,
  ◌==◌, Bool-cases, ◌∙◌, ap,
}
use itchparser.Endian.{Bytes}
use itchparser.Wire
use itchparser.Wire.{Layout, size_of, size_in, k_msg_meta, wire_payload_size}
use itchparser.RunStats.{on_message, on_truncated, on_parse_error}
use itchparser.Engine.State.{MatchingEngine}
use itchparser.Parser.Handlers
use itchparser.Parser.Handlers.{Session, Handler, checked_cast, guarded}
use itchparser.Parser.Dispatch.{switch, cases, dispatch}

-- A handler that checks the frame against a struct of the size.
abbrev pub Guards : Handler → ℕ → Type 0
Guards h n =
    (msg : Layout) × (act : Bytes → MatchingEngine → MatchingEngine) × (h ≡ guarded msg act)
    × (size_of msg ≡ n)

-- The cases and the registry name the same types in the same order, with the same sizes, none of
-- them 0.
abbrev pub Agree : List (ℕ × Handler) → List (ℕ × ℕ) → Type 0
Agree [] [] = Unit {0}
Agree [] (_ ∷ _) = ⊥
Agree (_ ∷ _) [] = ⊥
Agree ((t, h) ∷ cs) ((t', n) ∷ ms) = (t ≡ t') × (n ≢ 0) × Guards h n × Agree cs ms

switch-size :
    (cs : List (ℕ × Handler)) (ms : List (ℕ × ℕ)) (type : ℕ)
    → Agree cs ms
    → ((switch type cs ≡ none) × (size_in ms type ≡ 0))
      ⊎ ((h : Handler) × (switch type cs ≡ some h)
          × (size_in ms type ≢ 0)
          × Guards h (size_in ms type))
unfolding switch size_in
switch-size [] [] type a = inl (refl, refl)
switch-size [] (m ∷ ms) type a = elim a [ ]
switch-size (c ∷ cs) [] type a = elim a [ ]
switch-size ((t, h) ∷ cs) ((t', n) ∷ ms) type a = elim (Bool-cases (t == type)) [
  | inl e ↦ let e' : (t' == type) ≡ true = rw (← a.0) e in rw (e, e') (inr (h, refl, a.1, a.2))
  | inr f ↦ let f' : (t' == type) ≡ false = rw (← a.0) f in rw (f, f') (switch-size cs ms type a.3)
]

cases-Agree : (little : Bool) → Agree (cases little) k_msg_meta
unfolding cases k_msg_meta size_of Handlers.handle_system_event Handlers.handle_stock_directory
    Handlers.handle_stock_trading_action Handlers.handle_reg_sho Handlers.handle_market_participant
    Handlers.handle_mwcb_decline Handlers.handle_mwcb_status Handlers.handle_ipo_quoting_period
    Handlers.handle_luld_auction_collar Handlers.handle_operational_halt Handlers.handle_add_order
    Handlers.handle_order_executed Handlers.handle_order_executed_price Handlers.handle_order_cancel
    Handlers.handle_order_delete Handlers.handle_order_replace Handlers.handle_non_cross_trade
    Handlers.handle_cross_trade Handlers.handle_broken_trade Handlers.handle_noii
    Handlers.handle_rpii Handlers.handle_dlcr
cases-Agree little = (
  refl,
  omega arith,
  (Wire.system_event_msg, _, refl, refl),
  (
    refl,
    omega arith,
    (Wire.stock_directory_msg, _, refl, refl),
    (
      refl,
      omega arith,
      (Wire.stock_trading_action_msg, _, refl, refl),
      (
        refl,
        omega arith,
        (Wire.reg_sho_msg, _, refl, refl),
        (
          refl,
          omega arith,
          (Wire.market_participant_position_msg, _, refl, refl),
          (
            refl,
            omega arith,
            (Wire.mwcb_decline_level_msg, _, refl, refl),
            (
              refl,
              omega arith,
              (Wire.mwcb_status_msg, _, refl, refl),
              (
                refl,
                omega arith,
                (Wire.ipo_quoting_period_update_msg, _, refl, refl),
                (
                  refl,
                  omega arith,
                  (Wire.luld_auction_collar_msg, _, refl, refl),
                  (
                    refl,
                    omega arith,
                    (Wire.operational_halt_msg, _, refl, refl),
                    (
                      refl,
                      omega arith,
                      (Wire.add_order_msg, _, refl, refl),
                      (
                        refl,
                        omega arith,
                        (Wire.add_order_mpid_msg, _, refl, refl),
                        (
                          refl,
                          omega arith,
                          (Wire.order_executed_msg, _, refl, refl),
                          (
                            refl,
                            omega arith,
                            (Wire.order_executed_with_price_msg, _, refl, refl),
                            (
                              refl,
                              omega arith,
                              (Wire.order_cancel_msg, _, refl, refl),
                              (
                                refl,
                                omega arith,
                                (Wire.order_delete_msg, _, refl, refl),
                                (
                                  refl,
                                  omega arith,
                                  (Wire.order_replace_msg, _, refl, refl),
                                  (
                                    refl,
                                    omega arith,
                                    (Wire.non_cross_trade_msg, _, refl, refl),
                                    (
                                      refl,
                                      omega arith,
                                      (Wire.cross_trade_msg, _, refl, refl),
                                      (
                                        refl,
                                        omega arith,
                                        (Wire.broken_trade_msg, _, refl, refl),
                                        (
                                          refl,
                                          omega arith,
                                          (Wire.noii_msg, _, refl, refl),
                                          (
                                            refl,
                                            omega arith,
                                            (
                                              Wire.retail_price_improvement_indicator_msg, _, refl,
                                              refl,
                                            ),
                                            (refl, omega arith, (Wire.dlcr_msg, _, refl, refl), tt),
                                          ),
                                        ),
                                      ),
                                    ),
                                  ),
                                ),
                              ),
                            ),
                          ),
                        ),
                      ),
                    ),
                  ),
                ),
              ),
            ),
          ),
        ),
      ),
    ),
  ),
)

-- A message type of the registry has a handler that checks its frame against the registered size,
-- and any other type has none.
switch-wire_payload_size :
    (little : Bool) (type : ℕ)
    → ((switch type (cases little) ≡ none) × (wire_payload_size type ≡ 0))
      ⊎ ((h : Handler) × (switch type (cases little) ≡ some h)
          × (wire_payload_size type ≢ 0)
          × Guards h (wire_payload_size type))
unfolding wire_payload_size
switch-wire_payload_size little type =
    switch-size (cases little) k_msg_meta type (cases-Agree little)

-- A frame goes to the handler of its type.
pub dispatch-some :
    (little : Bool) (type : ℕ) (p : Bytes) (len : ℕ) (s : Session) (h : Handler)
    → switch type (cases little) ≡ some h
    → dispatch little type p len s ≡ h p len (record s { stats = on_message type len s.stats })
unfolding dispatch
dispatch-some little type p len s h at = rw (dispatch, at)

guarded-short :
    (msg : Layout) (act : Bytes → MatchingEngine → MatchingEngine) (p : Bytes) (len : ℕ)
    (s : Session)
    → len < size_of msg
    → guarded msg act p len s ≡ record s { stats = on_truncated s.stats }
unfolding guarded
guarded-short msg act p len s short = ground arith

-- A frame that is long enough reaches the engine.
pub guarded-long :
    (msg : Layout) (act : Bytes → MatchingEngine → MatchingEngine) (p : Bytes) (len : ℕ)
    (s : Session)
    → size_of msg ≤ len
    → guarded msg act p len s ≡ record s { engine = act p s.engine }
unfolding guarded
guarded-long msg act p len s long = ground arith

-- A frame that is shorter than the registered size of its type is counted as a message and as
-- truncated, and the engine is not touched, for each registered type.
pub dispatch-short :
    (little : Bool) (type : ℕ) (p : Bytes) (len : ℕ) (s : Session)
    → len < wire_payload_size type
    → dispatch little type p len s ≡ record s { stats = on_truncated (on_message type len s.stats) }
dispatch-short little type p len s short = elim (switch-wire_payload_size little type) [
  | inl (_, zero_size) ↦ absurd (omega arith)
  | inr (h, at, _, (msg, act, e, size)) ↦
      dispatch-some little type p len s h at
      ∙ ap (λ g. g p len (record s { stats = on_message type len s.stats })) e
      ∙ guarded-short msg act p len (record s { stats = on_message type len s.stats })
          (rw size short)
]

-- A frame of a type that is not registered is counted as a message and as a parse error, and the
-- engine is not touched, whatever its length.
pub dispatch-unknown :
    (little : Bool) (type : ℕ) (p : Bytes) (len : ℕ) (s : Session)
    → wire_payload_size type ≡ 0
    → dispatch little type p len s
      ≡ record s { stats = on_parse_error (on_message type len s.stats) }
unfolding dispatch
dispatch-unknown little type p len s unknown = elim (switch-wire_payload_size little type) [
  | inl (at, _) ↦ rw (dispatch, at)
  | inr (h, _, sized, _) ↦ absurd (sized unknown)
]
