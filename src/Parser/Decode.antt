-- ===== src/Parser/Decode.antt =====
-- `dispatch` of include/Parser.hpp on the wire form of a message calls the engine with the values
-- that the message holds.
use itchparser.Prelude.{ℕ, ◌≤◌, ◌≡◌, refl, Bool, true, false, some, ◌++◌, arith, ◌∙◌, length}
use itchparser.Endian.{Bytes}
use itchparser.Endian.RoundTrip.{load_be16-to_be, load_be32-to_be, load_be64-to_be, load_be48-to_be}
use itchparser.Wire.{
  Layout, size_of, field, add_order_msg, add_order_mpid_msg, order_executed_msg,
  order_executed_with_price_msg, order_cancel_msg, order_delete_msg, order_replace_msg,
  cross_trade_msg,
}
use itchparser.RunStats.{on_message}
use itchparser.Engine.State.{MatchingEngine}
use itchparser.Engine.Add.{on_add_order, no_mpid}
use itchparser.Engine.Reduce.{
  on_order_executed, on_order_executed_with_price, on_order_cancel, on_order_delete,
}
use itchparser.Engine.Replace.{on_order_replace}
use itchparser.Engine.Cross.{on_cross_trade}
use itchparser.Parser.Handlers.{
  Session, guarded, locate_of, time_of, u8, u32, u64, add_act, add_mpid_act, replace_act,
  handle_add_order, handle_order_executed, handle_order_executed_price, handle_order_cancel,
  handle_order_delete, handle_order_replace, handle_cross_trade,
}
use itchparser.Parser.Dispatch.{switch, cases, dispatch}
use itchparser.Parser.Registry.{dispatch-some, guarded-long}
use itchparser.Parser.Messages.{
  Message, add, add_mpid, executed, executed_with_price, cancel, delete, replace, cross, Header,
  Symbol, Attribution, mpid_bytes, encode, type_of, Fits, deliver,
}

module _ (little : Bool) (rest : Bytes) where
  -- A message whose handler checks the frame against `msg` and then does `act`.
  dispatch-act :
      (m : Message) (s : Session) (msg : Layout) (act : Bytes → MatchingEngine → MatchingEngine)
      → switch (type_of m) (cases little) ≡ some (guarded msg act)
      → size_of msg ≤ length (encode m)
      → act (encode m ++ rest) s.engine ≡ deliver m s.engine
      → dispatch little (type_of m) (encode m ++ rest) (length (encode m)) s ≡ record s {
        engine = deliver m s.engine;
        stats = on_message (type_of m) (length (encode m)) s.stats;
      }
  dispatch-act m s msg act at fits done =
      let p = encode m ++ rest in
      let n = length (encode m) in
      let s₁ : Session = record s { stats = on_message (type_of m) n s.stats } in
      dispatch-some little (type_of m) p n s (guarded msg act) at
      ∙ guarded-long msg act p n s₁ fits
      ∙ λ i. record s₁ { engine = done i }

  -- What the handlers of the shorter messages do with their view.
  abbrev executed_act : Bytes → MatchingEngine → MatchingEngine
  executed_act m =
      let msg = order_executed_msg in
      on_order_executed (locate_of little m) (u64 little msg 6 m) (u32 little msg 7 m)

  abbrev executed_price_act : Bytes → MatchingEngine → MatchingEngine
  executed_price_act m =
      let msg = order_executed_with_price_msg in
      on_order_executed_with_price (locate_of little m) (u64 little msg 6 m) (u32 little msg 7 m)

  abbrev cancel_act : Bytes → MatchingEngine → MatchingEngine
  cancel_act m =
      let msg = order_cancel_msg in
      on_order_cancel (locate_of little m) (u64 little msg 6 m) (u32 little msg 7 m)

  abbrev delete_act : Bytes → MatchingEngine → MatchingEngine
  delete_act m = on_order_delete (locate_of little m) (u64 little order_delete_msg 6 m)

  abbrev cross_act : Bytes → MatchingEngine → MatchingEngine
  cross_act m = on_cross_trade (locate_of little m) (u8 little cross_trade_msg 10 m)

  module _ (h : Header) (e : MatchingEngine) where
    add-lem :
        (id bsi qty : ℕ) (s : Symbol) (px : ℕ)
        → Fits (add h id bsi qty s px)
        → add_act little (encode (add h id bsi qty s px) ++ rest) e
          ≡ deliver (add h id bsi qty s px) e
    unfolding add_act encode deliver field
    add-lem id bsi qty s px f =
        let p = encode (add h id bsi qty s px) ++ rest in
        let l : locate_of little p ≡ h.locate = load_be16-to_be little h.locate _ f.0.0 in
        let t : time_of little p ≡ h.ts = load_be48-to_be h.ts _ f.0.1 in
        let d : u64 little add_order_msg 6 p ≡ id = load_be64-to_be little id _ f.1 in
        let q : u32 little add_order_msg 8 p ≡ qty = load_be32-to_be little qty _ f.2 in
        let x : u32 little add_order_msg 10 p ≡ px = load_be32-to_be little px rest f.3 in
        λ i.
          on_add_order (l i) (d i)
            (record {
              bsi = bsi;
              qty = q i;
              px = x i;
              ts = t i;
              mpid = no_mpid;
              attributed = false;
            })
            e

    add_mpid-lem :
        (id bsi qty : ℕ) (s : Symbol) (px : ℕ) (m : Attribution)
        → Fits (add_mpid h id bsi qty s px m)
        → add_mpid_act little (encode (add_mpid h id bsi qty s px m) ++ rest) e
          ≡ deliver (add_mpid h id bsi qty s px m) e
    unfolding add_mpid_act encode deliver field
    add_mpid-lem id bsi qty s px m f =
        let p = encode (add_mpid h id bsi qty s px m) ++ rest in
        let l : locate_of little p ≡ h.locate = load_be16-to_be little h.locate _ f.0.0 in
        let t : time_of little p ≡ h.ts = load_be48-to_be h.ts _ f.0.1 in
        let d : u64 little add_order_mpid_msg 6 p ≡ id = load_be64-to_be little id _ f.1 in
        let q : u32 little add_order_mpid_msg 8 p ≡ qty = load_be32-to_be little qty _ f.2 in
        let x : u32 little add_order_mpid_msg 10 p ≡ px = load_be32-to_be little px _ f.3 in
        λ i.
          on_add_order (l i) (d i)
            (record {
              bsi = bsi;
              qty = q i;
              px = x i;
              ts = t i;
              mpid = mpid_bytes m;
              attributed = true;
            })
            e

    executed-lem :
        (id qty number : ℕ)
        → Fits (executed h id qty number)
        → executed_act (encode (executed h id qty number) ++ rest) e
          ≡ deliver (executed h id qty number) e
    unfolding encode deliver field
    executed-lem id qty number f =
        let p = encode (executed h id qty number) ++ rest in
        let l : locate_of little p ≡ h.locate = load_be16-to_be little h.locate _ f.0.0 in
        let d : u64 little order_executed_msg 6 p ≡ id = load_be64-to_be little id _ f.1 in
        let q : u32 little order_executed_msg 7 p ≡ qty = load_be32-to_be little qty _ f.2 in
        λ i. on_order_executed (l i) (d i) (q i) e

    executed_with_price-lem :
        (id qty number printable px : ℕ)
        → Fits (executed_with_price h id qty number printable px)
        → executed_price_act (encode (executed_with_price h id qty number printable px) ++ rest) e
          ≡ deliver (executed_with_price h id qty number printable px) e
    unfolding encode deliver field
    executed_with_price-lem id qty number printable px f =
        let p = encode (executed_with_price h id qty number printable px) ++ rest in
        let l : locate_of little p ≡ h.locate = load_be16-to_be little h.locate _ f.0.0 in
        let d : u64 little order_executed_with_price_msg 6 p ≡ id =
          load_be64-to_be little id _ f.1 in
        let q : u32 little order_executed_with_price_msg 7 p ≡ qty =
          load_be32-to_be little qty _ f.2 in
        λ i. on_order_executed_with_price (l i) (d i) (q i) e

    cancel-lem :
        (id qty : ℕ)
        → Fits (cancel h id qty)
        → cancel_act (encode (cancel h id qty) ++ rest) e ≡ deliver (cancel h id qty) e
    unfolding encode deliver field
    cancel-lem id qty f =
        let p = encode (cancel h id qty) ++ rest in
        let l : locate_of little p ≡ h.locate = load_be16-to_be little h.locate _ f.0.0 in
        let d : u64 little order_cancel_msg 6 p ≡ id = load_be64-to_be little id _ f.1 in
        let q : u32 little order_cancel_msg 7 p ≡ qty = load_be32-to_be little qty rest f.2 in
        λ i. on_order_cancel (l i) (d i) (q i) e

    delete-lem :
        (id : ℕ)
        → Fits (delete h id)
        → delete_act (encode (delete h id) ++ rest) e ≡ deliver (delete h id) e
    unfolding encode deliver field
    delete-lem id f =
        let p = encode (delete h id) ++ rest in
        let l : locate_of little p ≡ h.locate = load_be16-to_be little h.locate _ f.0.0 in
        let d : u64 little order_delete_msg 6 p ≡ id = load_be64-to_be little id rest f.1 in
        λ i. on_order_delete (l i) (d i) e

    replace-lem :
        (old_id new_id qty px : ℕ)
        → Fits (replace h old_id new_id qty px)
        → replace_act little (encode (replace h old_id new_id qty px) ++ rest) e
          ≡ deliver (replace h old_id new_id qty px) e
    unfolding replace_act encode deliver field
    replace-lem old_id new_id qty px f =
        let p = encode (replace h old_id new_id qty px) ++ rest in
        let l : locate_of little p ≡ h.locate = load_be16-to_be little h.locate _ f.0.0 in
        let t : time_of little p ≡ h.ts = load_be48-to_be h.ts _ f.0.1 in
        let o : u64 little order_replace_msg 6 p ≡ old_id = load_be64-to_be little old_id _ f.1 in
        let d : u64 little order_replace_msg 7 p ≡ new_id = load_be64-to_be little new_id _ f.2 in
        let q : u32 little order_replace_msg 8 p ≡ qty = load_be32-to_be little qty _ f.3 in
        let x : u32 little order_replace_msg 9 p ≡ px = load_be32-to_be little px rest f.4 in
        λ i. on_order_replace (l i) (o i) (record { id = d i; qty = q i; px = x i; ts = t i }) e

    cross-lem :
        (traded : ℕ) (s : Symbol) (px number type : ℕ)
        → Fits (cross h traded s px number type)
        → cross_act (encode (cross h traded s px number type) ++ rest) e
          ≡ deliver (cross h traded s px number type) e
    unfolding encode deliver field
    cross-lem traded s px number type f =
        let p = encode (cross h traded s px number type) ++ rest in
        let l : locate_of little p ≡ h.locate = load_be16-to_be little h.locate _ f.0 in
        λ i. on_cross_trade (l i) type e

  -- A frame that holds a message whose numbers fit their fields, whatever follows it, is counted and
  -- handed to the engine as the call that the message stands for, with the values it holds, whatever
  -- the byte order of the host.
  pub dispatch-encode :
      (m : Message) (s : Session)
      → Fits m
      → dispatch little (type_of m) (encode m ++ rest) (length (encode m)) s ≡ record s {
        engine = deliver m s.engine;
        stats = on_message (type_of m) (length (encode m)) s.stats;
      }
  unfolding switch cases handle_add_order handle_order_executed handle_order_executed_price
      handle_order_cancel handle_order_delete handle_order_replace handle_cross_trade type_of
      size_of encode
  dispatch-encode (add h id bsi qty y px) s f =
      dispatch-act (add h id bsi qty y px) s add_order_msg (add_act little) refl (omega arith)
        (add-lem h s.engine id bsi qty y px f)
  dispatch-encode (add_mpid h id bsi qty y px a) s f =
      dispatch-act (add_mpid h id bsi qty y px a) s add_order_mpid_msg (add_mpid_act little) refl
        (omega arith) (add_mpid-lem h s.engine id bsi qty y px a f)
  dispatch-encode (executed h id qty number) s f =
      dispatch-act (executed h id qty number) s order_executed_msg executed_act refl (omega arith)
        (executed-lem h s.engine id qty number f)
  dispatch-encode (executed_with_price h id qty number printable px) s f =
      dispatch-act (executed_with_price h id qty number printable px) s
        order_executed_with_price_msg executed_price_act refl (omega arith)
        (executed_with_price-lem h s.engine id qty number printable px f)
  dispatch-encode (cancel h id qty) s f =
      dispatch-act (cancel h id qty) s order_cancel_msg cancel_act refl (omega arith)
        (cancel-lem h s.engine id qty f)
  dispatch-encode (delete h id) s f =
      dispatch-act (delete h id) s order_delete_msg delete_act refl (omega arith)
        (delete-lem h s.engine id f)
  dispatch-encode (replace h old_id new_id qty px) s f =
      dispatch-act (replace h old_id new_id qty px) s order_replace_msg (replace_act little) refl
        (omega arith) (replace-lem h s.engine old_id new_id qty px f)
  dispatch-encode (cross h traded y px number type) s f =
      dispatch-act (cross h traded y px number type) s cross_trade_msg cross_act refl (omega arith)
        (cross-lem h s.engine traded y px number type f)
