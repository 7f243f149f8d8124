-- ===== src/Parser/Framing.antt =====
-- `run` of include/Parser.hpp on a feed of length-prefixed frames.
use itchparser.Prelude.{
  ℕ, suc, ◌+◌, ◌/◌, ◌%◌, ◌<◌, ◌≡◌, refl, Bool, List, [], ◌∷◌, ◌++◌, append_assoc, arith, ◌∙◌, ap,
  length, length-append, drop,
}
use itchparser.Endian.{Bytes, byte, load_be16}
use itchparser.Endian.RoundTrip.{to_be, load_be16-to_be}
use itchparser.RunStats.{on_message}
use itchparser.Parser.Handlers.{Session}
use itchparser.Parser.Dispatch.{dispatch}
use itchparser.Parser.Run.{run_from, run}
use itchparser.Parser.Rounds.{run_from-Full, run_from-enough, run_from-shift}
use itchparser.Parser.Messages.{
  Message, add, add_mpid, executed, executed_with_price, cancel, delete, replace, cross, encode,
  type_of, body, Fits, deliver,
}
use itchparser.Parser.Decode.{dispatch-encode}

-- A message as it stands in the file, behind its length.
unfoldable pub frame : Message → Bytes
unfolding encode to_be
frame m = to_be 2 (length (encode m)) ++ encode m

unfoldable pub feed : List Message → Bytes
unfolding frame
feed [] = []
feed (m ∷ ms) = frame m ++ feed ms

unfoldable pub after : Message → Session → Session
after m s = record s {
  engine = deliver m s.engine;
  stats = on_message (type_of m) (length (encode m)) s.stats;
}

unfoldable pub after_all : List Message → Session → Session
unfolding after
after_all [] s = s
after_all (m ∷ ms) s = after_all ms (after m s)

abbrev pub AllFit : List Message → Type 0
AllFit [] = Unit {0}
AllFit (m ∷ ms) = Fits m × AllFit ms

drop-length-append {ℓ} : {A : Type ℓ} → (xs ys : List A) → drop (length xs) (xs ++ ys) ≡ ys
drop-length-append [] ys = refl
drop-length-append (x ∷ xs) ys = drop-length-append xs ys

encode-size : (m : Message) → (length (encode m) < 256) × (0 < length (encode m))
unfolding encode body
encode-size (add h id bsi qty s px) = (omega arith, omega arith)
encode-size (add_mpid h id bsi qty s px a) = (omega arith, omega arith)
encode-size (executed h id qty number) = (omega arith, omega arith)
encode-size (executed_with_price h id qty number printable px) = (omega arith, omega arith)
encode-size (cancel h id qty) = (omega arith, omega arith)
encode-size (delete h id) = (omega arith, omega arith)
encode-size (replace h old_id new_id qty px) = (omega arith, omega arith)
encode-size (cross h traded s px number type) = (omega arith, omega arith)

module _ (little : Bool) where
  run_from-frame :
      (f : ℕ) (m : Message) (rest : Bytes) (c : ℕ) (s : Session)
      → Fits m
      → run_from little (suc f) (frame m ++ rest) c s
        ≡ run_from little f rest (c + length (frame m)) (after m s)
  unfolding frame after
  run_from-frame f m rest c s fits =
      let e = encode m in
      let n = length e in
      let v : load_be16 little (to_be 2 n ++ (e ++ rest)) ≡ n =
        load_be16-to_be little n (e ++ rest) (omega (arith, encode-size m)) in
      let d : drop n (e ++ rest) ≡ rest = drop-length-append e rest in
      run_from-Full little f (n / 256 % 256) (n / 1 % 256) (e ++ rest) c s n v (encode-size m).1
        (omega (arith, length-append e rest))
      ∙ ap
          (λ r.
            run_from little f r (c + 2 + n) (dispatch little (byte (e ++ rest) 0) (e ++ rest) n s))
          d
      ∙ ap (run_from little f rest (c + 2 + n)) (dispatch-encode little rest m s fits)
      ∙ ap (λ k. run_from little f rest k (after m s)) (omega arith)

  -- The walk over the frames of a list of messages whose numbers fit their fields, with more bytes
  -- behind them, counts and delivers each of the messages once and in their order, and then goes on
  -- as a walk of its own over the rest from the state reached, its bytes added to those consumed.
  pub run-feed :
      (ms : List Message) (rest : Bytes) (s : Session)
      → AllFit ms
      → run little (feed ms ++ rest) s ≡ (
        length (feed ms) + (run little rest (after_all ms s)).0,
        (run little rest (after_all ms s)).1,
      )
  unfolding feed after_all run
  run-feed [] rest s fits = ap (λ k. (k, (run little rest s).1)) (omega arith)
  run-feed (m ∷ ms) rest s fits =
      let p = feed ms ++ rest in
      let s₁ = after m s in
      let a : feed (m ∷ ms) ++ rest ≡ frame m ++ p = append_assoc (frame m) (feed ms) rest in
      let l : length (frame m ++ p) ≡ length (frame m) + length p = length-append (frame m) p in
      ap (λ b. run little b s) a
      ∙ run_from-enough little (length (frame m ++ p)) (suc (length p + length (frame m)))
          (frame m ++ p) 0 s (omega arith) (omega arith)
      ∙ run_from-frame (length p + length (frame m)) m p 0 s fits.0
      ∙ run_from-enough little (length p + length (frame m)) (length p) p (0 + length (frame m)) s₁
          (omega arith) (omega arith)
      ∙ ap (λ k. run_from little (length p) p k s₁) (omega arith)
      ∙ run_from-shift little (length p) p (length (frame m)) 0 s₁
      ∙ ap (λ r. (length (frame m) + r.0, r.1)) (run-feed ms rest s₁ fits.1)
      ∙ ap (λ k. (k, (run little rest (after_all (m ∷ ms) s)).1))
          (omega (arith, length-append (frame m) (feed ms)))
