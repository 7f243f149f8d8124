-- ===== src/Logger/Draining.antt =====
-- The moves of `drain_loop` of include/Logger.hpp keep the invariant.
use itchparser.Prelude.{
  [], if◌then◌else◌, if_elim, ℕ, suc, ◌*◌, ◌%◌, ◌^◌, ◌<◌, Bool, ◌||◌, true, false, ◌≡◌, refl, sym,
  ap, ◌∙◌, subst, arith, ltb, ◌==◌, sub64, List, ◌++◌, add64, lt_of_ltb, le_of_ltb,
}
use mathlib.Core.Bool.{false≢true}
use itchparser.Logger.{append_entry}
use itchparser.Logger.System.{
  Consumer, System, seen, reading, writing, storing, absent, polling, looking, done, WriteResult,
  drain_step, batch, Returned,
}
use itchparser.Logger.Invariant.{lines, taken, is_joining, Inv, Good}
use itchparser.Logger.Batches.{turn, reads, looks, ends, takes, writes, stores}

stopped : (r j : Bool) → r ≡ false → (r || j) ≡ true → j ≡ true
stopped r j e h = ap (λ r. r || j) (sym e) ∙ h

module _ (capacity w : ℕ) (fits : capacity * w ≡ 2 ^ 64) (small : capacity < 2 ^ 64) where
  pub drain_step-Good :
      (c : Consumer) (rs : List WriteResult) (s : System)
      → s.consumer ≡ c
      → Returned capacity c rs s
      → Good capacity s
      → Good capacity (drain_step capacity c rs s)
  unfolding drain_step
  drain_step-Good absent rs s is back g = g
  drain_step-Good done rs s is back g = g
  drain_step-Good polling rs s is back g =
      let inv = subst (λ c. Inv capacity s.producer c s) is g in
      if_elim (Good capacity) s.running (record s { consumer = looking false })
        (record s { consumer = looking true })
        (λ e.
          turn capacity polling (looking false) refl refl refl refl (λ y. absurd (false≢true y)) tt
            inv)
        (λ e.
          turn capacity polling (looking true) refl refl refl refl
            (λ y. stopped s.running (is_joining s.producer) e (inv.wanted refl)) tt inv)
  drain_step-Good (looking f) rs s is back g =
      let inv = subst (λ c. Inv capacity s.producer c s) is g in
      let d = looks capacity w fits small f inv in
      turn capacity (looking f) (seen f s.head) refl refl refl refl inv.settled
        (omega (arith, inv.head_is), omega arith, λ y. d) inv
  drain_step-Good (seen f h) rs s is back g =
      let inv = subst (λ c. Inv capacity s.producer c s) is g in
      let n = batch (sub64 h s.tail) in
      if_elim (Good capacity) (s.tail == h) (record s { consumer = if f then done else polling })
        (record s { consumer = reading f s.tail n 0 [] }) (λ e. ends capacity f h e inv)
        (λ e.
          turn capacity (seen f h) (reading f s.tail n 0 []) refl refl refl refl inv.settled
            (takes capacity h e inv) inv)
  drain_step-Good (reading f t n i out) rs s is back g =
      let inv = subst (λ c. Inv capacity s.producer c s) is g in
      let (is_t, a, b, k, r) = inv.consumer_ok in
      let out' = out ++ append_entry (s.ring (add64 t i % capacity)) in
      if_elim (Good capacity) (ltb i n) (record s { consumer = reading f t n (suc i) out' })
        (record s { consumer = writing f t n out })
        (λ e.
          let le = lt_of_ltb i n e in
          let here = reads capacity w fits small f t n i out le inv in
          let more : out' ≡ lines s.sent (taken s) (suc i) = rw (here, r) refl in
          turn capacity (reading f t n i out) (reading f t n (suc i) out') refl refl refl refl
            inv.settled (is_t, omega arith, b, k, more) inv)
        (λ e.
          let last : i ≡ n = omega (arith, le_of_ltb i n e) in
          turn capacity (reading f t n i out) (writing f t n out) refl refl refl refl inv.settled
            (is_t, b, k, r ∙ ap (lines s.sent (taken s)) last) inv)
  drain_step-Good (writing f t n out) rs s is back g =
      writes capacity f t n out rs back (subst (λ c. Inv capacity s.producer c s) is g)
  drain_step-Good (storing true t n) rs s is back g =
      stores capacity true t n (looking true) refl refl refl (λ tail. tt)
        (subst (λ c. Inv capacity s.producer c s) is g)
  drain_step-Good (storing false t n) rs s is back g =
      stores capacity false t n polling refl refl refl (λ tail. tt)
        (subst (λ c. Inv capacity s.producer c s) is g)
