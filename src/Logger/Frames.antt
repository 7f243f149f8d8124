-- ===== src/Logger/Frames.antt =====
-- What a move of one thread of include/Logger.hpp leaves of what the other knows, and the text of a batch.
use itchparser.Prelude.{
  [], ℕ, zero, suc, ◌+◌, ◌*◌, ◌%◌, ◌^◌, ◌≤◌, ◌<◌, Bool, true, false, ◌≡◌, ◌≢◌, refl, sym, ap, ◌∙◌,
  arith, update, ==_ne, List, ◌∷◌, ◌++◌, add64, take, drop, append_assoc,
}
use mathlib.Core.Bool.{true≢false, false≢true}
use itchparser.Logger.{LogEntry, append_entry}
use itchparser.Logger.System.{
  Producer, got_head, got_both, filled, joining, Consumer, ended, seen, reading, writing, storing,
  absent, polling, looking, done, WriteResult, wrote, interrupted, failed, write_from, write_batch,
  failed_in, batch,
}
use native.Mathlib.Nat.{add-zero, add-suc, add_assoc}
use itchparser.Logger.Slots.{slot_wrap, add64_wrap}
use itchparser.Logger.Invariant.{
  lines, pending, active, started, in_final, is_joining, ConsumerOk, ProducerOk,
}
use mathlib.Core.List.{append-nil}
use itchparser.Endian.{Bytes}

-- A new entry leaves the text of the earlier ones.
pub lines-update :
    (f : ℕ → LogEntry) (e : LogEntry) (m a n : ℕ)
    → a + n ≤ m
    → lines (update f m e) a n ≡ lines f a n
lines-update f e m a zero h = refl
lines-update f e m a (suc n) h =
    rw (lines-update f e m a n (omega arith), ==_ne (a + n) m (omega arith)) refl

-- Publishing an entry keeps what a thread in the first loop knows.
pub publish-ConsumerOk :
    (c : Consumer) (sent : ℕ → LogEntry) (e : LogEntry) (count o tail : ℕ)
    → in_final c ≡ false
    → ConsumerOk c sent count o tail
    → ConsumerOk c (update sent count e) (suc count) o tail
publish-ConsumerOk absent sent e count o tail x k = tt
publish-ConsumerOk polling sent e count o tail x k = tt
publish-ConsumerOk (looking f) sent e count o tail x k = tt
publish-ConsumerOk (seen f h) sent e count o tail x k =
    (k.0, omega (arith, k.1), λ y. absurd (true≢false (sym y ∙ x)))
publish-ConsumerOk (reading f t n i out) sent e count o tail x (a, b, c, d, g) =
    (a, b, c, omega arith, g ∙ sym (lines-update sent e count o i (omega arith)))
publish-ConsumerOk (writing f t n out) sent e count o tail x (a, b, c, d) =
    (a, b, omega arith, d ∙ sym (lines-update sent e count o n (omega arith)))
publish-ConsumerOk (storing f t n) sent e count o tail x (a, b, c) = (a, b, omega arith)
publish-ConsumerOk done sent e count o tail x k = tt

-- Entries on their way to the file were published.
pub within :
    (c : Consumer) (sent : ℕ → LogEntry) (count o tail : ℕ)
    → o ≤ count
    → ConsumerOk c sent count o tail
    → o + pending c ≤ count
within (storing f t n) sent count o tail le k = k.2
within _ sent count o tail le k = omega arith

pub lt_of_ne : (j m : ℕ) → j < suc m → j ≢ m → j < m
lt_of_ne j m h e = omega arith

pub at_end : (c : Consumer) → ended c ≡ true → (active c ≡ false) × (in_final c ≡ false)
at_end done e = (refl, refl)
at_end _ e = absurd (false≢true e)

pub active-started : (c : Consumer) → active c ≡ true → started c ≡ true
active-started absent e = e
active-started _ e = refl

pub not_true : (b : Bool) → (b ≢ true) → b ≡ false
not_true true h = absurd (h refl)
not_true false h = refl

take-drop {ℓ} : {A : Type ℓ} (n : ℕ) (s : List A) → take n s ++ drop n s ≡ s
take-drop zero s = refl
take-drop (suc n) [] = refl
take-drop (suc n) (x ∷ s) = ap (λ t. x ∷ t) (take-drop n s)

-- Without a failed write, `write_batch` ends with all of its bytes in the file.
write_from_all :
    (rs : List WriteResult) (s : Bytes)
    → failed_in rs ≡ 0
    → (write_from rs s).1 ≡ true
    → (write_from rs s).0 ≡ s
unfolding write_from
write_from_all rs [] h e = refl
write_from_all [] (x ∷ s) h e = absurd (false≢true e)
write_from_all (wrote n ∷ rs) (x ∷ s) h e =
    ap (λ r. take n (x ∷ s) ++ r) (write_from_all rs (drop n (x ∷ s)) h e) ∙ take-drop n (x ∷ s)
write_from_all (interrupted ∷ rs) (x ∷ s) h e = write_from_all rs (x ∷ s) h e
write_from_all (failed ∷ rs) (x ∷ s) h e = absurd (omega arith)

pub write_batch_all :
    (b : Bool) (rs : List WriteResult) (s : Bytes)
    → b ≡ true
    → failed_in rs ≡ 0
    → (write_batch b rs s).1 ≡ true
    → (write_batch b rs s).0 ≡ s
unfolding write_batch
write_batch_all true rs s b h e = write_from_all rs s h e
write_batch_all false rs s b h e = absurd (false≢true b)

pub lines-add :
    (f : ℕ → LogEntry) (a m n : ℕ) → lines f a (m + n) ≡ lines f a m ++ lines f (a + m) n
lines-add f a m zero = ap (lines f a) (add-zero m) ∙ sym (append-nil (lines f a m))
lines-add f a m (suc n) =
    ap (lines f a) (add-suc m n)
    ∙ ap (λ r. r ++ append_entry (f (a + (m + n)))) (lines-add f a m n)
    ∙ append_assoc (lines f a m) (lines f (a + m) n) (append_entry (f (a + (m + n))))
    ∙ ap (λ k. lines f a m ++ (lines f (a + m) n ++ append_entry (f k))) (sym (add_assoc a m n))

-- `stop` waits for the thread only after it has cleared the flag.
pub joined_stopped :
    (capacity : ℕ) (p : Producer) (count o : ℕ) (r : Bool)
    → is_joining p ≡ true
    → ProducerOk capacity p count o r
    → r ≡ false
joined_stopped capacity joining count o r e k = k
joined_stopped capacity _ count o r e k = absurd (false≢true e)

pub more : (count o c n : ℕ) → count < o + c → count < o + n + c
more count o c n h = omega arith

pub ProducerOk-more :
    (capacity : ℕ) (p : Producer) (count o n : ℕ) (r : Bool)
    → ProducerOk capacity p count o r
    → ProducerOk capacity p count (o + n) r
ProducerOk-more capacity (got_head c h) count o n r k = k
ProducerOk-more capacity (got_both c h t) count o n r (k, l) =
    (k, λ e. more count o capacity n (l e))
ProducerOk-more capacity (filled h) count o n r (k, l) = (k, more count o capacity n l)
ProducerOk-more capacity joining count o n r k = k
ProducerOk-more capacity _ count o n r k = tt

pub reads_slot :
    (capacity w : ℕ)
    → capacity * w ≡ 2 ^ 64
    → (t i o : ℕ) → t ≡ o % 2 ^ 64
    → add64 t i % capacity ≡ (o + i) % capacity
reads_slot capacity w fits t i o e =
    rw e (ap (λ j. j % capacity) (add64_wrap o i) ∙ slot_wrap capacity w fits (o + i))

pub batch_bounds : (d : ℕ) → 0 < d → (0 < batch d) × (batch d ≤ d)
batch_bounds d h = (ground arith, ground arith)
