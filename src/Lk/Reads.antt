-- ===== src/Lk/Reads.antt =====
-- Runs of the readers of Lk that succeed on a target whose memory stands still.
use m3dev.Base.{
  ℕ, ◌+◌, ◌%◌, arith, List, ◌≡◌, ◌==◌, inl, inr, Bool-cases, bit_and, get_or, u32, Option, some,
  Bool, true, false, refl,
}
use m3dev.Target.{Target}
use m3dev.Lk.{
  exception_frame, short_frame, read_word, read_words, read_regs, allocate, read_lk_thread,
  lt_next_ptr, DebugInfo, Thread, lk_thread_magic,
}

-- In the states that `Holds` describes there is memory on the host, every read of a word or of a block
-- at a multiple of 4 succeeds, they stay in these states, and a word is `m`'s.
pub record IsStill {W : Type 0} (target : Target W) (m : ℕ → ℕ) (Holds : W → Type 0) : Type 0 where
  pub after_read :
      (a : ℕ) (w : W)
      → a % 4 ≡ 0
      → Holds w
      → (w' : W) × (target.swdp_ahb_read a w ≡ (0, m a, w')) × Holds w'
  pub after_calloc : (w : W) → Holds w → (w' : W) × (target.calloc w ≡ (true, w')) × Holds w'
  pub after_read32 :
      (a n : ℕ) (w : W)
      → a % 4 ≡ 0
      → Holds w
      → (xs : List ℕ) × ((w' : W) × (target.swdp_ahb_read32 a n w ≡ (0, xs, w')) × Holds w')

-- What the debug information names is at multiples of 4: a block elsewhere may end a page inside a
-- word, where `swdp_ahb_read32` fails.
pub record IsAligned (di : DebugInfo) : Type 0 where
  pub head : di.thread_list_ptr % 4 ≡ 0
  pub current : di.current_thread_ptr % 4 ≡ 0
  pub node : di.off_list_node % 4 ≡ 0
  pub state : di.off_state % 4 ≡ 0
  pub saved_sp : di.off_saved_sp % 4 ≡ 0
  pub name : di.off_name % 4 ≡ 0
  pub waitq : di.off_waitq % 4 ≡ 0

-- A thread with the magic number, which is at a multiple of 4 as its saved stack is.
pub record IsThread (m : ℕ → ℕ) (di : DebugInfo) (p : ℕ) : Type 0 where
  pub magic : m p ≡ lk_thread_magic
  pub aligned : p % 4 ≡ 0
  pub sp_aligned : m (u32 (p + di.off_saved_sp)) % 4 ≡ 0

-- The run gives a value in `P` and a state in `Holds`.
pub data Gives {W A : Type 0} (Holds : W → Type 0) (P : A → Type 0) : Option A × W → Type 0 where
  gives : (a : A) (w : W) → P a → Holds w → Gives Holds P (some a, w)

pub Gives_lem :
    {W A : Type 0} {Holds : W → Type 0} {P : A → Type 0} {r : Option A × W}
    → Gives Holds P r
    → (a : A) × ((w : W) × (r ≡ (some a, w)) × P a × Holds w)
Gives_lem (gives a w p h) = (a, (w, refl, p, h))

module _ {W : Type 0} {target : Target W} {m : ℕ → ℕ} {Holds : W → Type 0}
    (still : IsStill target m Holds) where
  pub read_word_lem :
      (a : ℕ) (w : W)
      → a % 4 ≡ 0
      → Holds w
      → (w' : W) × (read_word target a w ≡ (some (m a), w')) × Holds w'
  unfolding read_word
  read_word_lem a w al h = let (w', e, h') = still.after_read a w al h in (w', rw e refl, h')

  allocate_lem : (w : W) → Holds w → (w' : W) × (allocate target w ≡ (some tt, w')) × Holds w'
  unfolding allocate
  allocate_lem w h = let (w', e, h') = still.after_calloc w h in (w', rw e refl, h')

  read_words_lem :
      (a n : ℕ) (w : W)
      → a % 4 ≡ 0
      → Holds w
      → (xs : List ℕ) × ((w' : W) × (read_words target a n w ≡ (some xs, w')) × Holds w')
  unfolding read_words
  read_words_lem a n w al h =
      let (xs, (w', e, h')) = still.after_read32 a n w al h in (xs, (w', rw e refl, h'))

  read_regs_lem :
      (active : Bool) (sp : ℕ) (w : W)
      → sp % 4 ≡ 0
      → Holds w
      → (xs : List ℕ) × ((w' : W) × (read_regs target active sp w ≡ (some xs, w')) × Holds w')
  unfolding read_regs
  read_regs_lem true sp w al h = (_, (w, refl, h))
  read_regs_lem false sp w al h =
      let (fr, (w1, e1, h1)) = read_words_lem sp 9 w al h in
      let (ex, (w2, e2, h2)) = read_words_lem (u32 (sp + 36)) 8 w1 (omega arith) h1 in
      elim (Bool-cases (bit_and (get_or fr 8 0) 0xFFFFFF00 == 0xFFFFFF00)) [
        | inl e ↦ (exception_frame sp fr ex, (w2, rw (e1, e, e2) refl, h2))
        | inr e ↦ (short_frame sp fr, (w1, rw (e1, e) refl, h1))
      ]

  pub read_lk_thread-Gives :
      (di : DebugInfo) (p : ℕ) (active : Bool) (w : W)
      → IsAligned di
      → IsThread m di p
      → Holds w
      → Gives Holds (λ (t : Thread). t.threadptr ≡ p) (read_lk_thread target di p active w)
  unfolding read_lk_thread
  read_lk_thread-Gives di p active w al thread h =
      let here = thread.aligned in
      let (w0, e0, h0) = allocate_lem w h in
      let (w1, e1, h1) = read_word_lem p w0 here h0 in
      let same : (m p == lk_thread_magic) ≡ true = rw (thread.magic) refl in
      let (w2, e2, h2) = read_word_lem (lt_next_ptr di p) w1 (omega (arith, here, al.node)) h1 in
      let (w3, e3, h3) =
        read_word_lem (u32 (p + di.off_state)) w2 (omega (arith, here, al.state)) h2 in
      let (w4, e4, h4) =
        read_word_lem (u32 (p + di.off_saved_sp)) w3 (omega (arith, here, al.saved_sp)) h3 in
      let (w5, e5, h5) =
        read_word_lem (u32 (p + di.off_waitq)) w4 (omega (arith, here, al.waitq)) h4 in
      let (text, (w6, e6, h6)) =
        read_words_lem (u32 (p + di.off_name)) 8 w5 (omega (arith, here, al.name)) h5 in
      let (regs, (w7, e7, h7)) =
        read_regs_lem active (m (u32 (p + di.off_saved_sp))) w6 thread.sp_aligned h6 in
      rw (e0, e1, same, e2, e3, e4, e5, e6, e7) (gives _ w7 refl h7)
