-- ===== src/Lk/Tests.antt =====
-- Thread lists in a small memory.
use m3dev.Base.{
  true, ℕ, zero, suc, ◌+◌, ◌≡◌, refl, arith, List, [], ◌∷◌, some, ◌==◌, if◌then◌else◌, replicate,
}
use m3dev.Target.{Target}
use m3dev.Lk.{DebugInfo, Thread, load_debuginfo, read_word, read_words, find_lk_threads}
use m3dev.Lk.Reads.{IsStill, IsAligned, IsThread}
use m3dev.Lk.Walk.{pointers, ends, links, find_lk_threads_lem}

abbrev words_from : (ℕ → ℕ) → ℕ → ℕ → List ℕ
words_from m a zero = []
words_from m a (suc n) = m a ∷ words_from m (a + 4) n

-- A target that is a memory and never changes.
abbrev frozen : (ℕ → ℕ) → Target (Unit {0})
frozen m = record {
  calloc = λ w. (true, w);
  swdp_ahb_read = λ a w. (0, m a, w);
  swdp_ahb_write = λ a v w. w;
  swdp_ahb_read32 = λ a n w. (0, words_from m a n, w);
  swdp_ahb_write32 = λ a vs w. w;
  swdp_core_read = λ n w. (0, 0, w);
  swdp_core_write = λ n v w. w;
  swdp_core_read_all = λ w. (replicate 19 0, w);
  swdp_core_halt = λ w. w;
  swdp_core_step = λ w. w;
  swdp_core_resume = λ w. w;
  swdp_watchpoint_pc = λ n a w. w;
  swdp_watchpoint_disable = λ n w. w;
}

frozen-IsStill : (m : ℕ → ℕ) → IsStill (frozen m) m (λ w. Unit {0})
frozen-IsStill m = record {
  after_read = λ a w al h. (w, refl, h);
  after_calloc = λ w h. (w, refl, h);
  after_read32 = λ a n w al h. (_, (w, refl, h));
}

abbrev lookup : List (ℕ × ℕ) → ℕ → ℕ
lookup [] a = 0
lookup ((b, v) ∷ rows) a = if a == b then v else lookup rows a

-- The current thread is at 0x1000, another at 0x2000.
abbrev memory : ℕ → ℕ
memory = lookup (
    (32, 0x52474244)
    ∷ (36, 0x100)
    ∷ (0x100, 0x100)
    ∷ (0x104, 0x200)
    ∷ (0x108, 0x300)
    ∷ (0x10C, 0x18140408)
    ∷ (0x110, 0x1C20)
    ∷ (0x204, 0x1008)
    ∷ (0x300, 0x1000)
    ∷ (0x1000, 0x74687264)
    ∷ (0x100C, 0x2008)
    ∷ (0x2000, 0x74687264)
    ∷ (0x200C, 0x200)
    ∷ [])

abbrev info : DebugInfo
info = record {
  version = 0x100;
  thread_list_ptr = 0x200;
  current_thread_ptr = 0x300;
  off_list_node = 8;
  off_state = 4;
  off_saved_sp = 0x14;
  off_was_preempted = 0x18;
  off_name = 0x20;
  off_waitq = 0x1C;
}

info_in_memory : load_debuginfo (frozen memory) tt ≡ (some info, tt)
unfolding load_debuginfo read_word read_words
info_in_memory = refl

info-IsAligned : IsAligned info
info-IsAligned = record {
  head = refl;
  current = refl;
  node = refl;
  state = refl;
  saved_sp = refl;
  name = refl;
  waitq = refl;
}

first : IsThread memory info 0x1000
first = record { magic = refl; aligned = refl; sp_aligned = refl }

second : IsThread memory info 0x2000
second = record { magic = refl; aligned = refl; sp_aligned = refl }

find_lk_threads_lem_example :
    (threads : List Thread) × ((w' : Unit {0}) × (find_lk_threads (frozen memory) 3 tt
        ≡ some (some threads, w'))
      × (pointers threads ≡ 0x1000 ∷ 0x2000 ∷ [])
      × Unit {0})
find_lk_threads_lem_example =
    find_lk_threads_lem (frozen-IsStill memory) info 3 (0x1008 ∷ 0x2008 ∷ []) tt tt info_in_memory
      tt info-IsAligned first
      (links refl (ground arith) refl first (links refl (ground arith) refl second (ends refl)))
      (omega arith)
