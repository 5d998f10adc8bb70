-- ===== src/Lk/Walk.antt =====
-- The loop of `find_lk_threads` of tools/lkdebug.c over a list that comes back to its head.
use m3dev.Base.{
  ℕ, zero, suc, ◌+◌, ◌%◌, ◌<◌, ◌≡◌, ◌≢◌, refl, ap, ◌∙◌, arith, List, [], ◌∷◌, some, true, false,
  inl, inr, Bool-cases, ◌==◌, if◌then◌else◌, length, u32,
}
use m3dev.Target.{Target}
use m3dev.Lk.{
  DebugInfo, Thread, list_to_thread, list_off_next, read_word, read_lk_thread, walk,
  find_lk_threads, load_debuginfo,
}
use m3dev.Lk.Reads.{IsStill, IsAligned, IsThread, Gives_lem, read_word_lem, read_lk_thread-Gives}

abbrev pub pointers : List Thread → List ℕ
pointers [] = []
pointers (t ∷ ts) = t.threadptr ∷ pointers ts

-- The nodes behind `node` up to the head of the list, in a memory `m`; each is at a multiple of 4 and a
-- thread's.
pub data Links (m : ℕ → ℕ) (di : DebugInfo) : ℕ → List ℕ → Type 0 where
  ends : {node : ℕ} → m (u32 (node + list_off_next)) ≡ di.thread_list_ptr → Links m di node []
  links :
      {node next : ℕ} {nodes : List ℕ}
      → m (u32 (node + list_off_next)) ≡ next
      → next ≢ di.thread_list_ptr
      → next % 4 ≡ 0
      → IsThread m di (list_to_thread di next)
      → Links m di next nodes
      → Links m di node (next ∷ nodes)

-- The threads of the nodes but the current one, the last first, before those already found.
abbrev pub found : DebugInfo → ℕ → List ℕ → List ℕ → List ℕ
found di current [] ps = ps
found di current (node ∷ nodes) ps =
    found di current nodes
      (if current == list_to_thread di node then ps else list_to_thread di node ∷ ps)

module _ {W : Type 0} {target : Target W} {m : ℕ → ℕ} {Holds : W → Type 0}
    (still : IsStill target m Holds) where
  walk-skip :
      (di : DebugInfo) (current fuel node next : ℕ) (list : List Thread) (w w1 : W)
      → read_word target (u32 (node + list_off_next)) w ≡ (some next, w1)
      → next ≢ di.thread_list_ptr
      → current ≡ list_to_thread di next
      → walk target di current (suc fuel) node list w ≡ walk target di current fuel next list w1
  unfolding walk
  walk-skip di current fuel node next list w w1 e ne same =
      let e1 : (next == di.thread_list_ptr) ≡ false = ground (arith, ne) in
      let e2 : (current == list_to_thread di next) ≡ true = ground (arith, same) in
      rw (e, e1, e2) refl

  walk-add :
      (di : DebugInfo) (current fuel node next : ℕ) (t : Thread) (list : List Thread) (w w1 w2 : W)
      → read_word target (u32 (node + list_off_next)) w ≡ (some next, w1)
      → next ≢ di.thread_list_ptr
      → current ≢ list_to_thread di next
      → read_lk_thread target di (list_to_thread di next) false w1 ≡ (some t, w2)
      → walk target di current (suc fuel) node list w
        ≡ walk target di current fuel next (t ∷ list) w2
  unfolding walk
  walk-add di current fuel node next t list w w1 w2 e ne other et =
      let e1 : (next == di.thread_list_ptr) ≡ false = ground (arith, ne) in
      let e2 : (current == list_to_thread di next) ≡ false = ground (arith, other) in
      rw (e, e1, e2, et) refl

  walk_lem :
      (di : DebugInfo) (current fuel node : ℕ) (nodes : List ℕ) (list : List Thread) (w : W)
      → IsAligned di
      → node % 4 ≡ 0
      → Links m di node nodes
      → length nodes < fuel
      → Holds w
      → (threads : List Thread) × ((w' : W) × (walk target di current fuel node list w
            ≡ some (some threads, w'))
          × (pointers threads ≡ found di current nodes (pointers list))
          × Holds w')
  unfolding walk
  walk_lem di current zero node nodes list w al here l enough h = absurd (omega (arith, enough))
  walk_lem di current (suc fuel) node _ list w al here (ends e) enough h =
      let (w1, e1, h1) =
        read_word_lem still (u32 (node + list_off_next)) w (omega (arith, here)) h in
      let same : (m (u32 (node + list_off_next)) == di.thread_list_ptr) ≡ true =
        rw e (ground arith) in
      (list, (w1, rw (e1, same) refl, refl, h1))
  walk_lem di current (suc fuel) node _ list w al here
        (links {next = next} {nodes = nodes} e ne there magic l) enough h =
      let x = list_to_thread di next in
      let (w1, e1, h1) =
        read_word_lem still (u32 (node + list_off_next)) w (omega (arith, here)) h in
      let e1' : read_word target (u32 (node + list_off_next)) w ≡ (some next, w1) =
        e1 ∙ ap (λ n. (some n, w1)) e in
      let (t, (w2, e2, et, h2)) =
        Gives_lem (read_lk_thread-Gives still di x false w1 al magic h1) in
      elim (Bool-cases (current == x)) [
        | inl same ↦
            let (ts, (w3, e3, e4, h3)) =
              walk_lem di current fuel next nodes list w1 al there l (omega (arith, enough)) h1 in
            (
              ts,
              (
                w3,
                walk-skip di current fuel node next list w w1 e1' ne (ground (arith, same)) ∙ e3,
                rw same e4,
                h3,
              ),
            )
        | inr other ↦
            let (ts, (w3, e3, e4, h3)) =
              walk_lem di current fuel next nodes (t ∷ list) w2 al there l (omega (arith, enough))
                h2 in
            (
              ts,
              (
                w3,
                walk-add di current fuel node next t list w w1 w2 e1' ne (ground (arith, other)) e2
                    ∙ e3,
                rw other (e4 ∙ ap (λ p. found di current nodes (p ∷ pointers list)) et),
                h3,
              ),
            )
      ]

  -- Once the debug information is read, with memory on the host, on a target whose memory stands still
  -- and whose kernel keeps its threads, their list and their saved stacks at multiples of 4, in which
  -- the current thread and every node of the list up to its head are threads' with the magic number,
  -- and with more fuel than the list has nodes, the threads are found: the current one, then every
  -- other one once, the last in the list first.
  pub find_lk_threads_lem :
      (di : DebugInfo) (fuel : ℕ) (nodes : List ℕ) (w w1 : W)
      → load_debuginfo target w ≡ (some di, w1)
      → Holds w1
      → IsAligned di
      → IsThread m di (m di.current_thread_ptr)
      → Links m di di.thread_list_ptr nodes
      → length nodes < fuel
      → (threads : List Thread) × ((w' : W) × (find_lk_threads target fuel w
            ≡ some (some threads, w'))
          × (pointers threads
              ≡ m di.current_thread_ptr ∷ found di (m di.current_thread_ptr) nodes [])
          × Holds w')
  unfolding find_lk_threads
  find_lk_threads_lem di fuel nodes w w1 e h al magic l enough =
      let current = m di.current_thread_ptr in
      let (w2, e2, h2) = read_word_lem still di.current_thread_ptr w1 al.current h in
      let (t, (w3, e3, et, h3)) =
        Gives_lem (read_lk_thread-Gives still di current true w2 al magic h2) in
      let (ts, (w4, e4, ep, h4)) =
        walk_lem di current fuel di.thread_list_ptr nodes [] w3 al al.head l enough h3 in
      let e4' : walk target di t.threadptr fuel di.thread_list_ptr [] w3 ≡ some (some ts, w4) =
        rw et e4 in
      (t ∷ ts, (w4, rw (e, e2, e3, e4') refl, rw (et, ep) refl, h4))
