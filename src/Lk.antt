-- ===== src/Lk.antt =====
-- The threads of an lk kernel on the target, tools/lkdebug.c, read through the debug link. A read
-- that fails ends the whole. The list is walked with fuel; an outer `none` means that it ran out.
mod Tests
pub mod Reads
pub mod Walk
use m3dev.Base.{
  ℕ, zero, suc, ◌+◌, ◌-◌, ◌*◌, ◌/◌, ◌%◌, ◌^◌, List, [], ◌∷◌, ◌++◌, Option, none, some, Bool, true,
  false, not, ◌||◌, ◌==◌, ltb, if◌then◌else◌, length, get_or, take, drop, replicate, bit_and, u32,
  sub_u32, ascii,
}
use m3dev.Target.{Target}

abbrev pub di_magic : ℕ
di_magic = 0x52474244

abbrev pub lk_thread_magic : ℕ
lk_thread_magic = 0x74687264

abbrev pub list_off_next : ℕ
list_off_next = 4

abbrev pub lk_max_state : ℕ
lk_max_state = 5

-- `lkdebuginfo_t`
pub record DebugInfo : Type 0 where
  pub version : ℕ
  pub thread_list_ptr : ℕ
  pub current_thread_ptr : ℕ
  pub off_list_node : ℕ
  pub off_state : ℕ
  pub off_saved_sp : ℕ
  pub off_was_preempted : ℕ
  pub off_name : ℕ
  pub off_waitq : ℕ

-- `lkthread_t`; `name` is its text.
pub record Thread : Type 0 where
  pub active : Bool
  pub threadptr : ℕ
  pub nextptr : ℕ
  pub state : ℕ
  pub saved_sp : ℕ
  pub waitq : ℕ
  pub name : List ℕ
  pub regs : List ℕ

abbrev pub lt_next_ptr : DebugInfo → ℕ → ℕ
lt_next_ptr di tp = u32 (tp + di.off_list_node + list_off_next)

abbrev pub list_to_thread : DebugInfo → ℕ → ℕ
list_to_thread di lp = sub_u32 lp di.off_list_node

-- The bytes that a word is stored as.
abbrev pub word_bytes : ℕ → List ℕ
word_bytes x = x % 256 ∷ (x / 256) % 256 ∷ (x / 2 ^ 16) % 256 ∷ (x / 2 ^ 24) % 256 ∷ []

abbrev pub bytes_of_words : List ℕ → List ℕ
bytes_of_words [] = []
bytes_of_words (x ∷ xs) = word_bytes x ++ bytes_of_words xs

-- The loop over `name`: up to 31 characters, ended by a zero.
unfoldable pub clean_name : ℕ → List ℕ → List ℕ
clean_name zero cs = []
clean_name (suc n) [] = []
clean_name (suc n) (c ∷ cs) =
    if c == 0 then [] else (if ltb c b' ' || ltb 127 c then b'.' else c) ∷ clean_name n cs

-- The registers that are not in the frame.
abbrev pub unknown_reg : ℕ
unknown_reg = 0xEEEEEEEE

-- `regs` of a thread that is switched out, from the frame of its switch.
unfoldable pub short_frame : ℕ → List ℕ → List ℕ
short_frame sp fr =
    replicate 4 unknown_reg
    ++ (take 8 fr ++ (unknown_reg ∷ u32 (sp + 36) ∷ unknown_reg ∷ get_or fr 8 0 ∷ 0x10000000 ∷ []))

-- The same, with the frame of the exception behind it.
unfoldable pub exception_frame : ℕ → List ℕ → List ℕ → List ℕ
exception_frame sp fr ex =
    take 4 ex
    ++ (take 8 fr
        ++ (get_or ex 4 0 ∷ u32 (sp + 68) ∷ get_or ex 5 0 ∷ get_or ex 6 0 ∷ get_or ex 7 0 ∷ []))

-- Steps that may fail; what was read stays read.
abbrev pub Reader : Type 0 → Type 0 → Type 0
Reader W A = W → Option A × W

unfoldable pub and_then : {W A B : Type 0} → Option A × W → (A → Reader W B) → Option B × W
and_then (none, w) f = (none, w)
and_then (some a, w) f = f a w

-- `goto fail`, or what follows.
unfoldable pub or_fail : {W A B : Type 0} → Option A × W → (W → B) → (A → W → B) → B
or_fail (none, w) fail next = fail w
or_fail (some a, w) fail next = next a w

infixl 5 ◌>>=◌
abbrev pub ◌>>=◌ : {W A B : Type 0} → Reader W A → (A → Reader W B) → Reader W B
◌>>=◌ m f w = and_then (m w) f

abbrev pub pure : {W A : Type 0} → A → Reader W A
pure a w = (some a, w)

abbrev pub guard : {W : Type 0} → Bool → Reader W (Unit {0})
guard b w = (if b then some tt else none, w)

module _ {W : Type 0} (target : Target W) where
  unfoldable pub read_word : ℕ → Reader W ℕ
  read_word a w = let (r, x, w') = target.swdp_ahb_read a w in (if r == 0 then some x else none, w')

  unfoldable pub read_words : ℕ → ℕ → Reader W (List ℕ)
  read_words a n w =
      let (r, xs, w') = target.swdp_ahb_read32 a n w in (if r == 0 then some xs else none, w')

  unfoldable pub read_regs : Bool → ℕ → Reader W (List ℕ)
  unfolding and_then
  read_regs true sp = pure (replicate 17 unknown_reg)
  read_regs false sp = do
    fr ← read_words sp 9
    let whole : Reader W (List ℕ) = (do
      ex ← read_words (u32 (sp + 36)) 8
      pure (exception_frame sp fr ex))
    (if bit_and (get_or fr 8 0) 0xFFFFFF00 == 0xFFFFFF00 then whole else pure (short_frame sp fr))

  unfoldable pub allocate : Reader W (Unit {0})
  allocate w = let (there, w') = target.calloc w in (if there then some tt else none, w')

  unfoldable pub read_lk_thread : DebugInfo → ℕ → Bool → Reader W Thread
  unfolding and_then
  read_lk_thread di ptr active = do
    memory ← allocate
    x ← read_word ptr
    magic ← guard (x == lk_thread_magic)
    nextptr ← read_word (lt_next_ptr di ptr)
    state ← read_word (u32 (ptr + di.off_state))
    saved_sp ← read_word (u32 (ptr + di.off_saved_sp))
    waitq ← read_word (u32 (ptr + di.off_waitq))
    text ← read_words (u32 (ptr + di.off_name)) 8
    regs ← read_regs active saved_sp
    pure (record {
      active = active;
      threadptr = ptr;
      nextptr = nextptr;
      state = if ltb lk_max_state state then lk_max_state + 1 else state;
      saved_sp = saved_sp;
      waitq = waitq;
      name = clean_name 31 (bytes_of_words text);
      regs = regs;
    })

  unfoldable pub load_debuginfo : Reader W DebugInfo
  unfolding and_then
  load_debuginfo w0 =
      let (r, x, w) = target.swdp_ahb_read 0xE000ED08 w0 in
      let vtbl = if r == 0 then x else 0 in
      (do
        magic ← read_word (u32 (32 + vtbl))
        right_magic ← guard (magic == di_magic)
        ptr ← read_word (u32 (36 + vtbl))
        aligned ← guard (bit_and ptr 3 == 0)
        ws ← read_words ptr 5
        right_version ← guard (get_or ws 0 0 == 0x0100)
        let offs = bytes_of_words (drop 3 ws)
        pure (record {
          version = get_or ws 0 0;
          thread_list_ptr = get_or ws 1 0;
          current_thread_ptr = get_or ws 2 0;
          off_list_node = get_or offs 0 0;
          off_state = get_or offs 1 0;
          off_saved_sp = get_or offs 2 0;
          off_was_preempted = get_or offs 3 0;
          off_name = get_or offs 4 0;
          off_waitq = get_or offs 5 0;
        }))
        w

  unfoldable pub clear_lk_threads : W → W
  clear_lk_threads w0 =
      let (found, w) = load_debuginfo w0 in
      elim found [
        | none ↦ w
        | some di ↦
            let at_head = u32 (di.thread_list_ptr + 0) in
            let behind = u32 (di.thread_list_ptr + 4) in
            target.swdp_ahb_write behind 0xFFFFFFFF (
              target.swdp_ahb_write at_head 0xFFFFFFFF
                (target.swdp_ahb_write di.current_thread_ptr 0xFFFFFFFF w))
      ]

  -- The loop of `find_lk_threads` from the list node `rtp` on, with the list so far.
  unfoldable pub walk : DebugInfo → ℕ → ℕ → ℕ → List Thread → W → Option (Option (List Thread) × W)
  unfolding or_fail
  walk di current zero rtp list w = none
  walk di current (suc fuel) rtp list w =
      or_fail (read_word (u32 (rtp + list_off_next)) w) (λ w1. some (none, w1))
        (λ node w1.
          let x = list_to_thread di node in
          let skipped = walk di current fuel node list w1 in
          let added =
            or_fail (read_lk_thread di x false w1) (λ w2. some (none, w2))
              (λ t w2. walk di current fuel node (t ∷ list) w2) in
          if node == di.thread_list_ptr
          then some (some list, w1)
          else if current == x
          then skipped
          else added)

  -- `current->next = list`
  unfoldable pub behind_current :
      Thread → Option (Option (List Thread) × W) → Option (Option (List Thread) × W)
  behind_current current none = none
  behind_current current (some (none, w)) = some (none, w)
  behind_current current (some (some list, w)) = some (some (current ∷ list), w)

  unfoldable pub find_lk_threads : ℕ → W → Option (Option (List Thread) × W)
  unfolding or_fail behind_current
  find_lk_threads fuel w0 =
      or_fail (load_debuginfo w0) (λ w1. some (none, w1))
        (λ di w1.
          or_fail (read_word di.current_thread_ptr w1) (λ w2. some (none, w2))
            (λ x w2.
              or_fail (read_lk_thread di x true w2) (λ w3. some (none, w3))
                (λ current w3.
                  behind_current current
                    (walk di current.threadptr fuel di.thread_list_ptr [] w3))))

unfoldable pub find_lk_thread : List Thread → ℕ → Option Thread
find_lk_thread [] tptr = none
find_lk_thread (t ∷ list) tptr = if t.threadptr == tptr then some t else find_lk_thread list tptr

unfoldable pub lkstate : ℕ → List ℕ
lkstate state =
    if state == 0
    then ascii "SUSP "
    else if state == 1
    then ascii "READY"
    else if state == 2
    then ascii "RUN  "
    else if state == 3
    then ascii "BLOCK"
    else if state == 4
    then ascii "SLEEP"
    else if state == 5
    then ascii "DEAD "
    else ascii "?????"

unfoldable pub get_lk_thread_name : Thread → ℕ → List ℕ
unfolding lkstate
get_lk_thread_name t max = take (max - 1) (lkstate t.state ++ ascii " - " ++ t.name)
