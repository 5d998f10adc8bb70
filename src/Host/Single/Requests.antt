-- ===== src/Host/Single/Requests.antt =====
-- Whole transactions of tools/rswdp.c: what the accesses queued by `q_ahb_write` and `q_ahb_read`,
-- by `swdp_core_read_all` and by `swdp_watchpoint` are.
use m3dev.Base.{
  ℕ, zero, suc, ◌+◌, ◌*◌, ◌<◌, ◌≤◌, ◌≡◌, ◌≢◌, refl, arith, List, [], ◌∷◌, ◌==◌, not, if◌then◌else◌,
  ltb, length, Option, some, bit_and, bit_and_mask, bit_or_fields_low, Bool-cases, bind_assoc,
  false, inl, inr, ◌%◌,
}
use m3dev.Protocol.{cdbg_reg_addr, cdbg_reg_data}
use m3dev.Agent.Command.{Cmd, encode_all, AllFit}
use m3dev.Host.Txn.{Txn, q_init, q_ahb_write, q_ahb_read}
use m3dev.Host.Single.{
  demcr, dwt_comp, dwt_mask, dwt_func, trace_enable, core_write_txn, q_core_read_from,
  watchpoint_txn, swdp_watchpoint, swdp_core_read_all, swdp_core_write,
}
use m3dev.Host.Single.Access.{Ap, perform, Request, store, fetch, meaning, places, queue}
use m3dev.Host.Single.Queued.{IsCached, Queued, Queued-nil, Queued-trans}
use m3dev.Host.Single.Cached.{IsSteady, IsSteady-csw, q_ahb_write-Queued, q_ahb_read-Queued}

-- No request is for 0xffffffff, with which an empty cache is marked.
abbrev pub AreAddressed : List Request → Type 0
AreAddressed [] = Unit {0}
AreAddressed (store addr v ∷ rs) = (addr ≢ 0xffffffff) × AreAddressed rs
AreAddressed (fetch addr place ∷ rs) = (addr ≢ 0xffffffff) × AreAddressed rs

-- The words that the requests take at most.
abbrev budget : List Request → ℕ
budget [] = 0
budget (r ∷ rs) = 8 + budget rs

budget-length : (rs : List Request) → budget rs ≡ 8 * length rs
budget-length [] = refl
budget-length (r ∷ rs) = omega (arith, budget-length rs)

queue-Queued :
    (t : Txn) (p : Ap) (rs : List Request)
    → length t.tx + budget rs + 1 < 2048
    → AreAddressed rs
    → IsSteady p
    → IsCached t p
    → (t' : Txn) × (p' : Ap) × (queue t rs ≡ some t')
      × Queued t t' (budget rs) p p' (meaning rs) (places rs)
unfolding queue
queue-Queued t p [] room ok steady c = (t, p, refl, Queued-nil t 0 p c)
queue-Queued t p (store addr v ∷ rs) room (ne, ok) steady c =
    let (t1, p1, e1, q1) = q_ahb_write-Queued t p addr v (omega arith) ne steady c in
    let (t2, p2, e2, q2) =
      queue-Queued t1 p1 rs (omega (arith, q1.few)) ok (IsSteady-csw p p1 q1.csw_kept steady)
        q1.cached in
    (t2, p2, rw e1 e2, Queued-trans q1 q2)
queue-Queued t p (fetch addr place ∷ rs) room (ne, ok) steady c =
    let (t1, p1, e1, q1) = q_ahb_read-Queued t p addr place (omega arith) ne steady c in
    let (t2, p2, e2, q2) =
      queue-Queued t1 p1 rs (omega (arith, q1.few)) ok (IsSteady-csw p p1 q1.csw_kept steady)
        q1.cached in
    (t2, p2, rw e1 e2, Queued-trans q1 q2)

-- The transaction's words encode commands that fit, and from the registers `p`, these
-- do the requests, in order, with the fetched words for the requests' places.
pub record Carries (t : Txn) (rs : List Request) (p : Ap) : Type 0 where
  pub cmds : List Cmd
  pub words : t.tx ≡ encode_all cmds
  pub few : length t.tx ≤ 8 * length rs
  pub fits : AllFit cmds
  pub performs : (perform p cmds).1 ≡ meaning rs
  pub rx_places : t.rx ≡ places rs

-- Up to 255 requests, none for the address 0xffffffff, are queued in one transaction, and it
-- carries them, in order and at their addresses, from any bank and address in the access port's
-- registers, if its CSW does not make accesses increment the address.
pub queue-Carries :
    (rs : List Request) (p : Ap)
    → length rs ≤ 255
    → AreAddressed rs
    → IsSteady p
    → (t : Txn) × (queue q_init rs ≡ some t) × Carries t rs p
queue-Carries rs p few ok steady =
    let c : IsCached q_init p = record {
      bank_known = λ ne. absurd (ne refl);
      tar_known = λ ne. absurd (ne refl);
    } in
    let (t, p', e, q) =
      queue-Queued q_init p rs (omega (arith, few, budget-length rs)) ok steady c in
    (
      t,
      e,
      record {
        cmds = q.cmds;
        words = q.words;
        few = omega (arith, q.few, budget-length rs);
        fits = q.fits;
        performs = rw (q.performs) refl;
        rx_places = q.rx_words;
      },
    )

-- The requests of `swdp_core_read_all` from register `n` on.
abbrev pub core_requests : ℕ → ℕ → ℕ → List Request
core_requests zero n v = []
core_requests (suc left) n v =
    store cdbg_reg_addr (bit_and n 0x1F)
    ∷ fetch cdbg_reg_data v
    ∷ core_requests left (n + 1) (v + 4)

abbrev pub watchpoint_requests : ℕ → ℕ → ℕ → List Request
watchpoint_requests n addr func =
    store demcr trace_enable
    ∷ store (dwt_func n) 0
    ∷ (if not (func == 0)
        then store (dwt_comp n) addr ∷ store (dwt_mask n) 0 ∷ store (dwt_func n) func ∷ []
        else [])

core_write_queue :
    (n v : ℕ)
    → core_write_txn n v
      ≡ queue q_init (store cdbg_reg_data v ∷ store cdbg_reg_addr (0x10000 + n % 32) ∷ [])
unfolding queue core_write_txn
core_write_queue n v = rw (bit_and_mask 5 n, bit_or_fields_low 16 1 (n % 32) (omega arith)) refl

queue-core_requests :
    (left n v : ℕ) (t : Txn) → q_core_read_from left n v t ≡ queue t (core_requests left n v)
unfolding queue q_core_read_from
queue-core_requests zero n v t = refl
queue-core_requests (suc left) n v t =
    bind_assoc (q_ahb_write t cdbg_reg_addr (bit_and n 0x1F)) (λ t'. q_ahb_read t' cdbg_reg_data v)
      (q_core_read_from left (n + 1) (v + 4)) (λ t'. queue t' (core_requests left (n + 1) (v + 4)))
      (queue-core_requests left (n + 1) (v + 4))

queue-watchpoint_requests :
    (n addr func : ℕ) → watchpoint_txn n addr func ≡ queue q_init (watchpoint_requests n addr func)
unfolding queue watchpoint_txn
queue-watchpoint_requests n addr func = elim (Bool-cases (func == 0)) [
  | inl h ↦ rw h refl
  | inr h ↦ rw h refl
]

core_requests-length : (left n v : ℕ) → length (core_requests left n v) ≡ 2 * left
core_requests-length zero n v = refl
core_requests-length (suc left) n v = omega (arith, core_requests-length left (n + 1) (v + 4))

core_requests-AreAddressed : (left n v : ℕ) → AreAddressed (core_requests left n v)
core_requests-AreAddressed zero n v = tt
core_requests-AreAddressed (suc left) n v =
    (omega arith, (omega arith, core_requests-AreAddressed left (n + 1) (v + 4)))

watchpoint_requests-few : (n addr func : ℕ) → length (watchpoint_requests n addr func) ≤ 255
watchpoint_requests-few n addr func = elim (Bool-cases (func == 0)) [
  | inl h ↦ rw h (omega arith)
  | inr h ↦ rw h (omega arith)
]

watchpoint_requests-AreAddressed :
    (n addr func : ℕ) → n ≤ 3 → AreAddressed (watchpoint_requests n addr func)
watchpoint_requests-AreAddressed n addr func le = elim (Bool-cases (func == 0)) [
  | inl h ↦ rw h (omega arith, (omega (arith, le), tt))
  | inr h ↦ rw h (
    omega arith,
    (omega (arith, le), (omega (arith, le), (omega (arith, le), (omega (arith, le), tt)))),
  )
]

module _ {H : Type 0} (q_exec : Txn → H → Option (ℕ × H)) where
  -- `swdp_core_read_all` carries out one transaction that, whatever the access port's bank and
  -- address, with a steady address, selects each of the 19 registers in turn and fetches its value to the next word of the
  -- caller's array.
  pub swdp_core_read_all-Carries :
      (v : ℕ) (h : H) (p : Ap)
      → IsSteady p
      → (t : Txn) × (swdp_core_read_all q_exec v h ≡ q_exec t h)
        × Carries t (core_requests 19 0 v) p
  unfolding swdp_core_read_all
  swdp_core_read_all-Carries v h p steady =
      let (t, e, c) =
        queue-Carries (core_requests 19 0 v) p (omega (arith, core_requests-length 19 0 v))
          (core_requests-AreAddressed 19 0 v) steady in
      (t, rw (queue-core_requests 19 0 v q_init, e) refl, c)

  -- `swdp_watchpoint` of a unit from 0 to 3 carries out one transaction that, whatever the access
  -- port's bank and address, with a steady address, enables the unit's block, disables the unit, and for a function sets the
  -- unit's address and mask before it enables the function.
  pub swdp_watchpoint-Carries :
      (n addr func : ℕ) (h : H) (p : Ap)
      → n ≤ 3
      → IsSteady p
      → (t : Txn) × (swdp_watchpoint q_exec n addr func h ≡ q_exec t h)
        × Carries t (watchpoint_requests n addr func) p
  unfolding swdp_watchpoint
  swdp_watchpoint-Carries n addr func h p le steady =
      let e0 : ltb 3 n ≡ false = ground (arith, le) in
      let few = watchpoint_requests-few n addr func in
      let ok = watchpoint_requests-AreAddressed n addr func le in
      let (t, e, c) = queue-Carries (watchpoint_requests n addr func) p few ok steady in
      (t, rw (e0, queue-watchpoint_requests n addr func, e) refl, c)

  -- `swdp_core_write` carries out one transaction that, with a steady address,
  -- sets the data register before it asks for the transfer to the core register.
  pub swdp_core_write-Carries :
      (n v : ℕ) (h : H) (p : Ap)
      → IsSteady p
      → (t : Txn) × (swdp_core_write q_exec n v h ≡ q_exec t h)
        × Carries t (store cdbg_reg_data v ∷ store cdbg_reg_addr (0x10000 + n % 32) ∷ []) p
  unfolding swdp_core_write
  swdp_core_write-Carries n v h p steady =
      let r = 0x10000 + n % 32 in
      let rs = store cdbg_reg_data v ∷ store cdbg_reg_addr r ∷ [] in
      let (t, e, c) = queue-Carries rs p (omega arith) (omega arith, (omega arith, tt)) steady in
      (t, rw (core_write_queue n v, e) refl, c)
