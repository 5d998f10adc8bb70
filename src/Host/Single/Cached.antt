-- ===== src/Host/Single/Cached.antt =====
-- The two caches of a transaction, `cache_apaddr` and `cache_ahbtar` of tools/rswdp.c: the accesses
-- queued with them reach the addresses asked for.
use m3dev.Base.{
  ℕ, ◌+◌, ◌<◌, ◌≡◌, ◌≢◌, refl, sym, ap, subst, ◌∙◌, arith, [], ◌∷◌, append-nil, append_assoc, ◌==◌,
  false, bit_and, length, some, Bool-cases, inl, inr,
}
use m3dev.Protocol.{rswd_msg, dp_select, ahb_drw}
use m3dev.Agent.Command.{write, read, discard}
use m3dev.Host.Txn.{
  Txn, swd_wr, put_tx, put_rx, q_check, q_ap_select, q_ap_write, q_ap_read, q_ahb_tar, q_ahb_write,
  q_ahb_read,
}
use m3dev.Host.Single.Access.{Ap, stored, fetched, delivered}
use m3dev.Host.Single.Queued.{IsCached, Queued, Queued-nil, Queued-trans, length-append2}

-- An access does not increment the address.
abbrev pub IsSteady : Ap → Type 0
IsSteady p = (bit_and p.csw 0x30 == 0x10) ≡ false

pub IsSteady-csw : (p q : Ap) → q.csw ≡ p.csw → IsSteady p → IsSteady q
IsSteady-csw p q e steady = ap (λ x. bit_and x 0x30 == 0x10) e ∙ steady

-- A bank of 0 selected, where it was not.
q_ap_select-Queued :
    (t : Txn) (p : Ap) (a : ℕ)
    → bit_and a 0xF0 ≡ 0
    → IsCached t p
    → Queued t (q_ap_select t a) 2 p (record p { bank = 0 }) [] []
unfolding q_ap_select
q_ap_select-Queued t p a e c = elim (Bool-cases (t.cache_apaddr == 0)) [
  | inl h ↦
      rw (e, h)
        record {
          cmds = [];
          words = sym (append-nil t.tx);
          few = omega arith;
          fits = tt;
          performs = (let known : 0 ≡ p.bank = ground (arith, h, c.bank_known) in rw known refl);
          rx_words = sym (append-nil t.rx);
          csw_kept = refl;
          cached = record { bank_known = λ _. ground (arith, h); tar_known = c.tar_known };
        }
  | inr h ↦
      rw (e, h)
        record {
          cmds = write 9 (0 ∷ []) ∷ [];
          words = append_assoc t.tx (swd_wr dp_select 1 ∷ []) (0 ∷ []);
          few = omega (arith, length-append2 t.tx (swd_wr dp_select 1) 0);
          fits = ((omega arith, omega arith), tt);
          performs = refl;
          rx_words = sym (append-nil t.rx);
          csw_kept = refl;
          cached = record { bank_known = λ _. refl; tar_known = c.tar_known };
        }
]

-- A value for the data register, and for the address register.
drw-Queued :
    (t : Txn) (p : Ap) (v : ℕ)
    → p.bank ≡ 0
    → IsSteady p
    → IsCached t p
    → Queued t (put_tx v (put_tx (rswd_msg 1 15 1) t)) 2 p p (stored p.tar v ∷ []) []
drw-Queued t p v e steady c = record {
  cmds = write 15 (v ∷ []) ∷ [];
  words = append_assoc t.tx (rswd_msg 1 15 1 ∷ []) (v ∷ []);
  few = omega (arith, length-append2 t.tx (rswd_msg 1 15 1) v);
  fits = ((omega arith, omega arith), tt);
  performs = rw (e, steady) refl;
  rx_words = sym (append-nil t.rx);
  csw_kept = refl;
  cached = record { bank_known = c.bank_known; tar_known = c.tar_known };
}

tar-Queued :
    (t : Txn) (p : Ap) (v : ℕ)
    → p.bank ≡ 0
    → IsCached t p
    → Queued t
        (record (put_tx v (put_tx (rswd_msg 1 7 1) t)) { cache_ahbtar = v })
        2
        p
        (record p { tar = v })
        []
        []
tar-Queued t p v e c = record {
  cmds = write 7 (v ∷ []) ∷ [];
  words = append_assoc t.tx (rswd_msg 1 7 1 ∷ []) (v ∷ []);
  few = omega (arith, length-append2 t.tx (rswd_msg 1 7 1) v);
  fits = ((omega arith, omega arith), tt);
  performs = rw e refl;
  rx_words = sym (append-nil t.rx);
  csw_kept = refl;
  cached = record { bank_known = c.bank_known; tar_known = λ _. refl };
}

fetch-Queued :
    (t : Txn) (p : Ap) (place : ℕ)
    → p.bank ≡ 0
    → IsSteady p
    → IsCached t p
    → Queued t
        (put_rx place (put_tx (rswd_msg 2 12 1) (put_tx (rswd_msg 3 14 1) t)))
        2
        p
        p
        (fetched p.tar ∷ delivered ∷ [])
        (place ∷ [])
fetch-Queued t p place e steady c = record {
  cmds = discard 14 1 ∷ read 12 1 ∷ [];
  words = append_assoc t.tx (rswd_msg 3 14 1 ∷ []) (rswd_msg 2 12 1 ∷ []);
  few = omega (arith, length-append2 t.tx (rswd_msg 3 14 1) (rswd_msg 2 12 1));
  fits = ((omega arith, omega arith), ((omega arith, omega arith), tt));
  performs = rw (e, steady) refl;
  rx_words = refl;
  csw_kept = refl;
  cached = record { bank_known = c.bank_known; tar_known = c.tar_known };
}

q_ahb_tar-Queued :
    (t : Txn) (p : Ap) (addr : ℕ)
    → length t.tx + 4 < 2048
    → addr ≢ 0xffffffff
    → IsCached t p
    → (t' : Txn) × (b : ℕ) × (q_ahb_tar t addr ≡ some t')
      × Queued t t' 4 p (record { bank = b; csw = p.csw; tar = addr }) [] []
unfolding q_ahb_tar q_check
q_ahb_tar-Queued t p addr room ne c = elim (Bool-cases (t.cache_ahbtar == addr)) [
  | inl h ↦
      let e : p.tar ≡ addr = ground (arith, h, ne, c.tar_known) in
      (
        t,
        p.bank,
        rw h refl,
        subst (λ p'. Queued t t 4 p p' [] [])
            (ap (λ a. record { bank = p.bank; csw = p.csw; tar = a }) e) (Queued-nil t 4 p c),
      )
  | inr h ↦
      let s = q_ap_select-Queued t p 4 refl c in
      let q = tar-Queued (q_ap_select t 4) (record p { bank = 0 }) addr refl s.cached in
      (
        record (put_tx addr (put_tx (rswd_msg 1 7 1) (q_ap_select t 4))) { cache_ahbtar = addr },
        0,
        ground (arith, h, room),
        Queued-trans s q,
      )
]

q_ap_write-some :
    (t : Txn) (v : ℕ)
    → length t.tx + 4 < 2048
    → q_ap_write t ahb_drw v ≡ some (put_tx v (put_tx (rswd_msg 1 15 1) (q_ap_select t 12)))
unfolding q_ap_write
q_ap_write-some t v room = ground (arith, room)

q_ap_read-some :
    (t : Txn) (place : ℕ)
    → length t.tx + 5 < 2048
    → q_ap_read t ahb_drw place
      ≡ some (put_rx place (put_tx (rswd_msg 2 12 1) (put_tx (rswd_msg 3 14 1) (q_ap_select t 12))))
unfolding q_ap_read
q_ap_read-some t place room = ground (arith, room)

q_ahb_write-bind :
    (t t' : Txn) (addr v : ℕ)
    → q_ahb_tar t addr ≡ some t'
    → q_ahb_write t addr v ≡ q_ap_write t' ahb_drw v
unfolding q_ahb_write
q_ahb_write-bind t t' addr v e = rw e refl

q_ahb_read-bind :
    (t t' : Txn) (addr place : ℕ)
    → q_ahb_tar t addr ≡ some t'
    → q_ahb_read t addr place ≡ q_ap_read t' ahb_drw place
unfolding q_ahb_read
q_ahb_read-bind t t' addr place e = rw e refl

pub q_ahb_write-Queued :
    (t : Txn) (p : Ap) (addr v : ℕ)
    → length t.tx + 9 < 2048
    → addr ≢ 0xffffffff
    → IsSteady p
    → IsCached t p
    → (t' : Txn) × (p' : Ap) × (q_ahb_write t addr v ≡ some t')
      × Queued t t' 8 p p' (stored addr v ∷ []) []
q_ahb_write-Queued t p addr v room ne steady c =
    let (t1, b, e1, q1) = q_ahb_tar-Queued t p addr (omega arith) ne c in
    let s =
      q_ap_select-Queued t1 (record { bank = b; csw = p.csw; tar = addr }) 12 refl q1.cached in
    let q =
      drw-Queued (q_ap_select t1 12) (record { bank = 0; csw = p.csw; tar = addr }) v refl steady
        s.cached in
    (
      put_tx v (put_tx (rswd_msg 1 15 1) (q_ap_select t1 12)),
      record { bank = 0; csw = p.csw; tar = addr },
      q_ahb_write-bind t t1 addr v e1 ∙ q_ap_write-some t1 v (omega (arith, room, q1.few)),
      Queued-trans q1 (Queued-trans s q),
    )

pub q_ahb_read-Queued :
    (t : Txn) (p : Ap) (addr place : ℕ)
    → length t.tx + 9 < 2048
    → addr ≢ 0xffffffff
    → IsSteady p
    → IsCached t p
    → (t' : Txn) × (p' : Ap) × (q_ahb_read t addr place ≡ some t')
      × Queued t t' 8 p p' (fetched addr ∷ delivered ∷ []) (place ∷ [])
q_ahb_read-Queued t p addr place room ne steady c =
    let (t1, b, e1, q1) = q_ahb_tar-Queued t p addr (omega arith) ne c in
    let s =
      q_ap_select-Queued t1 (record { bank = b; csw = p.csw; tar = addr }) 12 refl q1.cached in
    let q =
      fetch-Queued (q_ap_select t1 12) (record { bank = 0; csw = p.csw; tar = addr }) place refl
        steady s.cached in
    (
      put_rx place (put_tx (rswd_msg 2 12 1) (put_tx (rswd_msg 3 14 1) (q_ap_select t1 12))),
      record { bank = 0; csw = p.csw; tar = addr },
      q_ahb_read-bind t t1 addr place e1 ∙ q_ap_read-some t1 place (omega (arith, room, q1.few)),
      Queued-trans q1 (Queued-trans s q),
    )
