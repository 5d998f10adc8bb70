-- ===== src/Host/Single/Queued.antt =====
-- What queueing adds to a transaction of tools/rswdp.c, and how such steps compose.
use m3dev.Base.{
  ℕ, ◌+◌, ◌≤◌, ◌≡◌, ◌≢◌, ◌∙◌, refl, sym, arith, List, [], ◌∷◌, ◌++◌, append-nil, append_assoc,
  length, length-append,
}
use m3dev.Agent.Command.{Cmd, encode_all, AllFit}
use m3dev.Host.Txn.{Txn}
use m3dev.Host.Single.Access.{Ap, Access, perform, perform-append, encode_all-append, AllFit-append}

-- What a cache holds is what the register holds, unless it is the initial 0xffffffff.
pub record IsCached (t : Txn) (p : Ap) : Type 0 where
  pub bank_known : t.cache_apaddr ≢ 0xffffffff → t.cache_apaddr ≡ p.bank
  pub tar_known : t.cache_ahbtar ≢ 0xffffffff → t.cache_ahbtar ≡ p.tar

-- From `t` to `t'` the words of commands were queued, at most `n` of them, that take the access
-- port from `p` to `p'` with the accesses `xs`.
pub record Queued (t t' : Txn) (n : ℕ) (p p' : Ap) (xs : List Access) (rs : List ℕ) : Type 0 where
  pub cmds : List Cmd
  pub words : t'.tx ≡ t.tx ++ encode_all cmds
  pub few : length t'.tx ≤ length t.tx + n
  pub fits : AllFit cmds
  pub performs : perform p cmds ≡ (p', xs)
  pub rx_words : t'.rx ≡ t.rx ++ rs
  pub csw_kept : p'.csw ≡ p.csw
  pub cached : IsCached t' p'

pub Queued-nil : (t : Txn) (n : ℕ) (p : Ap) → IsCached t p → Queued t t n p p [] []
Queued-nil t n p c = record {
  cmds = [];
  words = sym (append-nil t.tx);
  few = omega arith;
  fits = tt;
  performs = refl;
  rx_words = sym (append-nil t.rx);
  csw_kept = refl;
  cached = c;
}

module _ {t t1 t2 : Txn} {m n : ℕ} {p p1 p2 : Ap} {xs ys : List Access} {rs ss : List ℕ} where
  pub Queued-trans :
      Queued t t1 m p p1 xs rs
      → Queued t1 t2 n p1 p2 ys ss
      → Queued t t2 (m + n) p p2 (xs ++ ys) (rs ++ ss)
  Queued-trans q r = record {
    cmds = q.cmds ++ r.cmds;
    words =
        rw (r.words, q.words, encode_all-append q.cmds r.cmds)
          (append_assoc t.tx (encode_all q.cmds) (encode_all r.cmds));
    few = omega (arith, q.few, r.few);
    fits = AllFit-append q.cmds r.cmds q.fits r.fits;
    performs = rw (perform-append p q.cmds r.cmds, q.performs, r.performs) refl;
    rx_words = rw (r.rx_words, q.rx_words) (append_assoc t.rx rs ss);
    csw_kept = r.csw_kept ∙ q.csw_kept;
    cached = r.cached;
  }

pub length-append2 : (xs : List ℕ) (a b : ℕ) → length ((xs ++ (a ∷ [])) ++ (b ∷ [])) ≡ length xs + 2
length-append2 xs a b =
    omega (arith, length-append {0} (xs ++ (a ∷ [])) (b ∷ []), length-append {0} xs (a ∷ []))
