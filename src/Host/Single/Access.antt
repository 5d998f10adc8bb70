-- ===== src/Host/Single/Access.antt =====
-- What the commands of a transaction do to the target's memory through its access port: the
-- registers SELECT, CSW and TAR of the debug port, and the accesses at the address in TAR.
use m3dev.Base.{
  ℕ, ◌+◌, ◌*◌, ◌/◌, ◌%◌, ◌≡◌, refl, List, [], ◌∷◌, ◌++◌, append_assoc, ◌==◌, ◌&&◌, if◌then◌else◌,
  bit_and, Option, some, ◌>>=◌,
}
use m3dev.Agent.Command.{Cmd, write, read, discard, encode, encode_all, AllFit}
use m3dev.Host.Txn.{Txn, q_ahb_write, q_ahb_read}

-- `bank` is bits 4 to 7 of SELECT; bits 4 and 5 of `csw` say whether an access increments the address.
pub record Ap : Type 0 where
  pub bank : ℕ
  pub csw : ℕ
  pub tar : ℕ

-- The address behind an access; it wraps at the end of a page of 4 KB.
abbrev pub next_tar : Ap → ℕ
next_tar p = if bit_and p.csw 0x30 == 0x10 then p.tar / 4096 * 4096 + (p.tar + 4) % 4096 else p.tar

-- A word stored, a word fetched, the fetched word delivered, and everything else.
pub data Access : Type 0 where
  stored : ℕ → ℕ → Access
  fetched : ℕ → Access
  delivered other : Access

abbrev pub perform_one : Ap → Cmd → Ap × List Access
perform_one p (write op (v ∷ [])) =
    if op == 9
    then (record p { bank = bit_and v 0xF0 }, [])
    else if op == 3 && p.bank == 0
    then (record p { csw = v }, [])
    else if op == 7 && p.bank == 0
    then (record p { tar = v }, [])
    else if op == 15 && p.bank == 0
    then (record p { tar = next_tar p }, stored p.tar v ∷ [])
    else (p, other ∷ [])
perform_one p (discard op n) =
    if op == 14 && (p.bank == 0 && n == 1)
    then (record p { tar = next_tar p }, fetched p.tar ∷ [])
    else (p, other ∷ [])
perform_one p (read op n) = if op == 12 && n == 1 then (p, delivered ∷ []) else (p, other ∷ [])
perform_one p _ = (p, other ∷ [])

abbrev pub perform : Ap → List Cmd → Ap × List Access
perform p [] = (p, [])
perform p (c ∷ cs) =
    let (p', xs) = perform_one p c in let (p'', ys) = perform p' cs in (p'', xs ++ ys)

pub perform-append :
    (p : Ap) (cs ds : List Cmd)
    → perform p (cs ++ ds)
      ≡ ((perform (perform p cs).0 ds).0, (perform p cs).1 ++ (perform (perform p cs).0 ds).1)
perform-append p [] ds = refl
perform-append p (c ∷ cs) ds =
    let p' = (perform_one p c).0 in
    rw
      (
        perform-append p' cs ds,
        append_assoc (perform_one p c).1 (perform p' cs).1 (perform (perform p' cs).0 ds).1,
      )
      refl

pub encode_all-append : (cs ds : List Cmd) → encode_all (cs ++ ds) ≡ encode_all cs ++ encode_all ds
encode_all-append [] ds = refl
encode_all-append (c ∷ cs) ds =
    rw (encode_all-append cs ds, append_assoc (encode c) (encode_all cs) (encode_all ds)) refl

pub AllFit-append : (cs ds : List Cmd) → AllFit cs → AllFit ds → AllFit (cs ++ ds)
AllFit-append [] ds f g = g
AllFit-append (c ∷ cs) ds (f, fs) g = (f, AllFit-append cs ds fs g)

-- What the host means: to store a value at an address, or to fetch the word there to a place of
-- its memory.
pub data Request : Type 0 where
  store fetch : ℕ → ℕ → Request

abbrev pub meaning : List Request → List Access
meaning [] = []
meaning (store addr v ∷ rs) = stored addr v ∷ meaning rs
meaning (fetch addr place ∷ rs) = fetched addr ∷ delivered ∷ meaning rs

abbrev pub places : List Request → List ℕ
places [] = []
places (store addr v ∷ rs) = places rs
places (fetch addr place ∷ rs) = place ∷ places rs

-- The host's functions for them.
unfoldable pub queue : Txn → List Request → Option Txn
unfolding q_ahb_write q_ahb_read
queue t [] = some t
queue t (store addr v ∷ rs) = do t' ← q_ahb_write t addr v; queue t' rs
queue t (fetch addr place ∷ rs) = do t' ← q_ahb_read t addr place; queue t' rs
