-- ===== src/Host/Single/Tests.antt =====
-- Single operations of the host on concrete registers.
use m3dev.Base.{◌≡◌, refl, arith, List, [], ◌∷◌, some}
use m3dev.Host.Txn.{Txn, q_init}
use m3dev.Host.Single.Access.{Ap, Request, store, fetch, queue}
use m3dev.Host.Single.Requests.{Carries, queue-Carries}

-- An access port left with another bank selected.
abbrev port : Ap
port = record { bank = 0xF0; csw = 0x22000042; tar = 0x20000000 }

abbrev mixed : List Request
mixed = store 0x20000000 1 ∷ fetch 0x20000000 100 ∷ fetch 0xE000EDF0 104 ∷ store 0xE000EDF0 0 ∷ []

queue-Carries_example : (t : Txn) × (queue q_init mixed ≡ some t) × Carries t mixed port
queue-Carries_example =
    queue-Carries mixed port (omega arith)
      (omega arith, (omega arith, (omega arith, (omega arith, tt)))) refl
