-- ===== src/Session/Blocks.antt =====
-- The data blocks that the firmware's replies are made of.
use m3dev.Base.{
  ℕ, zero, suc, ◌+◌, ◌≤◌, ◌≡◌, ◌⊎◌, inl, inr, refl, arith, true, false, List, [], ◌∷◌, ◌++◌,
  if◌then◌else◌, length, length-append, append_assoc, append-nil, length-replicate, Bool-cases,
}
use m3dev.Protocol.{rswd_msg, cmd_swd_data}
use m3dev.Agent.Hardware.{Port}
use m3dev.Agent.{Out, optable}
use m3dev.Agent.Command.{Cmd, null, read, Fits, AllFit, do_reads, exec_one, exec}
use m3dev.Host.Reply.Blocks.{frame, flat, AllShort}

-- The words of data that a command, and a list of commands, ask for.
abbrev pub asked_one : Cmd → ℕ
asked_one (read op n) = n
asked_one _ = 0

abbrev pub asked : List Cmd → ℕ
asked [] = 0
asked (c ∷ cs) = asked_one c + asked cs

frame-append : (bs cs : List (List ℕ)) → frame (bs ++ cs) ≡ frame bs ++ frame cs
frame-append [] cs = refl
frame-append (b ∷ bs) cs = ground (
  arith,
  frame-append bs cs,
  append_assoc (rswd_msg cmd_swd_data 0 (length b) ∷ b) (frame bs) (frame cs),
)

AllShort-append : (bs cs : List (List ℕ)) → AllShort bs → AllShort cs → AllShort (bs ++ cs)
AllShort-append [] cs p q = q
AllShort-append (b ∷ bs) cs p q = (p.0, AllShort-append bs cs p.1 q)

length-flat-append :
    (bs cs : List (List ℕ)) → length (flat (bs ++ cs)) ≡ length (flat bs) + length (flat cs)
length-flat-append [] cs = omega arith
length-flat-append (b ∷ bs) cs = omega (
  arith,
  length-flat-append bs cs,
  length-append {0} b (flat (bs ++ cs)),
  length-append {0} b (flat bs),
)

module _ {W : Type 0} (port : Port W) where
  length-do_reads : (code n : ℕ) (w : W) → length (do_reads port code n w).1 ≡ n
  unfolding do_reads
  length-do_reads code zero w = refl
  length-do_reads code (suc n) w = ground (
    arith,
    length-do_reads code n (port.swdp_read code w).2,
    length-replicate {0} {A = ℕ} n 0xfefefefe,
  )

  abbrev blocks_one : Cmd → Out W → List (List ℕ)
  blocks_one (read op n) o = (do_reads port (optable port op) n o.world).1 ∷ []
  blocks_one _ o = []

  -- The data that the commands yield, a block for each CMD_SWD_READ that is reached.
  pub blocks : List Cmd → Out W → List (List ℕ)
  blocks [] o = []
  blocks (c ∷ cs) o =
      let o1 = record o { count = o.count + 1 } in
      let rest = blocks cs (exec_one port c o1).1 in
      blocks_one c o1 ++ (if (exec_one port c o1).0 then [] else rest)

  exec_one-blocks :
      (c : Cmd) (o : Out W) → (exec_one port c o).1.tx ≡ o.tx ++ frame (blocks_one c o)
  unfolding exec_one
  exec_one-blocks (read op n) o =
      let vs = (do_reads port (optable port op) n o.world).1 in
      ground (
        arith,
        length-do_reads (optable port op) n o.world,
        append_assoc o.tx (rswd_msg cmd_swd_data 0 n ∷ []) vs,
        append-nil vs,
      )
  exec_one-blocks null o = rw append-nil
  exec_one-blocks _ o = rw append-nil

  exec_one-status :
      (c : Cmd) (o : Out W)
      → o.status ≡ 0
      → (((exec_one port c o).0 ≡ false) × ((exec_one port c o).1.status ≡ 0))
        ⊎ (((exec_one port c o).0 ≡ true) × ((exec_one port c o).1.status ≡ 3))
  unfolding exec_one
  exec_one-status null o z = ground arith
  exec_one-status _ o z = ground arith

  pub exec-blocks : (cs : List Cmd) (o : Out W) → (exec port cs o).tx ≡ o.tx ++ frame (blocks cs o)
  unfolding exec blocks
  exec-blocks [] o = rw append-nil
  exec-blocks (c ∷ cs) o =
      let o1 = record o { count = o.count + 1 } in
      let bs = blocks_one c o1 in
      let rest = blocks cs (exec_one port c o1).1 in
      ground (
        arith,
        exec_one-blocks c o1,
        exec-blocks cs (exec_one port c o1).1,
        frame-append bs rest,
        append-nil bs,
        append_assoc o.tx (frame bs) (frame rest),
      )

  pub exec-status :
      (cs : List Cmd) (o : Out W)
      → o.status ≡ 0
      → ((exec port cs o).status ≡ 0) ⊎ ((exec port cs o).status ≡ 3)
  unfolding exec
  exec-status [] o z = ground arith
  exec-status (c ∷ cs) o z =
      let o1 = record o { count = o.count + 1 } in
      ground (arith, exec_one-status c o1 z, exec-status cs (exec_one port c o1).1)

  blocks_one-AllShort : (c : Cmd) (o : Out W) → Fits c → AllShort (blocks_one c o)
  blocks_one-AllShort (read op n) o fit =
      (omega (arith, length-do_reads (optable port op) n o.world), tt)
  blocks_one-AllShort _ o fit = tt

  length-flat-blocks_one : (c : Cmd) (o : Out W) → length (flat (blocks_one c o)) ≡ asked_one c
  length-flat-blocks_one (read op n) o = rw append-nil (length-do_reads (optable port op) n o.world)
  length-flat-blocks_one null o = refl
  length-flat-blocks_one _ o = refl

  pub blocks-AllShort : (cs : List Cmd) (o : Out W) → AllFit cs → AllShort (blocks cs o)
  unfolding blocks
  blocks-AllShort [] o fit = tt
  blocks-AllShort (c ∷ cs) o fit =
      let o1 = record o { count = o.count + 1 } in
      let own = blocks_one-AllShort c o1 fit.0 in
      let rest = blocks-AllShort cs (exec_one port c o1).1 fit.1 in
      elim (Bool-cases (exec_one port c o1).0) [
        | inl e ↦ rw e (AllShort-append (blocks_one c o1) [] own tt)
        | inr e ↦ rw e (AllShort-append (blocks_one c o1) _ own rest)
      ]

  pub length-flat-blocks : (cs : List Cmd) (o : Out W) → length (flat (blocks cs o)) ≤ asked cs
  unfolding blocks
  length-flat-blocks [] o = omega arith
  length-flat-blocks (c ∷ cs) o =
      let o1 = record o { count = o.count + 1 } in
      let own = length-flat-blocks_one c o1 in
      let later = blocks cs (exec_one port c o1).1 in
      let rest = length-flat-blocks cs (exec_one port c o1).1 in
      elim (Bool-cases (exec_one port c o1).0) [
        | inl e ↦ rw (e, append-nil) (omega (arith, own))
        | inr e ↦ rw e (omega (arith, own, rest, length-flat-append (blocks_one c o1) later))
      ]
