-- ===== src/Gdb/Breakpoint/Spec.antt =====
-- What the breakpoints of tools/gdb-bridge.c promise: the set of addresses that have one.
use m3dev.Base.{
  ℕ, ◌≡◌, refl, ap, sym, ◌∙◌, arith, some, Bool, true, false, not, ◌&&◌, ◌||◌, ◌==◌, ltb,
  if◌then◌else◌, Option-cases, Bool-cases, inl, inr,
}
use m3dev.Target.{Target}
use m3dev.Gdb.Breakpoint.{
  Tables, find_set, find_free, count_fp, count_bp, update_flashpatch, handle_flashpatch,
  update_breakpoint, dwt_breakpoint, handle_breakpoint,
}
use m3dev.Gdb.Breakpoint.Slots.{
  has, IsUnique, has-set_free, has-set_clear, IsUnique-set_free, IsUnique-set_clear,
}

pub record IsTable (t : Tables) : Type 0 where
  pub unique_fp : IsUnique t.maxfp t.fp
  pub unique_bp : IsUnique t.maxbp t.bp

abbrev pub has_breakpoint : Tables → ℕ → Bool
has_breakpoint t b = has t.maxfp t.fp b || has t.maxbp t.bp b

module _ {W : Type 0} (target : Target W) where
  -- The target answers, and has the units that it had.
  pub record Answers (t : Tables) : Type 0 where
    pub fp_units : (w : W) → (count_fp target w).0 ≡ some t.maxfp
    pub bp_units : (w : W) → (count_bp target w).0 ≡ some t.maxbp

  -- The flash patch unit changes as `after` says of each address, and the other unit not at all.
  abbrev FpChange : Tables → (ℕ → Bool) → Tables → ℕ → Type 0
  FpChange t after t' b =
      IsUnique t'.maxfp t'.fp
      × (t'.maxbp ≡ t.maxbp)
      × (t'.bp ≡ t.bp)
      × (has t'.maxfp t'.fp b ≡ after b)

  abbrev BpChange : Tables → (ℕ → Bool) → Tables → ℕ → Type 0
  BpChange t after t' b =
      IsUnique t'.maxbp t'.bp
      × (t'.maxfp ≡ t.maxfp)
      × (t'.fp ≡ t.fp)
      × (has t'.maxbp t'.bp b ≡ after b)

  update_flashpatch-true :
      (a b : ℕ) (t : Tables) (w : W)
      → IsTable t
      → let (r, t', w') = update_flashpatch target true a t w in
        FpChange t (λ b. if b == a && r == 0 then true else has t.maxfp t.fp b) t' b
  unfolding update_flashpatch
  update_flashpatch-true a b t w v = elim (Option-cases (find_set t.maxfp t.fp a)) [
    | inr (n, e) ↦ ground (arith, e, v)
    | inl e ↦ elim (Option-cases (find_free t.maxfp t.fp)) [
      | inl e' ↦ ground (arith, e, e', v)
      | inr (n, e') ↦ ground (
        arith,
        e,
        e',
        IsUnique-set_free t.maxfp t.fp n a v.unique_fp e e',
        v,
        has-set_free t.maxfp t.fp n a b e',
      )
    ]
  ]

  -- Removing succeeds where the unit has the address.
  update_flashpatch-false :
      (a b : ℕ) (t : Tables) (w : W)
      → IsTable t
      → let (r, t', w') = update_flashpatch target false a t w in
        FpChange t (λ b. if b == a then false else has t.maxfp t.fp b) t' b
        × ((r == 0) ≡ has t.maxfp t.fp a)
  unfolding update_flashpatch
  update_flashpatch-false a b t w v = elim (Option-cases (find_set t.maxfp t.fp a)) [
    | inl e ↦ ground (arith, e, v)
    | inr (n, e) ↦ ground (
      arith,
      e,
      IsUnique-set_clear t.maxfp t.fp n a v.unique_fp e,
      v,
      has-set_clear t.maxfp t.fp n a b v.unique_fp e,
    )
  ]

  update_breakpoint-true :
      (a b : ℕ) (t : Tables) (w : W)
      → IsTable t
      → let (r, t', w') = update_breakpoint target true a t w in
        BpChange t (λ b. if b == a && r == 0 then true else has t.maxbp t.bp b) t' b
  unfolding update_breakpoint
  update_breakpoint-true a b t w v = elim (Option-cases (find_set t.maxbp t.bp a)) [
    | inr (n, e) ↦ ground (arith, e, v)
    | inl e ↦ elim (Option-cases (find_free t.maxbp t.bp)) [
      | inl e' ↦ ground (arith, e, e', v)
      | inr (n, e') ↦ ground (
        arith,
        e,
        e',
        IsUnique-set_free t.maxbp t.bp n a v.unique_bp e e',
        v,
        has-set_free t.maxbp t.bp n a b e',
      )
    ]
  ]

  update_breakpoint-false :
      (a b : ℕ) (t : Tables) (w : W)
      → IsTable t
      → let (r, t', w') = update_breakpoint target false a t w in
        BpChange t (λ b. if b == a then false else has t.maxbp t.bp b) t' b × (r ≡ 0)
  unfolding update_breakpoint
  update_breakpoint-false a b t w v = elim (Option-cases (find_set t.maxbp t.bp a)) [
    | inl e ↦ ground (arith, e, v)
    | inr (n, e) ↦ ground (
      arith,
      e,
      IsUnique-set_clear t.maxbp t.bp n a v.unique_bp e,
      v,
      has-set_clear t.maxbp t.bp n a b v.unique_bp e,
    )
  ]

  -- With the counts unchanged, the two units are only searched and changed.
  handle_flashpatch-update :
      (add : Bool) (a : ℕ) (t : Tables) (w : W)
      → (count_fp target w).0 ≡ some t.maxfp
      → handle_flashpatch target add a t w ≡ update_flashpatch target add a t (count_fp target w).1
  unfolding handle_flashpatch
  handle_flashpatch-update add a t w e =
      let same : (t.maxfp == t.maxfp) ≡ true = ground arith in rw (e, handle_flashpatch, same) refl

  dwt_breakpoint-update :
      (add : Bool) (a : ℕ) (t : Tables) (w : W)
      → (count_bp target w).0 ≡ some t.maxbp
      → dwt_breakpoint target add a t w ≡ update_breakpoint target add a t (count_bp target w).1
  unfolding dwt_breakpoint
  dwt_breakpoint-update add a t w e = rw (e, dwt_breakpoint) refl

  -- The whole, given that removing or adding keeps the number of watchpoint units.
  handle_breakpoint-update :
      (add : Bool) (a : ℕ) (t : Tables) (w : W)
      → Answers t
      → let (r, t1, w1) = update_flashpatch target add a t (count_fp target w).1 in
        t1.maxbp ≡ t.maxbp
        → handle_breakpoint target add a t w ≡ (
            if ltb a 0x20000000
            then (if r == 0
                then (0, t1, w1)
                else update_breakpoint target add a t1 (count_bp target w1).1)
            else update_breakpoint target add a t (count_bp target w).1)
  unfolding handle_breakpoint
  handle_breakpoint-update add a t w answers keeps =
      let (r, t1, w1) = update_flashpatch target add a t (count_fp target w).1 in
      ground (
        arith,
        handle_flashpatch-update add a t w (answers.fp_units w),
        dwt_breakpoint-update add a t1 w1 (answers.bp_units w1 ∙ ap some (sym keeps)),
        dwt_breakpoint-update add a t w (answers.bp_units w),
      )

  -- Adding a breakpoint, where the units answer as before: the tables stay without duplicates, and
  -- the breakpoints are those of before, with the new one where the result is 0.
  pub handle_breakpoint-true :
      (a b : ℕ) (t : Tables) (w : W)
      → IsTable t
      → Answers t
      → let (r, t', w') = handle_breakpoint target true a t w in
        IsTable t' × (has_breakpoint t' b ≡ (if b == a && r == 0 then true else has_breakpoint t b))
  unfolding handle_breakpoint
  handle_breakpoint-true a b t w v answers =
      let o = update_flashpatch target true a t (count_fp target w).1 in
      let f = update_flashpatch-true a b t (count_fp target w).1 v in
      let v1 : IsTable o.1 = record { unique_fp = f.0; unique_bp = rw (f.1, f.2) v.unique_bp } in
      let u1 = update_breakpoint-true a b o.1 (count_bp target o.2).1 v1 in
      let u = update_breakpoint-true a b t (count_bp target w).1 v in
      let v' : IsTable (update_breakpoint target true a o.1 (count_bp target o.2).1).1 = record {
        unique_fp = rw (u1.1, u1.2) v1.unique_fp;
        unique_bp = u1.0;
      } in
      let v'' : IsTable (update_breakpoint target true a t (count_bp target w).1).1 = record {
        unique_fp = rw (u.1, u.2) v.unique_fp;
        unique_bp = u.0;
      } in
      rw (handle_breakpoint-update true a t w answers f.1) (elim (Bool-cases (ltb a 0x20000000)) [
        | inr high ↦ rw high (v'', ground (arith, u))
        | inl low ↦ elim (Bool-cases (o.0 == 0)) [
          | inl done ↦ rw (low, done) (v1, ground (arith, f, done))
          | inr full ↦ rw (low, full) (v', ground (arith, f, u1, full))
        ]
      ])

  -- Removing a breakpoint, where the units answer as before: the tables stay without duplicates,
  -- and every other breakpoint stays. Of an address below 0x20000000 that the flash patch unit has,
  -- that unit's breakpoint alone is removed, of another the watchpoint unit's.
  pub handle_breakpoint-false :
      (a b : ℕ) (t : Tables) (w : W)
      → IsTable t
      → Answers t
      → let flash = ltb a 0x20000000 && has t.maxfp t.fp a in
        let (r, t', w') = handle_breakpoint target false a t w in
        IsTable t'
        × (r ≡ 0)
        × (has t'.maxfp t'.fp b ≡ (if b == a && flash then false else has t.maxfp t.fp b))
        × (has t'.maxbp t'.bp b ≡ (if b == a && not flash then false else has t.maxbp t.bp b))
  unfolding handle_breakpoint
  handle_breakpoint-false a b t w v answers =
      let o = update_flashpatch target false a t (count_fp target w).1 in
      let (f, r_eq) = update_flashpatch-false a b t (count_fp target w).1 v in
      let v1 : IsTable o.1 = record { unique_fp = f.0; unique_bp = rw (f.1, f.2) v.unique_bp } in
      let (u1, r1) = update_breakpoint-false a b o.1 (count_bp target o.2).1 v1 in
      let (u, r0) = update_breakpoint-false a b t (count_bp target w).1 v in
      let v' : IsTable (update_breakpoint target false a o.1 (count_bp target o.2).1).1 = record {
        unique_fp = rw (u1.1, u1.2) v1.unique_fp;
        unique_bp = u1.0;
      } in
      let v'' : IsTable (update_breakpoint target false a t (count_bp target w).1).1 = record {
        unique_fp = rw (u.1, u.2) v.unique_fp;
        unique_bp = u.0;
      } in
      rw (handle_breakpoint-update false a t w answers f.1) (elim (Bool-cases (ltb a 0x20000000)) [
        | inr high ↦ rw high (v'', r0, ground (arith, u), ground (arith, u))
        | inl low ↦ elim (Bool-cases (o.0 == 0)) [
          | inl done ↦
              rw (low, done)
                (v1, refl, ground (arith, f, done, r_eq), ground (arith, f, done, r_eq))
          | inr full ↦
              rw (low, full)
                (v', r1, ground (arith, f, u1, full, r_eq), ground (arith, f, u1, full, r_eq))
        ]
      ])
