-- ===== src/FlashAgents/Sectors.antt =====
-- Which sectors `flash_agent_erase` of agents/stm32fxxx.c erases.
use m3dev.Base.{
  ℕ, zero, suc, ◌+◌, ◌-◌, ◌≤◌, ◌<◌, ◌≡◌, refl, ap, subst, ◌∙◌, ◌⊎◌, inl, inr, arith, Bool-cases,
  Bool, true, false, List, [], ◌∷◌, ◌++◌, append_assoc, none, some, every, every_sound, ◌||◌, ◌==◌,
  leb, bit_and, bit_or, sub_u32,
}
use m3dev.FlashAgents.Stm32.{
  Registers, flash_sr, flash_cr, flash_sr_bsy, flash_sr_errmask, flash_cr_ser, flash_cr_strt,
  flash_cr_snb, sector, find_sector, wait_ready, start_erase, erase_from, erase_at,
  flash_agent_erase,
}

-- `n`, `n + 1`, …, `k` of them.
abbrev pub counting : ℕ → ℕ → List ℕ
counting zero n = []
counting (suc k) n = n ∷ counting k (n + 1)

abbrev is_found : ℕ → Bool
is_found n = elim (find_sector 12 0 (sector n)) [ none ↦ false | some m ↦ m == n ]

all_found : every 12 is_found ≡ true
unfolding every find_sector
all_found = refl

find_sector-sector : (n : ℕ) → n < 12 → find_sector 12 0 (sector n) ≡ some n
find_sector-sector n lt = ground (arith, every_sound 12 is_found n all_found lt)

module _ {W : Type 0} (r : Registers W) (started : W → List ℕ) where
  -- After `k` reads of the status.
  abbrev polled : ℕ → W → W
  polled zero w = w
  polled (suc k) w = polled k (r.readl flash_sr w).1

  -- A flash controller: STRT and SER in its register start to erase a sector, which `started` then
  -- lists last; it is ready within `polls` reads of the status, and then reports no error.
  pub record IsController (polls : ℕ) : Type 0 where
    pub selects :
        (n : ℕ) (w : W)
        → n < 12
        → started (r.writel (bit_or flash_cr_ser (flash_cr_snb n)) flash_cr w) ≡ started w
    pub starts :
        (n : ℕ) (w : W)
        → n < 12
        → started
            (r.writel (bit_or (bit_or flash_cr_strt flash_cr_ser) (flash_cr_snb n)) flash_cr w)
          ≡ started w ++ (n ∷ [])
    pub reads : (w : W) → started (r.readl flash_sr w).1 ≡ started w
    pub becomes_ready :
        (w : W)
        → (k : ℕ) × (k < polls) × (bit_and (r.readl flash_sr (polled k w)).0 flash_sr_bsy ≡ 0)
    pub works :
        (w : W)
        → bit_and (r.readl flash_sr w).0 flash_sr_bsy ≡ 0
        → bit_and (r.readl flash_sr w).0 flash_sr_errmask ≡ 0

  module _ (polls : ℕ) (controller : IsController polls) where
    -- A wait that ends well.
    abbrev EndsWell : ℕ → W → Type 0
    EndsWell fuel w =
        (v : ℕ) × (w' : W) × (wait_ready r fuel w ≡ some (v, w'))
        × (bit_and v flash_sr_errmask ≡ 0)
        × (started w' ≡ started w)

    wait_ready-EndsWell :
        (fuel k : ℕ) (w : W)
        → k < fuel
        → bit_and (r.readl flash_sr (polled k w)).0 flash_sr_bsy ≡ 0
        → EndsWell fuel w
    unfolding wait_ready
    wait_ready-EndsWell zero k w lt ready = absurd (omega arith)
    wait_ready-EndsWell (suc fuel) zero w lt ready =
        let (v, w') = r.readl flash_sr w in
        (v, w', rw ready refl, controller.works w ready, controller.reads w)
    wait_ready-EndsWell (suc fuel) (suc k) w lt ready =
        let now = bit_and (r.readl flash_sr w).0 flash_sr_bsy in
        elim (Bool-cases (now == 0)) [
          | inl early ↦ (
            (r.readl flash_sr w).0,
            (r.readl flash_sr w).1,
            rw early refl,
            controller.works w (ground (arith, early)),
            controller.reads w,
          )
          | inr busy ↦
              let (v, w', e, fine, same) =
                wait_ready-EndsWell fuel k (r.readl flash_sr w).1 (omega arith) ready in
              (v, w', rw busy e, fine, same ∙ controller.reads w)
        ]

    -- One sector.
    start_erase-EndsWell :
        (n : ℕ) (w : W)
        → n < 12
        → (v : ℕ) × (w' : W) × (wait_ready r polls (start_erase r n w) ≡ some (v, w'))
          × (bit_and v flash_sr_errmask ≡ 0)
          × (started w' ≡ started w ++ (n ∷ []))
    unfolding start_erase
    start_erase-EndsWell n w lt =
        let selected = r.writel (bit_or flash_cr_ser (flash_cr_snb n)) flash_cr w in
        let (k, enough, ready) = controller.becomes_ready (start_erase r n w) in
        let (v, w', e, fine, same) = wait_ready-EndsWell polls k (start_erase r n w) enough ready in
        (
          v,
          w',
          e,
          fine,
          same
              ∙ controller.starts n selected lt
              ∙ ap (λ ns. ns ++ (n ∷ [])) (controller.selects n w lt),
        )

    -- The end of the erased sectors, `m`: they reach up to the length, or to the end of the flash,
    -- and each but the first is one that the length reaches into.
    pub record Covers (n m addr length : ℕ) : Type 0 where
      pub some_sector : n < m
      pub in_flash : m ≤ 12
      pub reaches : (m ≡ 12) ⊎ (length ≤ sub_u32 (sector m) addr)
      pub needed : (k : ℕ) → n < k → k < m → sub_u32 (sector k) addr < length

    Covers-earlier :
        (n m addr length : ℕ)
        → sub_u32 (sector (n + 1)) addr < length
        → Covers (n + 1) m addr length
        → Covers n m addr length
    Covers-earlier n m addr length inside rest = record {
      some_sector = omega (arith, rest.some_sector);
      in_flash = rest.in_flash;
      reaches = rest.reaches;
      needed = λ k above below. elim (Bool-cases (k == n + 1)) [
        | inl here ↦
            let e : n + 1 ≡ k = ground (arith, here) in
            subst (λ (j : ℕ). sub_u32 (sector j) addr < length) e inside
        | inr later ↦ rest.needed k (ground (arith, later)) below
      ];
    }

    -- The test that ends the loop behind sector `n`.
    abbrev enough : ℕ → ℕ → ℕ → Bool
    enough n addr length = n + 1 == 12 || leb length (sub_u32 (sector (n + 1)) addr)

    erase_from-enough :
        (left n addr length v : ℕ) (w w1 : W)
        → wait_ready r polls (start_erase r n w) ≡ some (v, w1)
        → bit_and v flash_sr_errmask ≡ 0
        → enough n addr length ≡ true
        → erase_from r (suc left) polls n addr length w ≡ some (0, w1)
    unfolding erase_from
    erase_from-enough left n addr length v w w1 waited fine last = rw (waited, fine, last) refl

    erase_from-more :
        (left n addr length v : ℕ) (w w1 : W)
        → wait_ready r polls (start_erase r n w) ≡ some (v, w1)
        → bit_and v flash_sr_errmask ≡ 0
        → enough n addr length ≡ false
        → erase_from r (suc left) polls n addr length w
          ≡ erase_from r left polls (n + 1) addr length w1
    unfolding erase_from
    erase_from-more left n addr length v w w1 waited fine more = rw (waited, fine, more) refl

    enough-reaches :
        (n addr length : ℕ)
        → enough n addr length ≡ true
        → (n + 1 ≡ 12) ⊎ (length ≤ sub_u32 (sector (n + 1)) addr)
    enough-reaches n addr length last = elim (Bool-cases (n + 1 == 12)) [
      | inl end ↦ inl (ground (arith, end))
      | inr before ↦ inr (ground (arith, last, before))
    ]

    -- What a call of the loop gives.
    abbrev Erases : ℕ → ℕ → ℕ → ℕ → W → Type 0
    Erases left n addr length w =
        (w' : W) × (m : ℕ) × (erase_from r left polls n addr length w ≡ some (0, w'))
        × (started w' ≡ started w ++ counting (m - n) n)
        × Covers n m addr length

    erase_from-last :
        (left n addr length : ℕ) (w : W)
        → n < 12
        → enough n addr length ≡ true
        → Erases (suc left) n addr length w
    erase_from-last left n addr length w lt last =
        let (v, w1, waited, fine, same) = start_erase-EndsWell n w lt in
        let one : n + 1 - n ≡ 1 = omega arith in
        (
          w1,
          n + 1,
          erase_from-enough left n addr length v w w1 waited fine last,
          rw one same,
          record {
            some_sector = omega arith;
            in_flash = omega arith;
            reaches = enough-reaches n addr length last;
            needed = λ k above below. absurd (omega arith);
          },
        )

    erase_from-Covers :
        (left n addr length : ℕ) (w : W) → n + suc left ≡ 12 → Erases (suc left) n addr length w
    erase_from-Covers zero n addr length w e =
        erase_from-last zero n addr length w (omega arith) (ground arith)
    erase_from-Covers (suc left) n addr length w e = elim (Bool-cases (enough n addr length)) [
      | inl last ↦ erase_from-last (suc left) n addr length w (omega arith) last
      | inr more ↦
          let (v, w1, waited, fine, same) = start_erase-EndsWell n w (omega arith) in
          let (w', m, e', started', rest) =
            erase_from-Covers left (n + 1) addr length w1 (omega arith) in
          let count : m - n ≡ suc (m - (n + 1)) = omega (arith, rest.some_sector) in
          (
            w',
            m,
            erase_from-more (suc left) n addr length v w w1 waited fine more ∙ e',
            rw (count, started', same)
                (append_assoc (started w) (n ∷ []) (counting (m - (n + 1)) (n + 1))),
            Covers-earlier n m addr length (ground (arith, more)) rest,
          )
    ]

    -- From the start of a sector, `flash_agent_erase` ends with 0 and has started to erase that sector
    -- and those behind it, in order, up to one where the length is reached or the flash ends; it
    -- erases no sector that the length does not reach into, but for the first.
    pub flash_agent_erase-Covers :
        (n addr length : ℕ) (w : W)
        → n < 12
        → addr ≡ sector n
        → (w' : W) × (m : ℕ) × (flash_agent_erase r polls addr length w ≡ some (0, w'))
          × (started w' ≡ started w ++ counting (m - n) n)
          × Covers n m addr length
    unfolding erase_at
    flash_agent_erase-Covers n addr length w lt start =
        let left : 12 - n ≡ suc (11 - n) = omega arith in
        let found : find_sector 12 0 addr ≡ some n =
          ap (λ (a : ℕ). find_sector 12 0 a) start ∙ find_sector-sector n lt in
        let (w', m, e, started', covers) =
          erase_from-Covers (11 - n) n addr length w (omega arith) in
        let begins : flash_agent_erase r polls addr length w
            ≡ erase_from r (suc (11 - n)) polls n addr length w =
          rw (found, left) refl in
        (w', m, begins ∙ e, started', covers)
