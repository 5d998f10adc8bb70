-- ===== src/Wire/Turn.antt =====
-- A request of m3debug/swdp.c and the target's acknowledgement, which `swdp_write` and `swdp_read` begin with.
use m3dev.Base.{
  ℕ, zero, suc, ◌+◌, ◌*◌, ◌<◌, ◌≡◌, refl, ap, ◌∙◌, arith, Bool, false, List, [], ◌∷◌, ◌++◌,
  append_assoc, append-nil, sym, length, bit_and, bit_and_mask,
}
use m3dev.Wire.{Access, Bus, dir_in, dir_out}
use m3dev.Wire.Line.{msb_first, Line, idle, line, answered, bus, moved, line-moved}

-- How long a transfer waits, and the word that comes in with it.
pub record Wait : Type 0 where
  pub polls : ℕ
  pub word : ℕ

-- A request and what the target acknowledges it with: X and R0 to R2, of which X is not looked at.
pub record Turn : Type 0 where
  pub request : Wait
  pub polls : ℕ
  pub undriven : ℕ

abbrev pub turn : Turn → ℕ → List ℕ → List ℕ
turn t r rest = answered t.request.polls t.request.word (answered t.polls (t.undriven * 8 + r) rest)

-- Requests that the target answers with WAIT.
abbrev pub refusals : List Turn → List ℕ → List ℕ
refusals [] rest = rest
refusals (t ∷ ts) rest = turn t 2 (refusals ts rest)

abbrev pub requests : ℕ → ℕ → List Bool
requests zero n = []
requests (suc k) n = msb_first 16 n ++ requests k n

abbrev pub log_of : Bus → List Access
log_of b = b.log

-- The log behind the acknowledgement.
abbrev pub asked : ℕ → Turn → List Access → List Access
asked n t l = moved t.polls 0 (log_of (dir_in 4 (bus [] (moved t.request.polls n l) 0 0)))

-- And behind a request that is not accepted.
abbrev pub gave_up : ℕ → Turn → List Access → List Access
gave_up n t l = log_of (dir_out 16 (bus [] (asked n t l) 0 0))

pub line-asked :
    (n : ℕ) (t : Turn) (l : List Access) (s : Line) (sent : List Bool)
    → line s l ≡ idle sent
    → line s (asked n t l) ≡ record { width = 4; driven = false; sent = sent ++ msb_first 16 n }
line-asked n t l s sent e = rw (line-moved s t.polls 0 _, line-moved s t.request.polls n l, e) refl

-- The digits that the code looks at.
pub ack-field : (x r : ℕ) → r < 8 → bit_and (x * 8 + r) 7 ≡ r
ack-field x r fits = omega (arith, bit_and_mask 3 (x * 8 + r))

abbrev pub refused_log : ℕ → List Turn → List Access → List Access
refused_log n [] l = l
refused_log n (t ∷ ts) l = refused_log n ts (gave_up n t l)

pub line-gave_up :
    (n : ℕ) (t : Turn) (l : List Access) (s : Line) (sent : List Bool)
    → line s l ≡ idle sent
    → line s (gave_up n t l) ≡ idle (sent ++ msb_first 16 n)
line-gave_up n t l s sent e = rw (line-asked n t l s sent e) refl

-- Each refused request has been on the wire once.
pub line-refused_log :
    (n : ℕ) (ts : List Turn) (l : List Access) (s : Line) (sent : List Bool)
    → line s l ≡ idle sent
    → line s (refused_log n ts l) ≡ idle (sent ++ requests (length ts) n)
line-refused_log n [] l s sent e = e ∙ ap idle (sym (append-nil sent))
line-refused_log n (t ∷ ts) l s sent e =
    line-refused_log n ts (gave_up n t l) s (sent ++ msb_first 16 n) (line-gave_up n t l s sent e)
    ∙ ap idle (append_assoc sent (msb_first 16 n) (requests (length ts) n))

-- One more request at the end is one more at the front.
requests-last : (k n : ℕ) → requests k n ++ msb_first 16 n ≡ requests (suc k) n
requests-last zero n = refl
requests-last (suc k) n =
    append_assoc (msb_first 16 n) (requests k n) (msb_first 16 n)
    ∙ ap (λ bs. msb_first 16 n ++ bs) (requests-last k n)

pub append-requests :
    (sent : List Bool) (k n : ℕ)
    → (sent ++ requests k n) ++ msb_first 16 n ≡ sent ++ requests (suc k) n
append-requests sent k n =
    append_assoc sent (requests k n) (msb_first 16 n) ∙ ap (λ bs. sent ++ bs) (requests-last k n)
