-- ===== src/Swo/Packets.antt =====
-- The trace packets that `handle_swv` of tools/swo.c decodes, and their encoding.
use m3dev.Base.{
  ℕ, zero, suc, ◌⊎◌, ap, length-append, ◌+◌, ◌*◌, ◌%◌, ◌^◌, ◌≤◌, ◌<◌, ◌≡◌, ◌≢◌, refl, arith, List,
  [], ◌∷◌, ◌++◌, length, take, set, length-set, ◌==◌, if◌then◌else◌, bit_or, bit_and_mask,
  bit_and_field, bit_or_fields_low, append_assoc, ◌∙◌,
}
use m3dev.Swo.{
  Swv, State, idle, proto, s_1x1, s_1x2, s_1x4, s_2x2, s_2x4, s_3x4, s_4x4, dispatch, next_zcount,
  Event, src, protocol, handle_swv, decode,
}

-- A source packet of 1, 2 or 4 bytes from the stimulus port `a` (hardware if `h` is 1), or a
-- protocol packet of one byte, or of several: a first byte, others that are followed by a byte, and
-- the last one.
pub data Packet : Type 0 where
  one : ℕ → ℕ → ℕ → Packet
  two : ℕ → ℕ → ℕ → ℕ → Packet
  four : ℕ → ℕ → ℕ → ℕ → ℕ → ℕ → Packet
  single : ℕ → Packet
  several : ℕ → List ℕ → ℕ → Packet

abbrev pub header : ℕ → ℕ → ℕ → ℕ
header a h size = a * 8 + h * 4 + size

abbrev pub encode : Packet → List ℕ
encode (one a h x) = header a h 1 ∷ x ∷ []
encode (two a h x y) = header a h 2 ∷ x ∷ y ∷ []
encode (four a h x y z w) = header a h 3 ∷ x ∷ y ∷ z ∷ w ∷ []
encode (single x) = x ∷ []
encode (several x middle last) = x ∷ (middle ++ (last ∷ []))

abbrev pub encode_all : List Packet → List ℕ
encode_all [] = []
encode_all (p ∷ ps) = encode p ++ encode_all ps

-- What the packet says: a little-endian value from a source.
abbrev pub event : Packet → Event
event (one a h x) = src (h * 256 + a) x 1
event (two a h x y) = src (h * 256 + a) (y * 2 ^ 8 + x) 2
event (four a h x y z w) = src (h * 256 + a) (w * 2 ^ 24 + (z * 2 ^ 16 + (y * 2 ^ 8 + x))) 4
event (single x) = protocol (x ∷ [])
event (several x middle last) = protocol (x ∷ (middle ++ (last ∷ [])))

abbrev pub events : List Packet → List Event
events [] = []
events (p ∷ ps) = event p ∷ events ps

-- Bytes with the bit that announces another one.
abbrev pub AreContinued : List ℕ → Type 0
AreContinued [] = Unit {0}
AreContinued (x ∷ xs) = (128 ≤ x) × (x < 256) × AreContinued xs

-- The fields are in range. A protocol packet has seven bytes at most, and the seventh is the last one
-- whatever its bit.
abbrev pub IsPacket : Packet → Type 0
IsPacket (one a h x) = (a < 32) × (h < 2) × (x < 256)
IsPacket (two a h x y) = (a < 32) × (h < 2) × (x < 256) × (y < 256)
IsPacket (four a h x y z w) = (a < 32) × (h < 2) × (x < 256) × (y < 256) × (z < 256) × (w < 256)
IsPacket (single x) = (x < 128) × (x % 8 ≡ 0) × (x ≢ 0)
IsPacket (several x middle last) =
    (128 ≤ x)
    × (x < 256)
    × (x % 8 ≡ 0)
    × AreContinued middle
    × (length middle ≤ 5)
    × (last < 256)
    × ((last < 128) ⊎ (length middle ≡ 5))

abbrev pub ArePackets : List Packet → Type 0
ArePackets [] = Unit {0}
ArePackets (p ∷ ps) = IsPacket p × ArePackets ps

-- Between two packets: the zeros seen cannot begin a resynchronisation.
pub record IsReady (s : Swv) : Type 0 where
  pub at_rest : s.state ≡ idle
  pub few_zeros : s.zcount ≤ 4
  pub room : length s.bytes ≡ 8

decode-append :
    (s : Swv) (xs ys : List ℕ)
    → decode s (xs ++ ys)
      ≡ (let (s', es) = decode s xs in let (s'', more) = decode s' ys in (s'', es ++ more))
unfolding decode
decode-append s [] ys = refl
decode-append s (x ∷ xs) ys =
    let s' = (handle_swv s x).0 in
    ground (
      arith,
      decode-append s' xs ys,
      append_assoc (handle_swv s x).1 (decode s' xs).1 (decode (decode s' xs).0 ys).1,
    )

-- The header of a source packet.
handle_swv-header :
    (s : Swv) (a h size : ℕ) (st : State)
    → IsReady s
    → a < 32
    → h < 2
    → 0 < size
    → size < 4
    → (if size == 1 then s_1x1 else if size == 2 then s_1x2 else s_1x4) ≡ st
    → handle_swv s (header a h size)
      ≡ (record s { state = st; zcount = 0; id = h * 256 + a; val = 0 }, [])
unfolding handle_swv
handle_swv-header s a h size st r ha hh lo hi e = rw (r.at_rest) (
    ground (
      arith,
      r,
      e,
      bit_and_mask 3 (header a h size),
      bit_and_mask 2 (header a h size),
      bit_and_field 2 1 (header a h size),
      bit_or_fields_low 8 h a,
    ))

-- A byte before which fewer than five zeros were seen goes to the switch.
handle_swv-payload :
    (s : Swv) (x : ℕ)
    → s.zcount ≤ 3
    → handle_swv s x ≡ dispatch s.state (record s { zcount = next_zcount s x }) x
unfolding handle_swv
handle_swv-payload s x few = ground arith

next_zcount-le : (s : Swv) (x : ℕ) → next_zcount s x ≤ s.zcount + 1
unfolding next_zcount
next_zcount-le s x = ground arith

decode-cons :
    (s s' : Swv) (x : ℕ) (es : List Event) (xs : List ℕ)
    → handle_swv s x ≡ (s', es)
    → decode s (x ∷ xs) ≡ ((decode s' xs).0, es ++ (decode s' xs).1)
unfolding decode
decode-cons s s' x es xs e = rw e

decode-nil : (s : Swv) → decode s [] ≡ (s, [])
unfolding decode
decode-nil s = refl

-- The states behind the header and behind each byte of a payload.
module _ (s : Swv) (a h : ℕ) where
  abbrev opened : State → Swv
  opened st = record s { state = st; zcount = 0; id = h * 256 + a; val = 0 }

abbrev fed : Swv → State → ℕ → ℕ → Swv
fed s st v x = record s { state = st; val = v; zcount = next_zcount s x }

decode-one :
    (s : Swv) (a h x : ℕ)
    → IsReady s
    → IsPacket (one a h x)
    → (s' : Swv) × (decode s (encode (one a h x)) ≡ (s', event (one a h x) ∷ [])) × IsReady s'
unfolding dispatch
decode-one s a h x r ok =
    let s1 = opened s a h s_1x1 in
    let s2 = fed s1 idle 0 x in
    (
      s2,
      rw (
        decode-cons s s1 (header a h 1) [] (x ∷ [])
            (handle_swv-header s a h 1 s_1x1 r ok.0 ok.1 (omega arith) (omega arith) refl),
        decode-cons s1 s2 x (src (h * 256 + a) x 1 ∷ []) [] (handle_swv-payload s1 x (omega arith)),
        decode-nil s2,
      ),
      record { at_rest = refl; few_zeros = omega (arith, next_zcount-le s1 x); room = r.room },
    )

decode-two :
    (s : Swv) (a h x y : ℕ)
    → IsReady s
    → IsPacket (two a h x y)
    → (s' : Swv) × (decode s (encode (two a h x y)) ≡ (s', event (two a h x y) ∷ [])) × IsReady s'
unfolding dispatch
decode-two s a h x y r ok =
    let s1 = opened s a h s_1x2 in
    let s2 = fed s1 s_2x2 x x in
    let s3 = fed s2 idle x y in
    let z1 = next_zcount-le s1 x in
    let z2 = next_zcount-le s2 y in
    (
      s3,
      rw (
        decode-cons s s1 (header a h 2) [] (x ∷ y ∷ [])
            (handle_swv-header s a h 2 s_1x2 r ok.0 ok.1 (omega arith) (omega arith) refl),
        decode-cons s1 s2 x [] (y ∷ []) (handle_swv-payload s1 x (omega arith)),
        decode-cons s2 s3 y (src (h * 256 + a) (bit_or x (y * 2 ^ 8)) 2 ∷ []) []
            (handle_swv-payload s2 y (omega arith)),
        decode-nil s3,
        bit_or_fields_low 8 y x ok.2,
      ),
      record { at_rest = refl; few_zeros = omega arith; room = r.room },
    )

decode-four :
    (s : Swv) (a h x y z w : ℕ)
    → IsReady s
    → IsPacket (four a h x y z w)
    → (s' : Swv) × (decode s (encode (four a h x y z w)) ≡ (s', event (four a h x y z w) ∷ []))
      × IsReady s'
unfolding dispatch
decode-four s a h x y z w r ok =
    let s1 = opened s a h s_1x4 in
    let v2 = bit_or x (y * 2 ^ 8) in
    let v3 = bit_or v2 (z * 2 ^ 16) in
    let s2 = fed s1 s_2x4 x x in
    let s3 = fed s2 s_3x4 v2 y in
    let s4 = fed s3 s_4x4 v3 z in
    let s5 = fed s4 idle v3 w in
    let z1 = next_zcount-le s1 x in
    let z2 = next_zcount-le s2 y in
    let z3 = next_zcount-le s3 z in
    let z4 = next_zcount-le s4 w in
    (
      s5,
      rw (
        decode-cons s s1 (header a h 3) [] (x ∷ y ∷ z ∷ w ∷ [])
            (handle_swv-header s a h 3 s_1x4 r ok.0 ok.1 (omega arith) (omega arith) refl),
        decode-cons s1 s2 x [] (y ∷ z ∷ w ∷ []) (handle_swv-payload s1 x (omega arith)),
        decode-cons s2 s3 y [] (z ∷ w ∷ []) (handle_swv-payload s2 y (omega arith)),
        decode-cons s3 s4 z [] (w ∷ []) (handle_swv-payload s3 z (omega arith)),
        decode-cons s4 s5 w (src (h * 256 + a) (bit_or v3 (w * 2 ^ 24)) 4 ∷ []) []
            (handle_swv-payload s4 w (omega arith)),
        decode-nil s5,
        bit_or_fields_low 8 y x ok.2,
        bit_or_fields_low 16 z (y * 2 ^ 8 + x) (omega arith),
        bit_or_fields_low 24 w (z * 2 ^ 16 + (y * 2 ^ 8 + x)) (omega arith),
      ),
      record { at_rest = refl; few_zeros = omega arith; room = r.room },
    )

-- The first byte that is set in a buffer with room is the one byte taken.
take-set : (xs : List ℕ) (x : ℕ) → length xs ≡ 8 → take 1 (set xs 0 x) ≡ x ∷ []
take-set [] x e = absurd (omega (arith, e))
take-set (y ∷ ys) x e = refl

handle_swv-single :
    (s : Swv) (x : ℕ)
    → IsReady s
    → IsPacket (single x)
    → handle_swv s x ≡ (record s { zcount = 0; bytes = set s.bytes 0 x }, protocol (x ∷ []) ∷ [])
unfolding handle_swv
handle_swv-single s x r ok =
    rw (r.at_rest)
      (ground (arith, r, bit_and_mask 3 x, bit_and_field 7 1 x, take-set s.bytes x r.room))

decode-single :
    (s : Swv) (x : ℕ)
    → IsReady s
    → IsPacket (single x)
    → (s' : Swv) × (decode s (encode (single x)) ≡ (s', event (single x) ∷ [])) × IsReady s'
decode-single s x r ok =
    let s1 = record s { zcount = 0; bytes = set s.bytes 0 x } in
    (
      s1,
      rw (
        decode-cons s s1 x (protocol (x ∷ []) ∷ []) [] (handle_swv-single s x r ok),
        decode-nil s1,
      ),
      record {
        at_rest = r.at_rest;
        few_zeros = omega arith;
        room = length-set s.bytes 0 x ∙ r.room;
      },
    )

-- In the middle of a protocol packet, of which the bytes `got` were received.
record IsPartial (s : Swv) (got : List ℕ) : Type 0 where
  at_proto : s.state ≡ proto
  no_zeros : s.zcount ≡ 0
  counted : s.ccount ≡ length got
  kept : take (length got) s.bytes ≡ got
  enough : length s.bytes ≡ 8

take-set_at :
    (xs : List ℕ) (n x : ℕ) → n < length xs → take (n + 1) (set xs n x) ≡ take n xs ++ (x ∷ [])
take-set_at [] n x lt = absurd (omega arith)
take-set_at (y ∷ ys) zero x lt = refl
take-set_at (y ∷ ys) (suc n) x lt =
    let e : suc n + 1 ≡ suc (n + 1) = omega arith in rw (e, take-set_at ys n x (omega arith)) refl

-- A byte that another one follows, and the last byte.
handle_swv-continued :
    (s : Swv) (got : List ℕ) (x : ℕ)
    → IsPartial s got
    → length got < 6
    → 128 ≤ x
    → x < 256
    → (s' : Swv) × (handle_swv s x ≡ (s', [])) × IsPartial s' (got ++ (x ∷ []))
unfolding handle_swv dispatch next_zcount
handle_swv-continued s got x part few lo hi =
    let s' = record s { zcount = 0; ccount = s.ccount + 1; bytes = set s.bytes s.ccount x } in
    let len = length-append {0} got (x ∷ []) in
    (
      s',
      rw (part.at_proto) (ground (arith, part, bit_and_field 7 1 x)),
      record {
        at_proto = part.at_proto;
        no_zeros = refl;
        counted = omega (arith, len, part.counted);
        kept =
            rw (len, part.counted) (take-set_at s.bytes (length got) x (omega (arith, part.enough)))
            ∙ ap (λ ys. ys ++ (x ∷ [])) part.kept;
        enough = length-set s.bytes s.ccount x ∙ part.enough;
      },
    )

handle_swv-last :
    (s : Swv) (got : List ℕ) (x : ℕ)
    → IsPartial s got
    → length got < 7
    → x < 256
    → (x < 128) ⊎ (length got ≡ 6)
    → (s' : Swv) × (handle_swv s x ≡ (s', protocol (got ++ (x ∷ [])) ∷ [])) × IsReady s'
unfolding handle_swv dispatch next_zcount
handle_swv-last s got x part few hi ends =
    let z = next_zcount s x in
    let s' = record s {
      state = idle;
      zcount = z;
      ccount = s.ccount + 1;
      bytes = set s.bytes s.ccount x;
    } in
    let kept : take (s.ccount + 1) (set s.bytes s.ccount x) ≡ got ++ (x ∷ []) =
      rw (part.counted) (take-set_at s.bytes (length got) x (omega (arith, part.enough)))
      ∙ ap (λ ys. ys ++ (x ∷ [])) part.kept in
    (
      s',
      rw (part.at_proto) (ground (arith, part, kept, ends, bit_and_field 7 1 x)),
      record {
        at_rest = refl;
        few_zeros = omega (arith, next_zcount-le s x, part.no_zeros);
        room = length-set s.bytes s.ccount x ∙ part.enough;
      },
    )

decode-partial :
    (s : Swv) (got middle : List ℕ) (last : ℕ)
    → IsPartial s got
    → AreContinued middle
    → length got + length middle ≤ 6
    → last < 256
    → (last < 128) ⊎ (length got + length middle ≡ 6)
    → (s' : Swv) × (decode s (middle ++ (last ∷ []))
        ≡ (s', protocol (got ++ (middle ++ (last ∷ []))) ∷ []))
      × IsReady s'
decode-partial s got [] last part ok few hi ends =
    let (s1, e, r) = handle_swv-last s got last part (omega arith) hi (ground (arith, ends)) in
    (s1, rw (decode-cons s s1 last (protocol (got ++ (last ∷ [])) ∷ []) [] e, decode-nil s1), r)
decode-partial s got (x ∷ middle) last part (lo, up, ok) few hi ends =
    let (s1, e, part1) = handle_swv-continued s got x part (omega arith) lo up in
    let len = length-append {0} got (x ∷ []) in
    let (s2, e2, r) =
      decode-partial s1 (got ++ (x ∷ [])) middle last part1 ok (omega (arith, len)) hi
        (ground (arith, ends, len)) in
    (
      s2,
      rw
          (
            decode-cons s s1 x [] (middle ++ (last ∷ [])) e,
            e2,
            append_assoc got (x ∷ []) (middle ++ (last ∷ [])),
          )
          refl,
      r,
    )

handle_swv-first :
    (s : Swv) (x : ℕ)
    → IsReady s
    → 128 ≤ x
    → x < 256
    → x % 8 ≡ 0
    → handle_swv s x
      ≡ (record s { state = proto; zcount = 0; ccount = 1; bytes = set s.bytes 0 x }, [])
unfolding handle_swv
handle_swv-first s x r lo hi whole =
    rw (r.at_rest) (ground (arith, r, bit_and_mask 3 x, bit_and_field 7 1 x))

decode-several :
    (s : Swv) (x : ℕ) (middle : List ℕ) (last : ℕ)
    → IsReady s
    → IsPacket (several x middle last)
    → (s' : Swv) × (decode s (encode (several x middle last))
        ≡ (s', event (several x middle last) ∷ []))
      × IsReady s'
decode-several s x middle last r (lo, hi, whole, ok, few, small, ends) =
    let s1 = record s { state = proto; zcount = 0; ccount = 1; bytes = set s.bytes 0 x } in
    let part : IsPartial s1 (x ∷ []) = record {
      at_proto = refl;
      no_zeros = refl;
      counted = refl;
      kept = take-set s.bytes x r.room;
      enough = length-set s.bytes 0 x ∙ r.room;
    } in
    let (s2, e2, ready) =
      decode-partial s1 (x ∷ []) middle last part ok (omega arith) small (ground (arith, ends)) in
    (
      s2,
      rw (decode-cons s s1 x [] (middle ++ (last ∷ [])) (handle_swv-first s x r lo hi whole), e2)
          refl,
      ready,
    )

decode-packet :
    (s : Swv) (p : Packet)
    → IsReady s
    → IsPacket p
    → (s' : Swv) × (decode s (encode p) ≡ (s', event p ∷ [])) × IsReady s'
decode-packet s (one a h x) = decode-one s a h x
decode-packet s (two a h x y) = decode-two s a h x y
decode-packet s (four a h x y z w) = decode-four s a h x y z w
decode-packet s (single x) = decode-single s x
decode-packet s (several x middle last) = decode-several s x middle last

-- From rest, the bytes of any sequence of packets in range decode to exactly their values, in
-- order, and to rest again: no payload, whatever its zeros, is taken for a resynchronisation.
pub decode-encode_all :
    (s : Swv) (ps : List Packet)
    → IsReady s
    → ArePackets ps
    → (s' : Swv) × (decode s (encode_all ps) ≡ (s', events ps)) × IsReady s'
decode-encode_all s [] r ok = (s, decode-nil s, r)
decode-encode_all s (p ∷ ps) r (ok, oks) =
    let (s1, e1, r1) = decode-packet s p r ok in
    let (s2, e2, r2) = decode-encode_all s1 ps r1 oks in
    (s2, rw (decode-append s (encode p) (encode_all ps), e1, e2), r2)
