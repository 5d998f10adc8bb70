-- ===== src/Swo/Resync.antt =====
-- The resynchronisation of `handle_swv`, tools/swo.c.
use m3dev.Base.{
  ℕ, ◌+◌, ◌^◌, ◌%◌, ◌<◌, ◌∙◌, u32, ◌≤◌, ◌≡◌, refl, arith, List, [], ◌∷◌, length, length-set,
}
use m3dev.Swo.{
  Swv, State, sync, proto, idle, s_1x1, s_1x2, s_1x4, s_2x2, s_2x4, s_3x4, s_4x4, dispatch,
  handle_swv, decode,
}
use m3dev.Swo.Packets.{IsReady}

dispatch-zcount : (st : State) (s : Swv) (x : ℕ) → (dispatch st s x).0.zcount ≡ s.zcount
unfolding dispatch
dispatch-zcount sync s x = refl
dispatch-zcount s_1x1 s x = refl
dispatch-zcount s_1x2 s x = refl
dispatch-zcount s_1x4 s x = refl
dispatch-zcount s_2x2 s x = refl
dispatch-zcount s_2x4 s x = refl
dispatch-zcount s_3x4 s x = refl
dispatch-zcount s_4x4 s x = refl
dispatch-zcount proto s x = ground arith
dispatch-zcount idle s x = ground arith

dispatch-room : (st : State) (s : Swv) (x : ℕ) → length (dispatch st s x).0.bytes ≡ length s.bytes
unfolding dispatch
dispatch-room sync s x = refl
dispatch-room s_1x1 s x = refl
dispatch-room s_1x2 s x = refl
dispatch-room s_1x4 s x = refl
dispatch-room s_2x2 s x = refl
dispatch-room s_2x4 s x = refl
dispatch-room s_3x4 s x = refl
dispatch-room s_4x4 s x = refl
dispatch-room proto s x = ground (arith, length-set s.bytes s.ccount x)
dispatch-room idle s x = ground (arith, length-set s.bytes 0 x)

-- A zero byte is counted, whatever the state, where the count does not wrap.
handle_swv-zero :
    (s : Swv)
    → s.zcount + 1 < 2 ^ 32
    → ((handle_swv s 0).0.zcount ≡ s.zcount + 1)
      × (length (handle_swv s 0).0.bytes ≡ length s.bytes)
unfolding handle_swv
handle_swv-zero s low =
    let z : (s.zcount + 1) % 2 ^ 32 ≡ s.zcount + 1 = omega arith in
    (
      dispatch-zcount s.state (record s { zcount = u32 (s.zcount + 1) }) 0 ∙ z,
      dispatch-room s.state (record s { zcount = u32 (s.zcount + 1) }) 0,
    )

-- Five zeros, then 0x80.
abbrev pub resync : List ℕ
resync = 0 ∷ 0 ∷ 0 ∷ 0 ∷ 0 ∷ 0x80 ∷ []

handle_swv-resync :
    (s : Swv) → 5 ≤ s.zcount → handle_swv s 0x80 ≡ (record s { state = idle; zcount = 0 }, [])
unfolding handle_swv
handle_swv-resync s h = ground arith

-- In whatever state the decoder is, in the middle of a packet or before the first byte, five zeros
-- and 0x80 bring it to rest, if its buffer has its eight bytes and its count of zeros is five or
-- more below 2^32, where it wraps.
pub decode-resync :
    (s : Swv) → s.zcount + 5 < 2 ^ 32 → length s.bytes ≡ 8 → IsReady (decode s resync).0
unfolding decode
decode-resync s low room =
    let s1 = (handle_swv s 0).0 in
    let s2 = (handle_swv s1 0).0 in
    let s3 = (handle_swv s2 0).0 in
    let s4 = (handle_swv s3 0).0 in
    let s5 = (handle_swv s4 0).0 in
    let z1 = handle_swv-zero s (omega arith) in
    let z2 = handle_swv-zero s1 (omega arith) in
    let z3 = handle_swv-zero s2 (omega arith) in
    let z4 = handle_swv-zero s3 (omega arith) in
    let z5 = handle_swv-zero s4 (omega arith) in
    let e = handle_swv-resync s5 (omega arith) in
    record { at_rest = rw e refl; few_zeros = rw e (omega arith); room = rw e (omega arith) }
