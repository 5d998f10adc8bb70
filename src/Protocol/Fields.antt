-- ===== src/Protocol/Fields.antt =====
-- The header words of include/protocol/rswdp.h as arithmetic, and their fields.
use m3dev.Base.{ℕ, ◌+◌, ◌*◌, ◌/◌, ◌%◌, ◌^◌, ◌<◌, ◌≡◌, arith, bit_or_fields, bit_and_mask}
use m3dev.Protocol.{rswd_msg, rswd_msg_cmd, rswd_msg_op, rswd_msg_arg, rswd_txn_start}

pub rswd_msg_as_sum :
    (cmd op n : ℕ) → rswd_msg cmd op n ≡ cmd % 256 * 2 ^ 24 + op % 256 * 2 ^ 16 + n % 2 ^ 16
unfolding rswd_msg
rswd_msg_as_sum cmd op n =
    rw
      (
        bit_and_mask 8 cmd,
        bit_and_mask 8 op,
        bit_and_mask 16 n,
        bit_or_fields 24 (cmd % 256) (op % 256 * 2 ^ 16) (omega arith),
      )
      (ground (arith, bit_or_fields 16 (cmd % 256 * 2 ^ 8 + op % 256) (n % 2 ^ 16) (omega arith)))

pub rswd_msg_cmd_as_div : (w : ℕ) → rswd_msg_cmd w ≡ w / 2 ^ 24 % 256
unfolding rswd_msg_cmd
rswd_msg_cmd_as_div w = bit_and_mask 8 (w / 2 ^ 24)

pub rswd_msg_op_as_div : (w : ℕ) → rswd_msg_op w ≡ w / 2 ^ 16 % 256
unfolding rswd_msg_op
rswd_msg_op_as_div w = bit_and_mask 8 (w / 2 ^ 16)

pub rswd_msg_arg_as_mod : (w : ℕ) → rswd_msg_arg w ≡ w % 2 ^ 16
unfolding rswd_msg_arg
rswd_msg_arg_as_mod w = bit_and_mask 16 w

pub rswd_txn_start_as_sum : (seq : ℕ) → rswd_txn_start seq ≡ 0xAA770000 + seq % 2 ^ 16
unfolding rswd_txn_start
rswd_txn_start_as_sum seq =
    rw (bit_and_mask 16 seq) (bit_or_fields 16 0xAA77 (seq % 2 ^ 16) (omega arith))

-- A packed header gives back the low byte of its command and of its operation and the low half
-- word of its argument, and it fits a 32-bit word.
pub rswd_msg_fields :
    (cmd op n : ℕ)
    → (rswd_msg_cmd (rswd_msg cmd op n) ≡ cmd % 256)
      × (rswd_msg_op (rswd_msg cmd op n) ≡ op % 256)
      × (rswd_msg_arg (rswd_msg cmd op n) ≡ n % 2 ^ 16)
      × (rswd_msg cmd op n < 2 ^ 32)
rswd_msg_fields cmd op n =
    let w = rswd_msg cmd op n in
    omega (
      arith,
      rswd_msg_as_sum cmd op n,
      rswd_msg_cmd_as_div w,
      rswd_msg_op_as_div w,
      rswd_msg_arg_as_mod w,
    )

-- Every 32-bit word is the header of its three fields.
pub rswd_msg_repack :
    (w : ℕ) → w < 2 ^ 32 → rswd_msg (rswd_msg_cmd w) (rswd_msg_op w) (rswd_msg_arg w) ≡ w
rswd_msg_repack w h = omega (
  arith,
  rswd_msg_as_sum (rswd_msg_cmd w) (rswd_msg_op w) (rswd_msg_arg w),
  rswd_msg_cmd_as_div w,
  rswd_msg_op_as_div w,
  rswd_msg_arg_as_mod w,
)
