-- ===== src/Protocol.antt =====
-- The message words of the remote Serial Wire Debug protocol, include/protocol/rswdp.h: the macros
-- that pack and unpack a header word, the transaction identifiers, and the command and operation
-- numbers. `Fields` proves that packing and unpacking are inverse.
pub mod Fields
use m3dev.Base.{ℕ, ◌<<<◌, ◌>>>◌, bit_and, bit_or}

-- RSWD_MSG, RSWD_MSG_CMD, RSWD_MSG_OP, RSWD_MSG_ARG
unfoldable pub rswd_msg : ℕ → ℕ → ℕ → ℕ
rswd_msg cmd op n =
    bit_or (bit_or (bit_and cmd 0xFF <<< 24) (bit_and op 0xFF <<< 16)) (bit_and n 0xFFFF)

unfoldable pub rswd_msg_cmd : ℕ → ℕ
rswd_msg_cmd n = bit_and (n >>> 24) 0xFF

unfoldable pub rswd_msg_op : ℕ → ℕ
rswd_msg_op n = bit_and (n >>> 16) 0xFF

unfoldable pub rswd_msg_arg : ℕ → ℕ
rswd_msg_arg n = bit_and n 0xFFFF

-- RSWD_TXN_START and RSWD_TXN_ASYNC
unfoldable pub rswd_txn_start : ℕ → ℕ
rswd_txn_start seq = bit_or 0xAA770000 (bit_and seq 0xFFFF)

abbrev pub rswd_txn_async : ℕ
rswd_txn_async = 0xAA001111

-- The commands, host to target.
abbrev pub cmd_null : ℕ
cmd_null = 0x00

abbrev pub cmd_swd_write : ℕ
cmd_swd_write = 0x01

abbrev pub cmd_swd_read : ℕ
cmd_swd_read = 0x02

abbrev pub cmd_swd_discard : ℕ
cmd_swd_discard = 0x03

abbrev pub cmd_attach : ℕ
cmd_attach = 0x04

abbrev pub cmd_reset : ℕ
cmd_reset = 0x05

abbrev pub cmd_download : ℕ
cmd_download = 0x06

abbrev pub cmd_execute : ℕ
cmd_execute = 0x07

abbrev pub cmd_trace : ℕ
cmd_trace = 0x08

abbrev pub cmd_bootloader : ℕ
cmd_bootloader = 0x09

abbrev pub cmd_set_clock : ℕ
cmd_set_clock = 0x0A

abbrev pub cmd_swo_clock : ℕ
cmd_swo_clock = 0x0B

-- The commands, target to host.
abbrev pub cmd_status : ℕ
cmd_status = 0x10

abbrev pub cmd_swd_data : ℕ
cmd_swd_data = 0x11

abbrev pub cmd_swo_data : ℕ
cmd_swo_data = 0x12

abbrev pub cmd_debug_print : ℕ
cmd_debug_print = 0x20

-- The queries.
abbrev pub cmd_version : ℕ
cmd_version = 0x30

abbrev pub cmd_build_str : ℕ
cmd_build_str = 0x31

abbrev pub cmd_board_str : ℕ
cmd_board_str = 0x32

abbrev pub cmd_rx_maxdata : ℕ
cmd_rx_maxdata = 0x33

abbrev pub cmd_clock_khz : ℕ
cmd_clock_khz = 0x34

-- The direction, the port and the register of a direct access.
abbrev pub op_rd : ℕ
op_rd = 0x00

abbrev pub op_wr : ℕ
op_wr = 0x01

abbrev pub op_ap : ℕ
op_ap = 0x02

abbrev pub dp_idcode : ℕ
dp_idcode = 0x00

abbrev pub dp_abort : ℕ
dp_abort = 0x00

abbrev pub dp_dpctrl : ℕ
dp_dpctrl = 0x04

abbrev pub dp_select : ℕ
dp_select = 0x08

abbrev pub dp_buffer : ℕ
dp_buffer = 0x0C

-- The registers of the AHB access port.
abbrev pub ahb_csw : ℕ
ahb_csw = 0x00

abbrev pub ahb_tar : ℕ
ahb_tar = 0x04

abbrev pub ahb_drw : ℕ
ahb_drw = 0x0C

-- AHB_CSW_MDEBUG | AHB_CSW_PRIV | AHB_CSW_DBG_EN | AHB_CSW_32BIT, and the same with
-- AHB_CSW_INC_SINGLE.
abbrev pub csw_single : ℕ
csw_single = bit_or (bit_or (bit_or (1 <<< 29) (1 <<< 25)) (1 <<< 6)) (2 <<< 0)

abbrev pub csw_increment : ℕ
csw_increment =
    bit_or (bit_or (bit_or (bit_or (1 <<< 29) (1 <<< 25)) (1 <<< 4)) (1 <<< 6)) (2 <<< 0)

-- The core debug registers.
abbrev pub cdbg_csr : ℕ
cdbg_csr = 0xE000EDF0

abbrev pub cdbg_s_halt : ℕ
cdbg_s_halt = 0x00020000

abbrev pub cdbg_reg_addr : ℕ
cdbg_reg_addr = 0xE000EDF4

abbrev pub cdbg_reg_data : ℕ
cdbg_reg_data = 0xE000EDF8
