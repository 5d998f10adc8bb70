-- ===== src/Lib.antt =====
-- A verification library for m3dev, tools for the development of ARM Cortex-M systems: a debug
-- probe's firmware, the host programs that drive it over USB, and the protocol between them.
--
-- How the program works. The host (tools/rswdp.c) packs requests into transactions of 32-bit words
-- (include/protocol/rswdp.h) and sends them over USB. The probe's firmware (m3debug/main.c) carries
-- out each message of a transaction on the target's debug port and sends one reply of data and a
-- status, which a reader thread of the host hands to the waiting request.
--
-- Which file models what.
--   Base        lists, words, bits and tests on native numbers
--   Protocol    include/protocol/rswdp.h: RSWD_MSG and its fields, the numbers of the commands
--   Agent       m3debug/main.c: process_txn; Agent/Main is a round of the loop of main, Agent/Hardware
--               what process_txn calls, Agent/Command the commands that a transaction encodes
--               and their meaning; Agent/Refine, Agent/Frame and Agent/Hang hold the theorems
--   Host/Txn    tools/rswdp.c: struct txn and the q_ functions that fill it
--   Host/Bulk   tools/rswdp.c: swdp_ahb_read32, swdp_ahb_write32; Host/Bulk/Machine says what the
--               access port of a target does with the commands of a chunk, its address increment
--               included, Host/Bulk/Read and Host/Bulk/Write hold the theorems
--   Host/Reply  tools/rswdp.c: process_reply, process_query, process_async
--   Host/Exec   tools/rswdp.c: q_exec, and swd_reader packet by packet
--   Host/Single tools/rswdp.c: the single reads and writes, core registers, watchpoints; Access says
--               what a transaction does to the access port, Cached and Requests hold the theorems
--   Host/Control tools/rswdp.c: halt, step and resume of the processor
--   Host/Attach tools/rswdp.c: swdp_reset, swdp_clear_error and what else concerns the probe
--   Host/Wait   tools/rswdp.c: the two waits that poll the target
--   Session     the two ends together; Session/Main holds the theorem
--   Swo         tools/swo.c: the trace decoder and its console lines
--   UsbConsole  libfw/usbconsole.c: the output ring
--   Print       libfw/print.c: numbers and formats; Print/Decimal holds the theorems
--   Target      what the host's tools call of tools/rswdp.c, as a record of operations
--   Lk          tools/lkdebug.c: the threads of an lk kernel on the target. Lk/Reads and Lk/Walk hold
--               the theorems
--   Gdb         tools/gdb-bridge.c: the connection and its packets. Gdb/Hex is the hexadecimal
--               coding, Gdb/Query handle_query, Gdb/Command handle_command, Gdb/Memory write_memory,
--               Gdb/Breakpoint handle_breakpoint. Theorems: Gdb/Packet on single packets,
--               Gdb/Command/Receive on all that is written, Gdb/Memory/Store and
--               Gdb/Breakpoint/Spec. The functions of the C library, and debugger_command, which
--               gives the lines it prints, are parameters
--   Boot        lpc13boot/main.c: the boot loader; Boot/Flash holds the theorem
--   BootClient  tools/lpcboot.c: the download by DFU and the exchange with the boot loader, and the
--               checksum of tools/bless-lpc.c;
--               BootClient/Download holds the theorem
--   Debugger    tools/debugger-core.c: variables and set; Debugger/Numbers is parse_number,
--               Debugger/Line debugger_command and what it runs, and Debugger/Variables holds the
--               theorem
--   Commands    tools/debugger-commands.c: the commands; Commands/Control resets, watchpoints and the
--               console, Commands/Download download and run, Commands/Flash run_flash_agent and
--               invoke. Commands/Flash/Agent states what an agent promises in include/agent/flash.h,
--               Commands/Flash/Chunk and Commands/Flash/Image hold the theorem
--   FlashAgents agents/stm32fxxx.c and agents/lpc13xx_lpc15xx.c, which run on the target;
--               FlashAgents/Sectors holds the theorem
--   Wire        m3debug/swdp.c over the registers of the serial port; Wire/Digits, Wire/Reverse and
--               Wire/Parity are about its masks and shifts, Wire/Line says what register accesses put
--               on the wire, Wire/Frames and Wire/Receive relate words to digits, and Wire/Turn,
--               Wire/Write, Wire/Read and Wire/Reset hold the theorems
--
-- How state is modelled. A 32-bit word is a native number, and where C wraps the model takes the
-- remainder. Received words are a function of the index, which also says what memory holds behind
-- them, since the code does not check its reads. Words that are appended to an array are a list.
-- What the firmware calls is a record of functions over a state of the hardware, and what the host
-- calls to carry out a transaction is a function over a state of the link. A result of the host's
-- functions is 0 for success, and another number stands for its negative.
--
-- The reply of process_txn is a list, and its result says whether that list fits txbuffer (Turn in
-- Agent): a longer one is an overrun, behind which nothing is said.
--
-- An interrupt is a step between the statements of the code that it interrupts. In UsbConsole it may
-- come between two characters and, in each round of a wait, in two places inside uc_write, before
-- interrupts are disabled and after they are enabled, and at the end of the round.
--
-- calloc is part of the record Target, and may fail.
--
-- Fuel. The loops of process_txn and of the block transfers take fuel, and `none` means that it
-- ran out: each round of process_loop takes a received word, each round of a block transfer moves
-- a word, so that one unit more than the words is enough; the theorems say so. The loop of
-- CMD_DOWNLOAD does not end with any fuel. The walk of a list of threads takes a unit for each node.
-- swdp_write and swdp_read take a unit for each request, so that one more than the WAIT answers is
-- enough; the waits for the serial port end with the list of what its registers answer. The loop of
-- dfu_download takes a unit for each block, and a wait of the host one for each read. The loop that
-- flashes an image takes a unit for each chunk, and a chunk is not empty.
--
-- Not modelled: register input and output (the drivers below arch, the boards), threads and sockets
-- of the host apart from the order of the packets, what the host prints, the line editor (a copy
-- of another project), and the components that PROJECT.json lists as not modelled.
pub mod Base
pub mod Wire
pub mod Protocol
pub mod Agent
pub mod Host
pub mod Session
pub mod Swo
pub mod UsbConsole
pub mod Print
pub mod Target
pub mod Lk
pub mod Gdb
pub mod Boot
pub mod Debugger
pub mod Commands
pub mod FlashAgents
pub mod BootClient
