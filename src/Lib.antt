-- ===== src/Lib.antt =====
-- Parsers generated by pakeles: the C code of `pakeles gen c` and `pakeles gen bpf`.
--
-- pakeles turns a packet format into an intermediate representation, and that into parsers in C. A
-- generated parser.c is one function `pk_NAME_parse_core`: a loop of bounded length over a `switch`
-- whose cases are the states of the format. A case reads fields into `*out`, checks bounds, opens
-- (pushes) and closes (pops) sized regions, and chooses the next state. `pk_NAME_parse` zeroes `*out`
-- and calls it; `pk_NAME_reason_str` names the reason of a rejection. parser.bpf.c is the same
-- function for the eBPF verifier, with every packet index masked by PK_BUF_MASK.
--
-- The modules:
--   Base           tests, lists by index, machine words with their wrap-around, bit fields
--   Core           C statements as functions on the packet, the local variables (off, pk_rsp,
--                  pk_region_end) and `*out`; one definition for each statement that the emitter of
--                  rust/pakeles/src/codegen/c.rs writes; a read outside the buffer, or of an array
--                  element that is not written, is a fault
--   Safety         a judgement on statements, with a rule for each: no fault, regions nested, the
--                  cursor inside the packet
--   Values         what reads return, against bits of the packet; statements on all their branches
--   Interp         push and pop of the interpreter (rust/pakeles/src/interp/mod.rs), and the C
--                  statements beside them
--   Results        what is read off a result
--   Entry          `pk_entry` of examples/tlv_items/gen/parser.bpf.c, for any parser
--   Tlv, Counted, EthIpvxL4
--                  examples/{tlv_items,counted_items,eth_ipvx_l4}/gen/parser.c and parser.h
--   Tls, Quic, Katran, Sai, FlowDissector, Dash, DpdkPtype
--                  benchmarks/industry/{tls_clienthello,quic_initial,katran_parser,sai_parser,
--                  linux_flow_dissector,dash_parser,dpdk_ptype}/gen/parser.c and parser.h
--
-- In the module of a parser, Types has the structs of parser.h as records, the states and the reason
-- codes; further children have one definition `case_STATE` for each case of the switch, whole, with
-- the C order of reads, tests and assignments; Parse has the switch, the loop's bound and the entry
-- points; Cases and Sound apply Safety to it; Tests runs it on whole packets. Counted, Tlv and
-- Quic have more children with exact results.
--
-- Numbers are natural numbers with the casts and the modulus of each C type written out. The loop
-- recurs on the C code's own bound `max_depth`, so it ends as the C loop does, with
-- max_depth_exceeded. `bit_len + 64 < 2^64` is the one condition on sizes: the C code adds up to 64
-- to an offset before it compares.
--
-- Not modelled: the compiler from the format to C and the other back ends (Rust, Python, Lua, P4),
-- the XDP wrappers around parser.bpf.c, the academic benchmarks, five of whose parsers look ahead, and
-- the capture programs of the benchmarks, which call third-party code.
pub mod Base
pub mod Core
pub mod Safety
pub mod Values
pub mod Interp
pub mod Results
pub mod Entry
pub mod Tlv
pub mod Counted
pub mod EthIpvxL4
pub mod Quic
pub mod Tls
pub mod Katran
pub mod Sai
pub mod FlowDissector
pub mod Dash
pub mod DpdkPtype
