-- ===== src/Lib.antt =====
-- The PHP extension php_botan and the parts of the Botan 1.8.11 library that it is built with.
--
-- The extension (php_botan.cc) registers one function with the Zend engine, which initialises the
-- library. The library, in Botan-1.8.11/src, is C++ in layers: utilities on words, buffers, characters
-- and texts (utils/) at the bottom; algorithms with a small state each (block/, stream/, checksum/); modes and
-- their padding over block ciphers (modes/); integers of any size, whose signs and registers stand on
-- loops over words (math/bigint/); and filters (codec/, filters/), which take bytes by
-- `write` in pieces of any size, end a message by `end_msg`, and send their output on.
--
-- Which file models what, with paths from Botan-1.8.11/src but for the first:
--   Extension               php_botan.cc, php_botan.h: botan_version, the function table, the module entry
--   Extension.Initializer   libstate/init.cpp, and the pointer to the global state in libstate/libstate.cpp
--   Base.Words, Base.XorBuf utils/loadstor.h, utils/xor_buf.h
--   Base.Exceptn            utils/exceptn.h: the exceptions thrown, and `Result` for a call that may throw
--   Block.Tea, Block.Xtea   block/tea/tea.cpp, block/xtea/xtea.cpp: enc, dec, key_schedule
--   Block.LubyRackoff       block/lubyrack/lubyrack.cpp, over any hash function
--   Block.Lion              block/lion/lion.cpp, over any hash function and any stream cipher
--   Modes.Padding           modes/mode_pad/mode_pad.cpp, and the end of a message in modes/cbc/cbc.cpp
--   Utils.Charset           utils/charset.cpp: conversions, digits
--   Utils.Parsing           utils/parsing.cpp: numbers, time spans, split_on, OIDs, IPv4 addresses
--   Utils.BitOps            utils/bit_ops.h, utils/rotate.h, for 32-bit words
--   Codec.Hex               codec/hex/hex.cpp, codec/hex/hex_char.cpp: both filters
--   Filters.SecureQueue     filters/secqueue.cpp
--   Checksum.Adler32        checksum/adler32/adler32.cpp
--   Checksum.Crc32, .Crc24  checksum/crc32/crc32.cpp, checksum/crc24/crc24.cpp, over Checksum.Unrolled
--   Utils.Names             utils/parsing.cpp: parse_algorithm_name, x500_name_cmp
--   Stream.Arc4             stream/arc4/arc4.cpp: generate, key_schedule, cipher
--   Math.Word, Math.Carry   math/bigint/mp_generic/mp_asm.h, mp_asmi.h, with words of 32 bits
--   Math.Mp                 math/bigint/mp_asm.cpp, mulop_generic/mp_mulop.cpp, mp_misc.cpp
--   Math.Comba              math/bigint/mp_comba.cpp: the calls of each function are a table
--   Math.Karatsuba          math/bigint/mp_karat.cpp: karatsuba_mul, karatsuba_sqr
--   Math.Multiply           math/bigint/mp_karat.cpp: karatsuba_size, bigint_mul, bigint_sqr
--   Math.Shift              math/bigint/mp_shift.cpp: the shifts to the left
--   Math.BigInt             math/bigint/bigint.h, bigint.cpp, big_ops3.cpp: the class BigInt
-- Math.Value has the number that a list of words stands for.
-- The modules Tests apply the theorems at concrete inputs. Base holds what the others share: lists
-- measured by native numbers, the laws of bitwise operations, counted loops (Base.Loops) and the check
-- of a fact at every value below a bound (Base.Tables).
--
-- A byte, a character and a word are natural numbers, and the wrap-around of 8 and 32 bits is written
-- out (`u8`, `u32`). A buffer or a string is the list of its bytes. An object is a record of its
-- members, and an operation takes the record and returns it; what a filter sends is gathered in `sent`.
--
-- Bounds and fuel. A `for` loop with a fixed count is `for_range`. The loops of the filters that take
-- a whole buffer per round have the number of rounds, the length divided by the size of the buffer.
-- to_string runs on 20 rounds, the digits of a 64-bit number. The loop over lines of the hex encoder has
-- a round for each byte to send, SecureQueue::write one more than bytes to write and SecureQueue::read
-- one more than nodes, x500_name_cmp and ARC4 one for each byte: each round sends, takes or drops one
-- at least, or is the last. karatsuba_mul and karatsuba_sqr run on fuel above the size, which each call
-- halves. The loops of karatsuba_size have a round for each size from the first to the last. Sizes of
-- arrays are far below 2^31, so that sums of them do not wrap.
--
-- An array of words is the list of its words from the lowest. The arrays that a function of math/bigint/
-- reads and writes do not overlap but where the code passes one array for both, which is then one
-- argument.
--
-- Not modelled: the other ciphers, hash functions and modes, the other codecs, ASN.1, division and
-- modular arithmetic of big integers, public keys and certificates, and what is system calls, memory or
-- global state. Of the variants of math/bigint/ for processors, the generic ones are modelled. The size
-- of the buffers of a SecureQueue is a parameter, since the build sets it. Memory is not modelled:
-- `destroy` leaves an empty chain. Queues have addresses only where one is assigned to another
-- (`Store`). A new Library_State and its start are parameters of botan_version. Where unpad reads
-- outside its block or initialize behind a vector the model says `overrun`; xor_checked is `none` where
-- xor_buf reads behind a buffer, and xor_buf, for its callers in the ciphers, is then empty.
pub mod Base
pub mod Block
pub mod Modes
pub mod Utils
pub mod Codec
pub mod Filters
pub mod Checksum
pub mod Stream
pub mod Math
pub mod Extension
