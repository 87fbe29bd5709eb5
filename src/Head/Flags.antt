-- ===== src/Head/Flags.antt =====
-- gold/head/flags.go and gold/head/protos.go: the flag bits and the protocol number of one byte.
use wire_gold.Common.{ltb, ◌==◌, ℕ, ◌+◌, ◌-◌, ◌%◌, bit_and, bit_or, Bool, not, ◌&&◌}

abbrev pub hasmorebit : ℕ
hasmorebit = 0x20

abbrev pub nofragbit : ℕ
nofragbit = 0x40

abbrev pub topbit : ℕ
topbit = 0x80

abbrev pub impossiblebit : ℕ
impossiblebit = bit_or hasmorebit nofragbit

abbrev pub flagsbit : ℕ
flagsbit = bit_or topbit impossiblebit

-- ^flagsbit on a uint8
abbrev pub protobit : ℕ
protobit = 0xff - flagsbit

abbrev pub proto_hello : ℕ
proto_hello = 0

abbrev pub proto_notify : ℕ
proto_notify = 1

abbrev pub proto_query : ℕ
proto_query = 2

abbrev pub proto_data : ℕ
proto_data = 3

abbrev pub proto_trans : ℕ
proto_trans = 4

abbrev pub proto_top : ℕ
proto_top = (protobit + 1) % 256

unfoldable pub proto : ℕ → ℕ
proto pf = bit_and pf protobit

unfoldable pub has_more : ℕ → Bool
has_more pf = not (bit_and pf hasmorebit == 0)

unfoldable pub no_frag : ℕ → Bool
no_frag pf = not (bit_and pf nofragbit == 0)

unfoldable pub is_valid : ℕ → Bool
is_valid pf =
    bit_and pf topbit == 0
    && not (bit_and pf impossiblebit == impossiblebit)
    && ltb (bit_and pf protobit) proto_top
