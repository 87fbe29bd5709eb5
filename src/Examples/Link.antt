-- ===== src/Examples/Link.antt =====
-- Routes and a dispatched packet at concrete inputs.
use wire_gold.Common.{◌≡◌, refl, inr, true, false, none, some, [], ◌∷◌, arith}
use wire_gold.Head.Flags.{proto}
use wire_gold.Head.Packet.{PacketBuf}
use wire_gold.Link.Router.{
  IpNet, Router, default_net, contains, shift_right, first_match, set_item, next_hop, accept,
  is_to_me, is_subnet_bcast,
}
use wire_gold.Link.Router.Order.{IsOrdered, IsLongest, first_match-IsLongest, set_item-IsOrdered}
use wire_gold.Link.Router.Wider.{set_item-shadows}
use wire_gold.Link.Dispatch.{Peer, Me, handled, ip_number, dispatch_from}
use wire_gold.Link.Dispatch.Chain.{dispatch_from-seal}
use wire_gold.Head.Header.{pre_crc64, memory_image}
use wire_gold.Head.Builder.{seal, hash}
use wire_gold.Examples.Cases.{toy_md5, toy_blake, toy_blake-IsBlake, toy_aead, data_packet}

-- 10.0.0.0/16 and 10.0.0.0/8
abbrev narrow : IpNet
narrow = record { base = 167772160; len = 16 }

abbrev wide : IpNet
wide = record { base = 167772160; len = 8 }

abbrev table : Router
table = record { table = λ n. some n.len; list = narrow ∷ default_net ∷ [] }

found : first_match table.list 167772161 ≡ some narrow
unfolding first_match contains shift_right
found = refl

found_base : first_match table.list 167772160 ≡ some narrow
unfolding first_match contains shift_right
found_base = refl

table-IsOrdered : IsOrdered table.list
table-IsOrdered = ((λ covered. omega (arith, covered.1), tt), (tt, tt))

-- 10.0.0.0/24 goes in front.
abbrev narrower : IpNet
narrower = record { base = 167772160; len = 24 }

first_match-IsLongest_example : IsLongest table.list 167772161 narrow
first_match-IsLongest_example =
    first_match-IsLongest table.list 167772161 narrow table-IsOrdered found

set_item-IsOrdered_example : IsOrdered (set_item narrower (some 5) table).list
set_item-IsOrdered_example =
    set_item-IsOrdered table narrower (some 5) table-IsOrdered
      (inr (omega arith), (inr (omega arith), tt))

set_item-shadows_example :
    next_hop none (some 167772161) (set_item wide (some 5) table)
    ≡ (some 5, some (167772161, some 5))
set_item-shadows_example =
    set_item-shadows table wide narrow (some 5) 167772161 (omega arith) found_base found

abbrev peer : Peer
peer = record {
  keys = λ i. some toy_aead;
  allowedips = narrow ∷ [];
  usezstd = false;
  allowtrans = false;
  endpoint = none;
  lastalive = 0;
}

abbrev host : Me
host = record { me = 167772162; subnet = narrow; connections = [] }

allowed : accept peer.allowedips (ip_number data_packet.src) ≡ true
unfolding accept contains shift_right
allowed = refl

mine : is_to_me host.me host.subnet (ip_number data_packet.dst) ≡ true
unfolding is_to_me is_subnet_bcast contains shift_right
mine = refl

-- A body of two bytes, with the checksum that With sets.
abbrev filled : PacketBuf
filled = record {
  dat = record data_packet { md5h8 = pre_crc64 true toy_md5 data_packet };
  buffer = 1 ∷ 2 ∷ [];
}

stamped : filled.dat.md5h8 ≡ pre_crc64 true toy_md5 filled.dat
unfolding pre_crc64 memory_image
stamped = refl

abbrev sent : PacketBuf
sent = seal toy_aead (4 ∷ 5 ∷ []) 2 3 (hash toy_blake filled)

dispatch_from-seal_example :
    dispatch_from true toy_md5 toy_blake
      (λ bytes. none)
      (λ pr. true)
      host
      sent.dat
      sent.buffer
      (some peer)
    ≡ handled (proto 3) (1 ∷ 2 ∷ [])
dispatch_from-seal_example =
    dispatch_from-seal true toy_md5 toy_blake (λ bytes. none) (λ pr. true) host peer toy_aead
      toy_aead (4 ∷ 5 ∷ []) 2 3 filled (1 ∷ 2 ∷ []) toy_blake-IsBlake stamped (omega arith)
      (omega arith) refl refl (omega arith) refl (omega arith) allowed mine refl refl
