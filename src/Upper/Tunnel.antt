-- ===== src/Upper/Tunnel.antt =====
-- upper/services/tunnel/tunnel.go: a byte stream over a link. `handleWrite` cuts the blocks that are
-- written into numbered packets, `handleRead` puts the packets that arrive in order again, and
-- `Read` hands their contents out. Channels are lists.
pub mod Sort
pub mod Cut
use wire_gold.Common.{
  ltb, leb, ◌==◌, if◌then◌else◌, ltb→lt, lt→ltb, leb→le, le→ltb, lt→leb, le→leb, ==_iff, ==_refl,
  Bool-cases, Option-cases, all_below, all_below_sound, length, get_elem?, get_or, set, take, drop,
  replicate, Some, All, length-append, length-take, length-drop, length-replicate, take-append-drop,
  take-append, drop-append, take-all, drop-all, drop-nil, drop-drop, take-add, All-append, All-take,
  All-drop, get_or-append_last, take_front, All-weaken, bit_or_step, bit_or-zero, bit_and-zero,
  bit_or_fields, bit_and_mask, bit_xor_cancel, bit_xor_comm, bit_or_assoc, bit_xor-lt, IsByte,
  AreBytes, put_uint, get_uint, length-put_uint, put_uint-AreBytes, get_uint-put_uint, get_uint-lt,
  put_uint-get_uint, get_uint-append, get_uint-take, get_or_ext, ℕ, zero, suc, ◌+◌, ◌-◌, ◌*◌, ◌/◌,
  ◌%◌, ◌^◌, ◌≤◌, ◌<◌, min, bit_and, bit_or, bit_xor, ◌≡◌, refl, sym, ap, ap₂, ◌∙◌, ◌≢◌, ◌↔◌, ◌⊎◌,
  inl, inr, Bool, true, false, not, ◌&&◌, ◌||◌, Option, none, some, List, [], ◌∷◌, ◌++◌,
  append_assoc, append-nil, arith, pow-suc, dec_lt, ℕ_discrete,
}

-- link.LinkData: the size that the header declares and the bytes.
pub record LinkData : Type 0 where
  pub size : ℕ
  pub bytes : List ℕ

abbrev pub uint32 : ℕ → ℕ
uint32 n = n % 4294967296

abbrev pub put_first : List ℕ → Option (List (List ℕ) × ℕ) → Option (List (List ℕ) × ℕ)
put_first f none = none
put_first f (some (packets, next)) = some (f ∷ packets, next)

abbrev pub put_before : List (List ℕ) → Option (List (List ℕ)) → Option (List (List ℕ))
put_before packets none = none
put_before packets (some rest) = some (packets ++ rest)

-- The loop over one block, on fuel: the packets and the next number; none when the fuel is used up.
unfoldable pub frames : ℕ → ℕ → ℕ → List ℕ → Option (List (List ℕ) × ℕ)
frames mtu zero seq b = none
frames mtu (suc fuel) seq b =
    let rest = frames mtu fuel (uint32 (seq + 1)) (drop (mtu - 4) b) in
    if ltb mtu (length b + 4)
    then put_first (put_uint 4 seq ++ take (mtu - 4) b) rest
    else some ((put_uint 4 seq ++ b) ∷ [], uint32 (seq + 1))

-- handleWrite: the channel ends at a nil block; a buffer under 4 bytes panics.
unfoldable pub handle_write : ℕ → ℕ → List (Option (List ℕ)) → Option (List (List ℕ))
handle_write mtu seq [] = some []
handle_write mtu seq (none ∷ blocks) = some []
handle_write mtu seq (some b ∷ blocks) = elim (frames mtu (length b + 1) seq b) [
  | none ↦ none
  | some (packets, next) ↦
      if ltb mtu 4 then none else put_before packets (handle_write mtu next blocks)
]

-- The state of handleRead: the number awaited, the packets that came early, those handed on.
pub record Reader : Type 0 where
  pub seq : ℕ
  pub seqmap : List (ℕ × LinkData)
  pub out : List LinkData

abbrev pub new_reader : Reader
new_reader = record { seq = 0; seqmap = []; out = [] }

unfoldable pub lookup : ℕ → List (ℕ × LinkData) → Option LinkData
lookup k [] = none
lookup k ((j, p) ∷ rest) = if k == j then some p else lookup k rest

unfoldable pub delete : ℕ → List (ℕ × LinkData) → List (ℕ × LinkData)
delete k [] = []
delete k ((j, p) ∷ rest) = if k == j then delete k rest else (j, p) ∷ delete k rest

-- seq++ and s.out <- p
abbrev pub emit : Reader → LinkData → Reader
emit r p = record { seq = uint32 (r.seq + 1); seqmap = r.seqmap; out = r.out ++ (p ∷ []) }

-- The rounds that take the awaited packet from the map, on fuel.
unfoldable pub drain : ℕ → Reader → Reader
drain zero r = r
drain (suc fuel) r = elim (lookup r.seq r.seqmap) [
  | none ↦ r
  | some p ↦ drain fuel (emit (record r { seqmap = delete r.seq r.seqmap }) p)
]

-- recvseq = binary.LittleEndian.Uint32(p.D[:4])
abbrev pub recvseq : LinkData → ℕ
recvseq p = get_uint 4 p.bytes

-- One packet: it is the awaited one or is kept in the map; then the rounds on the map.
unfoldable pub receive : Reader → LinkData → Reader
receive r p =
    let next =
      if recvseq p == r.seq
      then emit r p
      else record r { seqmap = (recvseq p, p) ∷ delete (recvseq p) r.seqmap } in
    drain (length next.seqmap) next

-- handleRead over the packets that the link delivers: an empty one ends it, one under 4 bytes panics.
unfoldable pub handle_read : Reader → List LinkData → Option Reader
handle_read r [] = some r
handle_read r (p ∷ rest) =
    let later = handle_read (receive r p) rest in
    if length p.bytes == 0 then some r else if ltb (length p.bytes) 4 then none else later

-- Read(p) for len(p) = n: the bytes, what is left of the channel, and the cache. The result is none
-- where the code waits for a packet; the bytes are none at io.EOF.
unfoldable pub hand_out : ℕ → List ℕ → Option (List ℕ) × Option (List ℕ)
hand_out n d = if leb (length d) n then (some d, none) else (some (take n d), some (drop n d))

pub record Source : Type 0 where
  pub outcache : Option (List ℕ)
  pub channel : List LinkData

unfoldable pub read_channel : ℕ → List LinkData → Option (Option (List ℕ) × Source)
read_channel n [] = none
read_channel n (p ∷ c) =
    if length p.bytes == 0 || ltb p.size 4
    then some (none, record { outcache = none; channel = c })
    else some (
      (hand_out n (drop 4 p.bytes)).0,
      record { outcache = (hand_out n (drop 4 p.bytes)).1; channel = c },
    )

unfoldable pub read : ℕ → Source → Option (Option (List ℕ) × Source)
read n s = elim s.outcache [
  | none ↦ read_channel n s.channel
  | some d ↦ some ((hand_out n d).0, record { outcache = (hand_out n d).1; channel = s.channel })
]
