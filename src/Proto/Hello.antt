-- ===== src/Proto/Hello.antt =====
-- gold/proto/hello/hello.go: the bytes that a hello packet is answered with, if it is.

use wire_gold.Common.{◌==◌, if◌then◌else◌, ℕ, Option, none, some, List, [], ◌∷◌}

abbrev pub hello_ping : ℕ
hello_ping = 0

abbrev pub hello_pong : ℕ
hello_pong = 1

unfoldable pub on_hello : List ℕ → Option (List ℕ)
on_hello [] = none
on_hello (b ∷ rest) = if b == hello_ping then some (hello_pong ∷ []) else none
