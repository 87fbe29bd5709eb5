-- ===== src/Examples/Proto.antt =====
-- The handlers of the protocols at concrete inputs.
use wire_gold.Common.{◌≡◌, refl, inl, inr, true, false, none, some, [], ◌∷◌}
use wire_gold.Link.Dispatch.{Me, is_in_peer}
use wire_gold.Proto.Hello.{on_hello}
use wire_gold.Proto.Nat.{Notice, on_notify, query_all}
use wire_gold.Proto.Nat.Keep.{settings, on_notify-settings, query_unknown_panics}

ping : on_hello (0 ∷ []) ≡ some (1 ∷ [])
unfolding on_hello
ping = refl

abbrev known : Me
known = record {
  me = 1;
  subnet = record { base = 0; len = 24 };
  connections =
      (
        (10 ∷ []),
        record {
          keys = λ i. none;
          allowedips = [];
          usezstd = false;
          allowtrans = false;
          endpoint = none;
          lastalive = 0;
        },
      )
      ∷ [];
}

abbrev notice : Notice
notice = record { peer_ip = 10 ∷ []; network = 4; endpoint = some 99 }

on_notify-settings_example :
    settings (on_notify 4 (some (notice ∷ [])) known).connections ≡ settings known.connections
on_notify-settings_example = on_notify-settings 4 (some (notice ∷ [])) known

stranger : is_in_peer (11 ∷ []) known.connections ≡ none
unfolding is_in_peer
stranger = refl

query_unknown_panics_example :
    query_all true (λ e. 4) none ((10 ∷ []) ∷ (11 ∷ []) ∷ []) known ≡ none
query_unknown_panics_example =
    query_unknown_panics (λ e. 4) none ((10 ∷ []) ∷ (11 ∷ []) ∷ []) known (inr (inl stranger))
