-- ===== src/Network/Discovery/Tests.antt =====
-- The theorem on core/network/discovery.py at two peers, one of which has failed three times.
use ai_inference_chain.Prelude.{◌≡◌, refl, none, [], ◌∷◌, arith}
use ai_inference_chain.Prelude.Dict.{lookup}
use ai_inference_chain.Network.Discovery.{PeerDiscovery}
use ai_inference_chain.Network.Discovery.Failures.{fail, fail_lem}

abbrev known : PeerDiscovery
known = record { peers = (41, 3) ∷ (42, 0) ∷ []; seed_file = 41 ∷ 42 ∷ [] }

fail_lem_example : lookup 41 (fail (λ url. url) (λ urls. urls) 2 41 known).peers ≡ none
fail_lem_example =
    fail_lem (λ url. url) (λ urls. urls) 2 41 41 known refl ((λ e. ground (arith, e), tt), (tt, tt))
      refl
