-- ===== src/Network/Discovery.antt =====
-- core/network/discovery.py. A URL is a text; `rstrip` is `url.rstrip("/")`, and `sort` is `sorted`. The
-- seed file is the URLs of its lines, without the comments; reading and writing succeed here, since a
-- failure is caught and changes nothing but the file.
pub mod Failures
mod Tests
use ai_inference_chain.Prelude.{
  ℕ, ◌+◌, ◌*◌, Bool, true, false, not, ◌&&◌, Option, none, some, List, [], ◌∷◌, leb, if◌then◌else◌,
  length,
}
use ai_inference_chain.Prelude.Dict.{Dict, lookup, insert, erase, contains, keys}
use ai_inference_chain.Blockchain.Constants.{Text, is_truthy}

abbrev pub max_failures : ℕ
max_failures = 5

-- `_peers`, from a URL to its consecutive failures, and the seed file
pub record PeerDiscovery : Type 0 where
  pub peers : Dict ℕ
  pub seed_file : List Text

module _ (rstrip : Text → Text) (sort : List Text → List Text) where
  -- `_save`
  abbrev pub save : PeerDiscovery → PeerDiscovery
  save d = record d { seed_file = sort (keys d.peers) }

  unfoldable pub add : Text → PeerDiscovery → PeerDiscovery
  add url d =
      let url' : Text = rstrip url in
      if is_truthy url' && not (contains url' d.peers)
      then save (record d { peers = insert url' 0 d.peers })
      else d

  unfoldable pub remove : Text → PeerDiscovery → PeerDiscovery
  remove url d = save (record d { peers = erase (rstrip url) d.peers })

  unfoldable pub mark_failure : Text → PeerDiscovery → PeerDiscovery
  unfolding remove
  mark_failure url d =
      let url' : Text = rstrip url in
      elim (lookup url' d.peers) [
        | none ↦ d
        | some n ↦
            let d' : PeerDiscovery = record d { peers = insert url' (n + 1) d.peers } in
            if leb max_failures (n + 1) then remove url' d' else d'
      ]

  unfoldable pub mark_success : Text → PeerDiscovery → PeerDiscovery
  mark_success url d =
      let url' : Text = rstrip url in
      if contains url' d.peers then record d { peers = insert url' 0 d.peers } else d

  unfoldable pub add_all : List Text → PeerDiscovery → PeerDiscovery
  unfolding add
  add_all [] d = d
  add_all (url ∷ urls) d = add_all urls (add url d)

  -- `_load` of the lines that are URLs
  unfoldable pub load : List Text → Dict ℕ → Dict ℕ
  load [] peers = peers
  load (url ∷ urls) peers = load urls (insert url 0 peers)

  -- `__init__` with the seed file; there are no hard-coded seeds
  unfoldable pub new_discovery : List Text → List Text → PeerDiscovery
  unfolding load add_all
  new_discovery seed_file extra =
      add_all extra (record { peers = load seed_file []; seed_file = seed_file })

unfoldable pub all_peers : PeerDiscovery → List Text
all_peers d = keys d.peers

unfoldable pub seed_peers : PeerDiscovery → List Text
unfolding all_peers
seed_peers d = all_peers d
