-- ===== src/Blockchain/Genesis/Tests.antt =====
-- The theorem on core/blockchain/genesis.py at one allocation, one node and one DNN node.
use ai_inference_chain.Prelude.{◌+◌, ◌≡◌, some, [], ◌∷◌, ok, arith}
use ai_inference_chain.Prelude.Int.{◌+ℤ◌, ◌-ℤ◌}
use ai_inference_chain.Blockchain.Constants.{thousands}
use ai_inference_chain.Blockchain.Block.{Block, Hashes, validate_structure}
use ai_inference_chain.Blockchain.Chain.{new_chain}
use ai_inference_chain.Blockchain.Chain.State.{balance_of, stake_of}
use ai_inference_chain.Blockchain.Genesis.{GenesisNode, GenesisDnnNode, create_genesis_block}
use ai_inference_chain.Blockchain.Genesis.Balances.{create_genesis_block-balances}

abbrev sums : Hashes
sums = record {
  empty_hash = 7;
  pair_hash = λ a b. a + b;
  header_hash = λ header. header.height;
  contract_hash = λ a n. a + n;
}

abbrev plain : GenesisNode
plain = record { address = 21; model_name = 31; public_key = 32; endpoint = 33 }

abbrev staker : GenesisDnnNode
staker = record {
  address = 22;
  model_name = 31;
  public_key = 34;
  endpoint = 35;
  weights_hash = 36;
  dataset_id = 37;
  architecture = 0;
  stake = thousands 1000;
}

create_genesis_block-balances_example :
    (g : Block) × (create_genesis_block
        (λ tx. tx.nonce)
        0
        sums
        ((22, thousands 5000) ∷ [])
        (plain ∷ [])
        (staker ∷ [])
        3
      ≡ some g)
    × (validate_structure g ≡ ok tt)
    × (balance_of (new_chain sums 1 g).state 22 ≡ thousands 4000)
    × (stake_of (new_chain sums 1 g).state 22 ≡ thousands 1000)
unfolding ◌+ℤ◌ ◌-ℤ◌
create_genesis_block-balances_example =
    create_genesis_block-balances sums (λ tx. tx.nonce) 0 ((22, thousands 5000) ∷ []) (plain ∷ [])
      (staker ∷ []) 3 22 1 (λ e. ground (arith, e))
