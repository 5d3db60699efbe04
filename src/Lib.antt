-- ===== src/Lib.antt =====
-- InferenceChain: a verification library for the core of the blockchain and its consensus.
--
-- The program is a network of nodes that answer inference requests. A round of consensus
-- (core/qoi/state_machine.py, a PBFT in which each node votes with its own class) ends in an outcome
-- whose scores and rewards core/qoi/quality.py computes; blocks without a request are agreed on by
-- votes (core/qoi/pos_consensus.py); a committed block is appended to the ledger
-- (core/blockchain/chain.py), which checks it and applies its transactions.
--
-- The files, and what they model:
-- - Prelude: what the other files share; a Python dict is an association list in insertion order
--   (Prelude/Dict), a number that can be negative is an integer (Prelude/Int). Prelude/Quorums counts
--   members of overlapping sets.
-- - Blockchain/Constants: core/blockchain/constants.py. Amounts are exact thousandths, not floats: a
--   rounding of the program, as in `balance - amount - fee`, is outside the model.
-- - Blockchain/Transaction: the classes of core/blockchain/transaction.py. A payload is a constructor
--   of one type; a transaction's type is its payload's. A tx_id is a field, as it is after from_dict.
-- - Blockchain/Block: core/blockchain/block.py and the Merkle tree of core/blockchain/utils.py.
--   SHA-256 is the parameter Hashes, of which nothing is assumed. The tree's loop runs on fuel, the
--   number of leaves, which is enough since a level has half as many, rounded up.
-- - Blockchain/Chain: core/blockchain/chain.py. State has its dataclasses, Apply a function for each
--   case of _apply_tx, Validate the checks; a raised ValueError is an err. Signature verification, of
--   core/node/identity.py, is the parameter Signing; where it raises, the code accepts.
-- - Blockchain/Genesis: core/blockchain/genesis.py.
-- - Blockchain/Codec: to_dict and from_dict of core/blockchain/transaction.py and block.py. A dict's
--   values are a data type with a constructor for each Python type that to_dict writes. Payloads has
--   the payload classes, Transactions and Blocks the dicts that hold them.
-- - Blockchain/Mempool: core/blockchain/mempool.py.
-- - Blockchain/Vm: core/blockchain/vm/simple_vm.py. Values has Python's operators on the values of a
--   contract, Steps the opcodes, Vm the loop of _execute on fuel, one more than the gas limit, which is
--   enough since each round burns gas. Texts' operations and ints beside floats are the parameter
--   Python. The ledger runs no machine when it applies a call.
-- - Registry/Validators: core/registry/validator_registry.py. Codec has the dicts of export_state and
--   import_state; Python's texts of datetimes are the parameter Dates, of which IsDates states what
--   Python documents.
-- - Registry/Models: core/registry/model_registry.py, the SQLite tables as lists of rows.
-- - Consensus/Quorum: core/consensus/quorum.py. Python's seeded sampling is the parameter Sampling,
--   of which IsSampling states what Python documents.
-- - Consensus/Reliability: core/consensus/reliability.py over Floats; its theorem names what it needs of
--   comparison.
-- - Qoi/Quality: core/qoi/quality.py. Float arithmetic is the parameter Floats, of which nothing
--   is assumed here; none stands for a raised exception.
-- - Qoi/Messages: the classes of core/qoi/messages.py.
-- - Qoi/Machine: the class QoIStateMachine of core/qoi/state_machine.py, a function for each handler:
--   the state here, start_round, PRE-PREPARE and PREPARE in Rounds, the count of classes in Voting,
--   COMMIT in Commits, the change of the primary in ViewChange, handle_message and check_timeout in
--   Dispatch. Calls has sequences of calls, which any peer may send.
-- - Qoi/Timeouts: core/qoi/timeout_manager.py.
-- - Qoi/Scheduler: core/qoi/message_scheduler.py, a round of its loop for a handler that is an argument.
-- - Qoi/ViewChanger: core/qoi/view_changer.py. State objects stand in a heap, since a waiter keeps its
--   object when the entry is cleared. A wait runs on fuel, its looks; 102 are enough for 10 s at 100 ms.
-- - Qoi/SystemTxs: build_system_txs of core/qoi/state_machine.py. An amount of the ledger is read off a
--   float by a parameter.
-- - Consensus/BlockBuilder: core/consensus/block_builder.py, which turns the outcomes of Qoi/Machine and
--   Qoi/Pos into blocks for Blockchain/Chain.
-- - Qoi/Proposer: core/qoi/proposer.py, over Floats and the hash that seeds the draw; its theorem names
--   what it needs of float arithmetic.
-- - Qoi/Pos: core/qoi/pos_consensus.py.
-- - Node/Pom: core/node/pom.py. The loop that draws the indices of a challenge runs on fuel, the digests
--   it may use: how many it needs depends on the digests, and its theorem says when it has enough.
-- - Network/Discovery: core/network/discovery.py, with sorting and the stripping of slashes as arguments.
-- The Tests files hold the theorems at concrete inputs.
--
-- The clock is an argument of the functions that read it, in whole seconds, or in milliseconds where a
-- file says so. A class label, a view and a height are natural numbers; a view is an integer in
-- Qoi/ViewChanger, where any peer names it. Strings are numbers that are only compared.
--
-- Not modelled: JSON text, logging, HTTP, peer-to-peer transport, the storage of blocks, torch models and their
-- out-of-distribution scores, language-model providers, and the engine that glues these together.
pub mod Prelude
pub mod Blockchain
pub mod Qoi
pub mod Registry
pub mod Consensus
pub mod Node
pub mod Network
