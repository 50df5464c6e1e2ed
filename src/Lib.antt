-- ===== src/Lib.antt =====
-- padi-chain, an Ethereum-compatible blockchain in Go: its wire encoding, the certificates that
-- make blocks final, proof-of-stake validator management, the world state with its journal, the
-- Merkle Patricia trie, the fees of a transaction, and the price of gas.
--
-- Parts, and the files that model them:
--   Base            lists over native numbers, Go maps as association lists, and the result of a
--                   Go call (a value, an error, a panic).
--   Rlp             rlp/encode.go and rlp/decode.go below the reflection layer. Rlp/Encode has the
--                   writers (EncodeBytes, EncodeList, writeHeader, putUint), Rlp/Stream the cursor
--                   (Kind, Bytes, Uint, List, Raw) and Split. A byte is a number below 256, and a
--                   Stream is the list of the bytes that remain, so that each method returns the
--                   rest beside its value. Machine integers wrap where the source's do.
--   Attest          core/aggregate.go, core/attestation.go and consensus/finality.go. Bitfield is
--                   the set of signers, Message what they sign, Aggregate the certificate with its
--                   quorum, Vote the single attestation and the proof of equivocation, Pool the
--                   AttestationPool with its maps. Messages are built with the writers of Rlp.
--   Attest/Bls      the operations of crypto/bls12381 that these files call, as an interface: the
--                   curve arithmetic is not modelled.
--   Staking         staking/params.go, staking/registry.go and staking/lifecycle.go. Store is the
--                   storage and the balances behind StateAccess, Registry the records packed into
--                   words of 32 bytes, Lifecycle the Manager's operations on one validator, Epoch
--                   ProcessEpoch and Proposer ProposerAt.
--   Poa             consensus/poa.go: Engine has the validator set, the rotation and the timing of
--                   rounds, Headers the header of core/block.go with its hashes, Author,
--                   VerifyHeader, Prepare and Seal. The operations of crypto/secp256k1 and
--                   crypto/keccak that these call are an interface; the clock is an argument.
--   State           core/account.go, state/statedb.go, state/journal.go and state/access.go. Objects
--                   has StateDB and its accessors, Journal the entries and how each is reverted,
--                   Writes the changes, Access the access list, Snapshots Snapshot,
--                   RevertToSnapshot and Finalise, Lives New and Copy. Views and Observed say when
--                   two states answer alike the methods that Agrees lists; Blocks to Runs carry the
--                   proof that reverting works.
--   Trie            trie/trie.go: Nodes has the node types, Get, Update and Delete over nodes that may
--                   be hashes of nodes in the store, Compact the hex-prefix encoding of a path and
--                   nibblesToKey. Trees is the trie with every node loaded and the map that it
--                   stands for, which Reading, Inserting and Deleting show the operations to keep.
--   Processor       processor/transition.go on the world state of State: Gas has the gas pool and
--                   IntrinsicGas, Transition ApplyMessage with preCheck, buyGas, refundGas,
--                   payProposer and staking calls. Fees has CalcBaseFee and VerifyGasLimit of
--                   processor/processor.go and the prices of core/transaction.go.
--   Evm             evm/gas.go and toWordSize of evm/memory.go: what growing a memory, forwarding gas
--                   and writing a slot cost.
--
-- Choices:
--   Hashes and addresses are the numbers that their bytes stand for. A storage key of the registry
--   is the hash of a label and an index; the store has one function per label, which takes two
--   such keys for distinct. Keccak256, where its value matters, is a parameter.
--   A method that changes its receiver returns the new state; a Go map is an association list, in
--   the order of insertion, or a function where the source never ranges over it.
--   An account balance is an integer, since SubBalance does not stop at zero.
--   Loops are recursion on the list or on the number of rounds. The loop of Split has the length
--   of the payload as fuel, since every item takes a byte at least; popcount has the 8 bits of a
--   byte; the square root of the base reward has its argument, which divides by four each round.
--   Locks and subscriptions are left out: each method runs as one step.
--   A stateObject that the source shares by pointer is written back into the map of objects at once.
--   The tries and the store behind a StateDB are a parameter, Backend, with any answers, errors
--   included, that stay the same while a transaction runs; so is Keccak256 of a code.
--   The journal is a list with the newest entry first, so that its length is the source's index.
--   Reverting an entry of AddLog for a transaction without logs would panic in the source, and
--   changes nothing in the model; AddLog makes no such entry.
--   The cache of codes and the first error of a StateDB are no part of the journal, here as in the
--   source, so that GetCode, GetCodeSize and Error may tell a reverted state from its snapshot.
--   A node of the trie is a tree in which a hash stands for a node that resolveHash, a parameter,
--   gives back; what nodeFlag caches is left out, and a position in a key is what is left of the
--   key behind it. The recursion has two calls for each nibble of the key and two more as fuel: a
--   hash is followed by a node, and each node but a hash takes a nibble.
--   Create and Call of the EVM and applyStakingCall are a parameter of a transition, Machine, which
--   maps a state to a state, an output, the gas left and an error. A transition is the record of its
--   fields, with the gas pool that the source shares by pointer; nil prices are `none`.
--   Iterating objectsDirty in Finalise is independent of the order, and is in that of insertion.
--
-- Not modelled: the reflection layer of rlp, block bodies and receipts, the transaction pool,
-- the hashing of a trie, its commit to the store and its proofs, the commit of a state into its
-- tries, the interpreter of the EVM, the chain, the
-- cryptography, and all input and output (db, node, p2p, rpc, metrics, cmd).
pub mod Base
pub mod Rlp
pub mod Attest
pub mod Staking
pub mod Poa
pub mod State
pub mod Evm
pub mod Trie
pub mod Processor
