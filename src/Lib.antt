-- ===== src/Lib.antt =====
-- A model of chiasim, a simulator of a ledger with coins, and the theorems about it.
--
-- A block is a header, which names the block before it, a proof of space and a body by their
-- hashes, and a body, whose program returns the coins that are spent, each with the puzzle that
-- locks it and a solution. A puzzle that is run on its solution returns conditions: coins to
-- create, signatures that are wanted, and facts about the block. `accept_new_block` decides whether
-- a block extends a chain view, and `augment_chain_view` writes what it changed to the databases.
--
-- Atoms models chiasim/atoms: a type streams and parses itself, which is a `Codec`, built field by
-- field as the decorator `streamable` does it; integers of a fixed width, sized bytes, lists with a
-- 16-bit count, and hash pointers.
-- Hashable models chiasim/hashable: Coin.antt is Coin.py, and so on; Eor.antt is Signature.py,
-- Message.antt the pair of a key and a message hash, and Blocks.antt is Body.py, Header.py and
-- ProofOfSpace.py.
-- Storage models chiasim/storage: RamDb.antt is RAM_DB.py and RAMUnspentDB.py, Overlay.antt the two
-- overlays. Heap.antt has the databases as objects that references name, since a ledger passes one
-- object both as its storage and as its unspent database.
-- Validation models chiasim/validation: Conditions.antt, CheckConditions.antt and Consensus.antt
-- are the files of those names. chainview.py is NamePuzzleConditions.antt
-- (name_puzzle_conditions_list), AcceptBlock.antt (accept_new_block, one definition for each of its
-- stages), HeaderSignature.antt (check_header_signature, check_tip_signature) and ChainView.antt
-- (ChainView, augment_chain_view, apply_deltas). AcceptBlock/Counter, Parts, Spent, Exact and Rules
-- hold the proofs about accept_new_block, from its stages to the whole; Breaks has the rules that a
-- block can break, Raises and Refused what is raised then; and Marked and Again are
-- about a block that was tried before.
-- Wallet/Deltas models chiasim/wallet/deltas.py and the additions and fees of a spend bundle.
-- Farming models chiasim/farming: a body from a bundle, and the farmer's signature of a header.
-- Pool has the coinbase coins of chiasim/pool and the table of keys that signs them.
-- Wallet/BlsPrivateKey and Wallet/Keychain are BLSPrivateKey.py and keychain.py. Puzzles models
-- chiasim/puzzles, with the compiled programs as parameters, and Keys models chiasim/hack/keys.py.
-- Ledger models chiasim/ledger/ledger_api.py: Ledger.antt has the state of a LedgerAPI and its
-- calls, Farm.antt the block that a call farms, Clock.antt its timestamp, which goes through a float
-- of 53 bits, and Listing.antt the walks from the tip to older
-- blocks. A call takes the ledger and the heap of databases and returns its result, or what it
-- raises, with both afterwards; calls that change the ledger hold a lock or do not wait, and the
-- storage answers at once, so that they run one after another. Sound, Keeps, Extends, Genesis,
-- Invariant, Reach, Attempt and Calls hold the proofs, from what is written to a database to the
-- ledgers that any calls lead to; Returns and Live have what a call needs to return. Api.antt has
-- the methods as a server calls them, by their names and with the keywords of a message, and what
-- they answer as values of a message.
-- Cmds is run_ledger_api of chiasim/cmds/ledger_sim.py, the ledger behind the server, and Clients
-- is chiasim/clients/ledger_sim.py with the end of invoke_remote, what a client makes of an answer.
-- Remote models chiasim/remote and utils/cbor_messages.py: Streamable.antt and Frames.antt are the
-- messages of a stream, Server.antt is api_server.py with one worker and an API as a parameter, where
-- a parameter of three values says what aiter's map_aiter does with an exception,
-- Client.antt is client.py up to the message that is written and the future that a call waits for, Decorators.antt is
-- api_decorators.py, and Writer.antt is the end of api_server, which writes the responses.
-- Errors models ConsensusError.py: code that may raise returns a `Res`, with Python's own
-- exceptions beside the program's. Prelude has what all share: bytes as lists of numbers,
-- dictionaries as association lists in the order of insertion, integers over the native numbers,
-- exclusive or.
-- Tests has a concrete block and the theorems applied to concrete inputs.
--
-- What comes from outside the repository is one record of parameters, Externals: breakpoint(), which
-- returns or raises as the debugger does, hashlib, blspy's signatures, and clvm's s-expressions, casts, evaluator and streams. What a theorem needs of them
-- is a hypothesis: IntsReadBack (the casts of integers are inverse), ReadsBack (a streamed program
-- is read back), BlsSizes (the sizes of keys and signatures), BlsWorks (blspy reads back what it
-- serializes, and verifies an aggregate of signatures), ListsWork (how clvm makes, reads and quotes
-- lists) and IsSha256 (which hash blspy's is). A result of run_program is taken as a value or an
-- exception.
--
-- Awaits are calls, since one block is handled at a time. A cast of a field to its type stands
-- where the code makes it. Three loops run on fuel: the two walks of Ledger/Listing, for which the
-- number of blocks is enough, and the reader of Remote/Frames, for which the number of bytes and
-- one more is. The count of bits in Ledger/Clock runs on fuel too: the number itself is enough, since
-- each round halves it. The other loops run over lists or generators that end. The objects that
-- exceptions carry are left out.
--
-- Not modelled: hexbytes, load_clvm, the proxy object, several workers of a server, the sockets and
-- logs of chiasim/utils, and the command lines. They are input and output, texts, or glue. The
-- texts of responses are left out. Behind the server, the two listings of blocks stand for what
-- they return, and are parameters there. A future that its caller has dropped stays in a client's
-- dictionary of the model, and no theorem is about such a future. cbor is a parameter of
-- Remote/Frames: its theorem asks that what it dumps is loaded back.
pub mod Prelude
pub mod Errors
pub mod Externals
pub mod Atoms
pub mod Hashable
pub mod Storage
pub mod Validation
pub mod Wallet
pub mod Farming
pub mod Pool
pub mod Puzzles
pub mod Keys
pub mod Ledger
pub mod Cmds
pub mod Clients
pub mod Remote
pub mod Tests
