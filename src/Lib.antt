-- ===== src/Lib.antt =====
-- The voting relayer and the browser's zero-knowledge helpers of zkvote: an anonymous voting system on
-- Soroban contracts. A browser computes a Merkle path and a Groth16 proof and sends them to a relayer,
-- which validates the request, encodes it as contract values, simulates the call, sends the transaction
-- and waits for it. Beside that the relayer copies contract events, DAOs and members into its tables.
--
-- Hex, Stellar: backend/src/services/stellar.ts (u256ToScVal, scValToU256Hex, hexToBytes, proofToScVal)
-- and the constants of backend/src/config.ts. A string is the list of its code units, a buffer the list
-- of its bytes, a thrown error its message (Result).
-- Validation: the field validators of backend/src/validation/schemas.ts. Zod's own type tests are not
-- modelled: a body that lacks them is no value of the request type.
-- Relay: what the routes share: callWithTimeout, waitForTransaction, simulateWithBackoff of
-- services/stellar.ts, and the sequence from getAccount to the end of the wait, which the routes repeat
-- with their own labels and answers. Relay/Vote is POST /vote (backend/src/routes/voting.ts) with
-- validateBody, Relay/Comments the routes of backend/src/routes/comments.ts that submit or read a nonce,
-- Relay/Comments/Changes those that edit and delete, Relay/Listing those that read comments,
-- Relay/Guards backend/src/middleware/auth.ts and csrf.ts. A promise is what it settles with and after
-- how many milliseconds; the answers of the RPC server to one request are a parameter. The loops have
-- 30 and 3 rounds in the source, and recur on that number.
-- Db, Db/Events, Db/Daos: the tables and statements of backend/src/services/db.ts as functions from
-- tables to tables. SQLite is not modelled beyond what the statements say: UNIQUE with NULLs apart,
-- NOT NULL, OR IGNORE, ON CONFLICT, ORDER BY, LIMIT and OFFSET. The order in which a query of events scans
-- the rows is a parameter, so that ties are open. Times are milliseconds. Db/Durable is about all statements.
-- Indexer, Indexer/Service: backend/src/services/indexer.ts. An event carries what the SDK reads from it.
-- Indexer/Routes: backend/src/routes/indexer.ts; ParseInt: JavaScript's `parseInt`, exact up to 2 ^ 53, on the
-- texts of a query. What `Number` makes of a text is a parameter.
-- Sync: backend/src/services/sync.ts, and the role of GET /daos (backend/src/routes/daos.ts). The loop
-- over the pages of members has fuel; one round for each 50 members and one more is enough.
-- Zkproof, Merkle: frontend/src/lib/zkproof.ts and merkletree.ts. Poseidon is a parameter.
-- Ipfs: backend/src/services/ipfs.ts and routes/ipfs.ts: the CID test, fetching, and GET /ipfs/:cid with its
-- cache. The network and Pinata's signed links are a parameter.
-- Ballot: handleVote of frontend/src/components/VoteModal.tsx, from the stored registration to the body;
-- Ballot/Casting goes on from there to the last step.
-- It uses Browser (credentials in localStorage: frontend/src/lib/zk.ts, with lib/cache.ts and the anonymous
-- comments of lib/comments.ts), Zkproof, and Client (frontend/src/lib/api.ts: retries and backoff), and posts
-- the request type of Relay/Vote. The wallet, the contracts that are read, snarkjs, Poseidon, SHA-256 and
-- what each attempt to reach the relayer brings are parameters; the rounds of a request recur on the
-- number of attempts. A JSON text in localStorage stands as what it was made from.
-- Commenting: handleSubmit of frontend/src/components/CommentForm.tsx, with uploadCommentContent of
-- lib/comments.ts: Commenting/Anonymous is the branch for an anonymous comment, Commenting/Form the
-- handler. It shares the wallet, the contracts and snarkjs with Ballot, and posts the request type of
-- Relay/Comments.
-- Registering: handleRegisterForVoting and checkRegistrationStatus of frontend/src/components/DAODashboard.tsx
-- and handleRegisterForVoting of ProposalPage.tsx, with lib/utils.ts; what they store Ballot and
-- Commenting use. Registering/Dashboard and Registering/Page are the two files' handlers.
-- Wallet: frontend/src/hooks/useWallet.ts, with the answers of the wallet as steps of their own.
-- Thread: frontend/src/components/Comment.tsx on what Relay/Listing answers. A comment is what scValToNative
-- makes of the contract's value.
-- Discussion: buildCommentTree of frontend/src/lib/comments.ts. The shared objects are entries of a map by
-- id, and replies are ids.
-- Slug: the paths with an id and a slug of frontend/src/lib/utils.ts. Relay/Reads: the two GET routes of
-- routes/voting.ts.
-- Decimal: numbers as template literals write them. Prelude: the shared tests, list lemmas and the
-- stable sort. Examples: the theorems at concrete inputs.
--
-- Not modelled: logging, rate limits, Express, the SDK's building and signing of transactions, timers,
-- uploads to IPFS and the sanitisation of metadata, the other React views and the generated contract
-- clients, and the contracts and circuits, which are in other languages.
-- An id in a body of the indexer's routes that is negative or has a fraction is not modelled, nor what the SDK's
-- errors say.
pub mod ParseInt
pub mod Prelude
pub mod Db
pub mod Hex
pub mod Indexer
pub mod Merkle
pub mod Validation
pub mod Zkproof
pub mod Wallet
pub mod Thread
pub mod Stellar
pub mod Registering
pub mod Relay
pub mod Sync
pub mod Examples
pub mod Ipfs
pub mod Discussion
pub mod Decimal
pub mod Ballot
pub mod Browser
pub mod Client
pub mod Commenting
pub mod Slug
