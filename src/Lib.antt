-- ===== src/Lib.antt =====
-- A verification library for the demo and the deployment tool of the CKB crypto-agile account.
--
-- The program. tools/deploy publishes the release binaries as code cells of the CKB testnet and
-- creates accounts: a state cell and an asset cell behind AccountLock, bound to one identity. The
-- demo (demo/src) lets a passkey spend the asset of such an account: it validates the manifests that
-- tools/deploy wrote, finds the two cells on the chain, builds a transaction, has the passkey sign
-- its digest and puts the proof in the first witness, which the contracts parse on the chain.
--
-- The modules, and the files that they model.
--   Common: what the modules share: Boolean tests on numbers, lists, results, texts.
--   Failure: demo/src/server/errors.ts and the JavaScript errors, as values.
--   Bytes: demo/src/shared/bytes.ts (bytesFromHex is bytes_from_hex, and so on for every name).
--   Protocol: demo/src/shared/protocol.ts. Ckb is what it takes of `@ckb-ccc/core`.
--   OnChain: the parsers that read what Protocol writes: le_u16 to checked_end,
--     parse_witness_header and parse_proofs of crates/protocol/src/wire.rs, and take, take_u16 and
--     parse_proof of contracts/verifier-p256/src/main.rs. Exit codes and the loop's mutable offset
--     are explicit.
--   Ccc: the shapes of scripts, cells and transactions, and the functions of `@ckb-ccc/core` that
--     the other files call, as a parameter.
--   Json: what JSON.parse answers, and the regular expressions.
--   Deploy.Account: tools/deploy/src/account.ts.
--   Deploy.Artifacts, Deploy.Plan: tools/deploy/src/artifacts.ts and tools/deploy/src/plan.ts.
--     Host is the file system.
--   Deploy.Args, Deploy.Manifest: tools/deploy/src/deployment.ts. Publishing a cell is the caller's
--     step on a state of the world.
--   Deploy.Bootstrap: bootstrapAccount of tools/deploy/src/bootstrap-lib.ts. World holds the two
--     files and the transactions sent, Network is the wallet and the node. The wallet's functions
--     answer the transaction that they leave behind.
--   Deploy.AtomicFile: writeJsonAtomicFile of the same file. Faults tells which system calls fail, and
--     Disk keeps what a reader could meet behind each call.
--   Deploy.Publisher: tools/deploy/src/deploy.ts. Wallet is the signer and its client.
--   Deploy.Command: tools/deploy/src/bootstrap.ts, and formatCkb of plan.ts.
--   Decimal: toString of a bigint.
--   Demo.Constants, Demo.Schemas, Demo.Manifests: constants.ts, schemas.ts and manifests.ts of
--     demo/src/shared. Parsers is zod, which answers only what passes the tests of Schemas.
--   Demo.State, Demo.Discover, Demo.Spend, Demo.Finalize: demo/src/client/chain.ts. SpendClient is
--     the chain's client; a scan of its indexer is the list of its steps, each a cell or an error.
--   Demo.Service: parseAccount, verifyDeployment, bootstrapOnce and the guard of bootstrap of
--     demo/src/server/service.ts. ServiceDeps is DemoServiceDeps on the states of a world, which only
--     an export and a creation change. Flight numbers the promises, and settles them at any later step.
--   Demo.Status: the operations of that service for requests one behind the other, and
--     createDemoService.
--   Demo.Config, Demo.Server: config.ts and index.ts of demo/src/server. Server puts the service over
--     Deploy.Bootstrap and Demo.Exporter; ServerWorld holds the files of deploy/ with the chain, and
--     beside them what the exporter works on, its temporary files among it.
--   Demo.Exporter: demo/src/server/state-exporter.ts. ExporterDeps are steps on a world.
--   Demo.Response, Demo.Http: demo/src/server/http.ts. Platform is what it takes of Node.
--   Demo.Api: demo/src/client/api.ts. Api.Carried has the proxy of demo/vite.config.ts carry a call to
--     Demo.Http.
--   Demo.Base64, Demo.Passkeys: demo/src/client/passkey.ts, and the base64url of chain.ts.
--     Credentials and Crypto are the browser's.
--   Demo.Wizard: reconcile and withReceipt of demo/src/client/App.tsx.
--   Demo.Storage: demo/src/client/storage.ts, on what is stored under its key.
--   Tests: stand-ins for the parameters, and the theorems run on concrete inputs.
-- The proofs stand in the children of these modules, by what they prove.
--
-- Representation. A Uint8Array and a string are lists of numbers: bytes and character codes. A
-- JavaScript number is a natural one or one that the program's integer tests refuse, a bigint of
-- either sign is an integer, and amounts and lengths are natural numbers. An exception is the error
-- of a result; messages with interpolated values keep their fixed part. Awaited calls are functions
-- on explicit state or parameters, in the order of the code. A Rust length is a natural number: the
-- inputs are far from the range in which an addition of two would overflow.
--
-- Termination. All loops are structural recursions, on lists or on the number of proofs that a
-- header states. Only decimal and grouped_onto take fuel, each of them one more than the number that
-- it prints: a number has fewer digits, and fewer groups of digits, than that, and one that was cut
-- short would not read back in Decimal and Deploy.Command.Amount.
--
-- Not modelled: verifications of the deployment that run at the same time, the start of the server
-- (listening, printing, spawning the exporter's process), the other functions of the user interface,
-- tests and scripts, and the Rust code beside the parsers. In bootstrapAccount a failing write of the
-- account's manifest is not modelled, nor is text that a command prints; the amount of a receipt is a number. The calls of a
-- page are carried to the server one at a time.
pub mod Bytes
pub mod Ccc
pub mod Common
pub mod Decimal
pub mod Demo
pub mod Deploy
pub mod Failure
pub mod Json
pub mod OnChain
pub mod Protocol
pub mod Tests
