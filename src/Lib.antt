-- ===== src/Lib.antt =====
-- kalvora.js: the TypeScript SDK of the Kalvora network. It builds, prices, signs and sends the
-- network's transactions, and moves tokens between Kalvora and Solana with the approval of guardians.
--
-- The parts that are modelled, each with the file that it follows:
-- * Bytes (src/shared/utils/byte-utils.ts): hexadecimal text, integers of fixed width, concatenation,
--   comparison and padding of byte arrays. A Uint8Array is a list of numbers, an integer written to
--   it is taken modulo the width. Bytes/Ints, Bytes/Arrays and Bytes/Hex hold the proofs.
-- * ContractId (src/protocol/contract-id.ts): the preimages that contract identifiers are hashes of,
--   as the list of parts that the source pushes, and their checksummed Base58 form. BLAKE3 and Base58
--   are the parameter Primitives; what is used of them is the record Documented of
--   ContractId/Canonical, an instance of which stands in ContractId/Examples. Codes and Fields have
--   the lemmas on a part, Preimage and Domains those on a whole preimage.
-- * Proposal (src/proposal/shape.ts, src/proposal/governance.ts): what a governance proposal may hold
--   (assertGovernanceProposalShape), the stage surcharge (applyProposalStageFee) and the adaptive
--   window (assertAdaptiveWindow). The map to lower case is a parameter; a Date is its time in
--   milliseconds.
-- * Bridge (src/smart-contracts/use-cases/bridge/guardian/vaa.ts): Dedup is deduplicateVAA, Retry is
--   fetchWithRetry, Payload has the messages and the two fetches, Solana is submitVAAToSolana, Kalvora
--   is submitVAAToKalvora. Code that awaits other components is a function of the list of calls made
--   so far (Bridge/Run); the answers are a parameter that may depend on that list. An asynchronous
--   call that is rejected is an error answer. The seconds of a timestamp are a natural number.
-- * Fees (src/shared/fee-calculators/universal-fee-calculator.ts): the percentage fee of
--   calculateContractFee, before the overestimate.
-- * Coin (src/coin-txn/transaction.ts): processUnsignedInputs, processOutputs, the checks, and
--   buildCoinTXN up to the transaction that the fees are calculated for (Coin/Build), without the base
--   and its time stamp. What they call of other components is the parameter Services, and the decimal
--   numbers of the balance check are the parameter Decimals; that the network answers one nonce for
--   each address is a hypothesis, and an amount is passed on to the conversion as it is.
-- * MintId (src/shared/network/constants.ts): isKalvoraMintId; the pattern of bridged identifiers is
--   a function that takes the longest runs, and MintId/Bridged shows which texts it matches.
-- * Validation (src/shared/utils/validation.ts): every validator. A value of unknown type is a Value
--   (Js/Value), where a number is the text that its toString gives. The decimal package is the
--   parameter Decimals, the map to lower case a function.
-- * Keys (src/shared/crypto/address-utils.ts, createHashChain of src/wallet-creation/hash-utils.ts,
--   isValidWalletPublicKey of src/adapter/wallet-adapter.ts): the address, the key type, the hashes and
--   the bytes of a public key identifier. Base58, the hash functions and the UTF-8 decoder are the
--   parameter Crypto. The loop that reads the hashes runs on the length of the text as its fuel: each
--   turn takes a letter off.
-- * Wallet (src/adapter/wallet-adapter.ts, src/adapter/wallet-signer.ts): Tab is the adapter with the
--   page's address, the stored items and what has been emitted, sent and asked for. Session has the
--   methods, Callback the page that a wallet app has sent the user back to and the constructor,
--   Events the messages of other tabs and the events of the provider, Signing and Signature the
--   requests to sign by redirect. What the browser answers is the argument Browser, and
--   decodeURIComponent is a parameter. A method that awaits the provider is two steps, a handler of
--   the page's own and a timer run after the step that caused them, and Run is the relation of all
--   steps in any order. Requests, Handoff and Consistent hold the proofs.
--
-- * Hd (src/wallet-creation/crypto-core.ts, hd-utils.ts, shared.ts, wallet-factory.ts and
--   validateSLIP0010Path of constants.ts there): Hd has the derivation of nodes and the paths,
--   Hd/Factory createWallet and deriveMultipleWallets. The packages are the parameter Curves. The array
--   of hash types is passed on as each function leaves it. A number is whole and exact; the parts of
--   deriveMultipleWallets that follow its waits run in the order of the accounts.
-- * Decoders (src/query/decoders.ts): unsigned numbers, quotients in decimal and decodeContractSupply;
--   Decoders/Block the transactions, the results and the summary of a block, whose types are numbers.
--   An offset is the list of the bytes from it on, and a number of a varint is exact. The loop runs on
--   the number of bytes as its fuel: each turn takes two at least. Decoders/Varint and Decoders/Supply
--   hold the wire format that the proofs compare it with.
--
-- They meet so: the address that a wallet adapter holds is what Keys derives from its key, and what a
-- new wallet's identifier is read with; validation and MintId call the identifiers of
-- ContractId, whose preimages use the byte arrays;
-- a submission takes the payload that a fetch returned, whose signatures Dedup has reduced.
--
-- Common has the shared names, tests, lists, results and integers; Js the functions of the JavaScript
-- library that the source calls, on a string as its list of UTF-16 code units.
--
-- The one loop without a bound in the source is fetchWithRetry: it runs on fuel, one unit a round.
-- With attempts that take a millisecond or more, the limit in milliseconds plus two is enough.
--
-- Not modelled: the other fees and the overestimate, the rest of coin transfers, the standard
-- transaction builder, the injected provider's signer, queries beside the decoders, and the Solana
-- transaction builders. Logging has no effect on what is modelled and is left out, as are the texts of error messages: an error is a constructor that says which
-- check failed.
pub mod Common
pub mod Js
pub mod Bytes
pub mod ContractId
pub mod MintId
pub mod Validation
pub mod Proposal
pub mod Bridge
pub mod Keys
pub mod Wallet
pub mod Hd
pub mod Decoders
pub mod Fees
pub mod Coin
