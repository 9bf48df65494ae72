-- ===== src/Lib.antt =====
-- A Bitcoin node on top of libbitcoinkernel, and what its own code guarantees.
--
-- The program. The binary src/bin/node.rs starts the connection manager (src/net/manager.rs), which
-- runs one thread per peer. Each thread performs the version handshake of crates/p2p, and then hands
-- every message to the state machine of src/net/peer.rs. All threads share one `NodeState`: the
-- chain state, which is the kernel's, and the `DownloadState`, which says what blocks are to be
-- asked for, what is asked for and what waits for its parent. A further thread takes blocks out of
-- that buffer and has the kernel validate them. Peer addresses come from the book of
-- crates/address-book. The wallet of crates/wallet scans each connected block.
--
-- Which file models which part.
-- - Prelude: tests, lists over native numbers, hash sets and hash maps (as lists in an arbitrary
--   order of iteration), little-endian bytes, readers of bytes, signed numbers, text.
-- - Disk: what the source uses of std::fs, on a disk whose operations may fail at any point.
-- - P2p/Message: the message types that the source takes from rust-bitcoin.
-- - P2p/Validation: crates/p2p/src/validation.rs.
-- - P2p/Handshake: crates/p2p/src/handshake.rs (`start_handshake`, `negotiate`), and
--   `ConnectionExt::handshake` of crates/p2p/src/net.rs as a function of all that the peer sends.
-- - P2p/Connection: `MessageRate`, `TimedMessages` and `OutboundPing` of crates/p2p/src/lib.rs, and
--   what `read_message` and `maintain_connection` of crates/p2p/src/net.rs do with them.
-- - P2p/Transport: `V1MessageHeader`, the transports of crates/p2p/src/net.rs and the writing thread
--   (`maintain_connection`), down to the bytes.
-- - Net/Kernel: what the node takes from libbitcoinkernel, as a record of operations.
-- - Net/Download, Net/Locator, Net/Sync, Net/Peer: src/net/peer.rs, from `DownloadState` over
--   `build_block_locators` and `populate_download_queue` to `process_message`.
-- - Net/Session: `BitcoinPeer` of src/net/peer.rs, one peer with its clock.
-- - Net/Swarm: all peers over the shared state, as a step relation.
-- - Net/Blocks: the thread of src/bin/node.rs that has the buffered blocks validated.
-- - Net/Socks5, Net/Proxy: src/net/socks5.rs, its onion addresses and its dialogue.
-- - Net/Manager: src/net/manager.rs, the peer threads over the set of connected peers, and
--   `Destination` of src/net/addr.rs.
-- - Net/Manager/Book: what gossip, feelers and broadcasts do to the address book that all threads
--   share, as a step relation.
-- - AddressBook/Record, AddressBook/Table, AddressBook/Table/Counting: crates/address-book/src/lib.rs.
-- - AddressBook/File: crates/address-book/src/io.rs, and `load` of src/net/addr.rs as a function of
--   what was read. AddressBook/File/OnDisk: `load` and `save` there, on the disk, and `flush_peers`.
-- - Wallet/Scanning, Wallet/Coins: crates/wallet/src/silentpayments/scanning.rs and wallet.rs.
-- - Wallet/Keys: crates/wallet/src/silentpayments/keys_file.rs, and the import of keys of wallet.rs.
-- - Wallet/Store: crates/wallet/src/silentpayments/wallet_store.rs, the bytes of the wallet.
-- - Wallet/Files: `WalletStore` and `save_atomic` of wallet_store.rs, and the saving and loading of keys,
--   on the disk.
-- - Wallet/Sending: crates/wallet/src/silentpayments/sending.rs.
-- - Node/Requests: src/ipc/wallet.rs.
-- - Node/Events: the callbacks, the scan thread and the broadcast thread of src/bin/node.rs, and
--   `FatalShutdown` of src/lib.rs.
-- - Node/Addresses: the first filling of the address book and the address thread of src/bin/node.rs,
--   and the networks of src/ext.rs.
-- - Node/Start: what `main` of src/bin/node.rs makes of its configuration and of the wallet's file.
-- - Node/Reservations: the requests and the threads that change the wallet, as a step relation.
-- - Wizard, Wizard/Choice: src/bin/wizard.rs. Wizard/Shell: how a shell reads the line it prints.
-- - Tests: runs of the definitions, and each theorem at an input that meets its hypotheses.
--
-- Conventions. A hash, a key or a scalar is the number that its bytes spell; octets and text are
-- lists of numbers. `none` is a panic where a file says so. Code that is not the repository's
-- (libbitcoinkernel, rust-bitcoin's encoding, the silentpayments, secp256k1 and bdk_coin_select
-- crates, sha3, Rust's hasher, the clock, floats) is a parameter, with the laws that are relied on
-- as records of hypotheses (`HasAncestors`, `HasParents`, `HasConsensus`, `HasScalarBytes`,
-- `HasKeyBytes`, `HasSelection`, `HasWire`).
--
-- Fuel. The loop of `build_block_locators` gets 101 rounds, the length at which it stops; the walk
-- of `populate_download_queue` gets one round more than the height of its start; the searches of the
-- address table get as many rounds as there are slots or buckets; the groups of five bits that a
-- byte completes get three rounds, and there are two at most. Running out is a value of its own in
-- the walk and the searches, and a panic in the locators' loop.
--
-- Not modelled: locks (what a thread does under one is one step), sockets and time-outs, logging,
-- error texts, permissions of files, the condition variable of the block buffer, the rest of the set-up
-- of src/bin/node.rs, the chain requests of src/ipc/chain.rs, DNS, the raw mode of a terminal,
-- src/bin/cli.rs and src/daemonize.rs.
mod Prelude
pub mod Disk
pub mod P2p
pub mod Net
pub mod AddressBook
pub mod Wallet
pub mod Node
pub mod Wizard
mod Tests
