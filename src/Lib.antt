-- ===== src/Lib.antt =====
-- p2p-storage: a peer-to-peer file store. A node keeps files on its disk, encrypted in chunks,
-- under a key; it sends a file to a peer over a transfer stream, and it passes a request for a file
-- it does not have on to its peers, a limited number of hops far. A rate limiter stands before the
-- handler of the requests.
--
-- The files below are named for the parts of the program, with paths from the repository's root:
--
-- Base: the lists, dictionaries, integers and byte orders that the parts share. A Go map is an
-- association list, in whose order `range` visits it. A string is its bytes where the code takes it
-- apart, and a text where it is only compared. A clock is a natural number of nanoseconds that each
-- call takes as an argument.
--
-- Store.Encryption: internal/store/encryption.go. Writer has encryptingWriter with Write,
-- writeChunk and Close (write, write_chunk, close; write_chunks is the loop in Write) and the copy
-- into it, encrypt_file. Reader has decryptingReader with Read and readNextChunk (read,
-- read_next_chunk) and the copy out of it, decrypt_file. AES-GCM is the record Gcm: the operations
-- and what crypto/cipher documents of them. The random source and the writes to the file are
-- functions of the number of the call. write_chunks runs on the length of the buffer, since every
-- round takes a chunk off it; copy_out runs on the length of the file and two, since every round
-- takes a byte off the file or the buffer; that this is enough is a theorem of
-- Store.Encryption.Total.
--
-- Store.Paths, Store.Disk and Store.Files: internal/store/store.go. Disk is the part of package os
-- that the store calls, over files and directories by path; a file stands in the way of a directory
-- and the other way round, and which calls the system refuses besides is a parameter. Files has
-- NewStore, Clear, Has, Delete, Read, Write, ReadRaw and WriteRaw under their names.
--
-- FileServer.Seen: internal/fileserver/seenmsgs.go, See and cleanup. FileServer.Selector:
-- internal/fileserver/peerselector.go. FileServer.Transfer: internal/fileserver/transfer.go, the
-- bytes that SendFile writes (send_file) and handleIncomingStream. FileServer.Messages:
-- handleMessage and handleStoreFileMessage of internal/fileserver/fileserver.go and processGet of
-- internal/fileserver/get.go. FileServer.Sending: StoreFileToPeer, StoreFileToPeerDirect,
-- StoreFileToNetwork and StoreFile of fileserver.go, and deliverToRequester of get.go. They use the
-- store, the seen ids and the selector as the code does.
--
-- FileServer.Transfer.Pending and FileServer.Transfer.Progress: the pending transfers and
-- progressTrackingReader of transfer.go. FileServer.Exchange.Success and FileServer.Exchange.Get:
-- an exchange in which nothing fails.
--
-- FileServer.Waiters: RegisterTransferWaiter and notifyTransferComplete of fileserver.go, with the
-- channels on a heap.
--
-- FileServer.Peers and FileServer.Connecting: the registration of peers and the ways to a
-- connection of fileserver.go. A loop that waits is a recursion over what it sees whenever it wakes
-- up, and has an outcome of its own for still waiting.
--
-- FileServer.Exchange: one node's StoreFileToPeer with another node in the place of the network:
-- the receiver's handleStream with its slots and the largest size of a message, the rate limiter,
-- the handler of the request, and the transfer. Messages are JSON, and Link has what lies between
-- the nodes: whether streams open, connections, and the ids of peers. What the rate limiter notes
-- of the request is not followed further.
--
-- EventBus: internal/event/event.go. A channel is an entry of a heap. Subscribe, Unsubscribe and
-- Publish are run by goroutines (step): a publisher sends to one channel after the other and holds
-- the read lock in between, so that Subscribe and Unsubscribe wait.
--
-- Protocol: internal/protocol/protocol.go, handleStream, Send and SendOneWay. A stream is the bytes
-- written to it, and JSON is the record Codec; step is the handlers that run at the same time.
--
-- Operations: pkg/operations, GetFileKey, StoreLocally, SendFile, WaitForPeers and WaitForGet. The
-- user's files and SHA-256 are the record Local.
--
-- Discovery.Bootstrap: internal/discovery/bootstrap.go. Its loop runs on the number of attempts
-- that are left. Discovery.Manager: internal/discovery/manager.go. Discovery.Dht and
-- Discovery.Lifecycle: internal/discovery/dht.go and mdns.go. What the network does is a parameter
-- of each.
--
-- Middleware.RateLimit: internal/middleware/ratelimit.go and config.go. Middleware.Limiter:
-- internal/middleware/backpressure.go.
--
-- Config: internal/config/config.go, Load with the overrides of the command line (load, override)
-- and the conversion of the sections. Config.Conversion: the node's part of that conversion. Node:
-- internal/node. Identity has LoadOrCreateIdentity, Host has NewNode, whose libp2p options are data
-- in the order of the code. FileServer.Server: NewFileServer and Start of fileserver.go, with
-- StartServer of pkg/operations/server.go, on the store, the node and the discovery manager of the
-- other parts.
--
-- Network: internal/network. Scores has PeerScorer over the record Float, which stands for float64,
-- and reads a clock by the number of the reading; Manager has the connections to discovered peers.
-- Observability: internal/observability, the logger and the metrics.
--
-- Command: cmd/node/main.go, the get command (run_get, with its loop get_loop and WriteFileTo), the
-- receive command (receive_loop, with StartReceiveSession) and the daemon (daemon_loop, with
-- StartDaemon). A loop is a recursion over what it wakes up for. What a progress bar makes of its
-- calls is the library's and not modelled.
--
-- Tests: the theorems applied to small data.
--
-- Outside the event bus locks are not modelled: each operation under a lock is one step. Not
-- modelled are what libp2p does with the options of a host, the start of mDNS, the flags and the
-- output of the other commands, and the encoding of log entries.
pub mod Base
pub mod Store
pub mod Middleware
pub mod FileServer
pub mod Network
pub mod Node
pub mod Observability
pub mod EventBus
pub mod Discovery
pub mod Protocol
pub mod Operations
pub mod Config
pub mod Command
pub mod Tests
