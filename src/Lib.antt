-- ===== src/Lib.antt =====
-- MUNGE: the authentication service of munged. The encoder makes a credential and armors it as base64;
-- the decoder takes the armor off, unpacks and checks the credential, and asks the replay cache whether
-- it was seen before. Paths are those of the repository.
--
-- Base64 models src/munged/base64.c. `encode_block`, `encode_update`, `encode_final` and `decode_block`,
-- `decode_update`, `decode_final` are the functions base64_encode_block and so on. Characters and bytes
-- are numbers; the destination of the decoder is a buffer of a given size, and a write behind its end
-- has no result. Base64.Bits, Base64.RoundTrip, Base64.Bounds, Base64.Stream and Base64.Ignored hold
-- proofs, Base64.Runs tests and instances.
--
-- Hash models src/munged/hash.c: `Hash` is struct hash, its table a list of chains, and `create`,
-- `find`, `insert`, `remove`, `delete_if`, `for_each`, `reset`, `key_string` are hash_create and so on.
-- Hash.Chain holds the loops over one chain with the interface `Keys` (key_f and cmp_f with the laws of
-- an order) that a client fills; Hash.Nodes counts the nodes of the allocator. Memory may fail wherever
-- the code calls malloc, as an argument says. Hash.Order and Hash.Deletion are about one chain,
-- Hash.View and Hash.Table about the table as a map, Hash.Accounting about operations and the
-- nodes that they take, Hash.Sharing about all tables with the free list that they share,
-- Hash.Text about hash_key_string.
--
-- Replay models src/munged/replay.c over Hash: `replay_insert`, `replay_remove`, `purge`, `init`, `fini`.
-- Replay.Keys is the order of its entries, Replay.Laws what holds of a live cache, Replay.Runs the tests
-- and instances of Hash and Replay.
--
-- Message models struct m_msg, m_msg_reset and m_msg_set_err of src/libcommon/m_msg.c as the
-- credential code uses them, and its children the transport. Message.Wire has _pack, _unpack, _copy and
-- _alloc over lists of fields, Message.Bodies the types of messages with _msg_length and the fields of
-- _msg_pack and _msg_unpack, Message.Transport those functions with `m_msg_send` and `m_msg_recv` over
-- what the socket does. Message.Fields, Message.RoundTrip, Message.Exchange and Message.Errors hold
-- proofs, Message.Runs instances. A failed assertion or a write behind a buffer is the result
-- `undefined` (`overrun` in Message.Wire).
--
-- Cred models struct munge_cred of src/munged/cred.h, the state of a request (`State`), what a stage
-- returns (`Result`), and two records of parameters. `Service` stands for the configuration, gids.c and
-- the wrappers of cipher.c, mac.c and zip.c over libraries; `Call` for the answers of the system: time,
-- auth_recv, random bytes, malloc, and whether the response could be sent. Cred.Sample has one of each
-- for the tests.
--
-- Decode models src/munged/dec.c: Decode.Unpack has dec_unarmor, dec_unpack_outer and dec_unpack_inner,
-- Decode.Checks the other stages under their names without the prefix, and `process_msg` is
-- dec_process_msg. A read behind the end of the data is the result `overrun`. Decode.Cache, Decode.Laws,
-- Decode.Once, Decode.Accepted and Decode.Truncated hold proofs, Decode.Runs tests and instances, with
-- a service that has a checksum for a MAC.
--
-- Encode models src/munged/enc.c: Encode.Pack has enc_pack_outer, enc_pack_inner and enc_armor,
-- Encode.Stages the other stages under their names without the prefix, and `process_msg` is
-- enc_process_msg. Encode.RoundTrip, Encode.Armor, Encode.Outer and Encode.Sealed are about single
-- stages and the decoder's, Encode.Whole, Encode.Ready, Encode.Delivery and Encode.Receipt about all of
-- them, with the promises of the libraries as the record `Sound`; Encode.Laws is about the validation
-- and the responses, Encode.Runs holds instances.
--
-- Zip models src/munged/zip.c over zlib and bzlib as parameters (`Packages`), which may be missing;
-- Zip.RoundTrip holds proofs, with the promise of the libraries as the record `Lossless`, Zip.Runs
-- instances. The estimates of lengths use floating-point numbers in the source and are parameters too.
--
-- Job models src/munged/job.c: `job_exec` is _job_exec over Message.Transport, Encode, Decode and
-- Gids.Update, and Job.Accept the loop of job_accept over Work, turn by turn, where a queued message is
-- the descriptor it is bound to. Job.Handled, Job.Groups and Job.Sockets hold proofs, Job.Runs instances.
--
-- Gids models src/munged/gids.c over Hash and Timer: `gid_add`, `user_to_uid`, `uid_add`, `ghost_add`,
-- `ghost_del` are _gids_gid_add and so on, Gids.Build has _gids_map_create (`map_create`, its pass over
-- the group database as `scan`), Gids.Update the public functions and _gids_map_update, whose parts
-- with and without the mutex are functions of their own. What xgetgrent, xgetpwnam, stat, the clock and
-- malloc answer are arguments. Gids.Keys fills the interface of the hash tables; Gids.Members,
-- Gids.Maps, Gids.Adding, Gids.Users, Gids.Exact, Gids.Scanning, Gids.Creation, Gids.Stale,
-- Gids.Refresh and
-- Gids.Pending hold proofs, Gids.Runs instances.
--
-- Clock models src/munged/clock.c, and Timer src/munged/timer.c: the two lists of timers with
-- `set_absolute`, `set_relative`, `cancel` and `fini`. Timer.Thread is the thread and its callers as a
-- step relation, a step being what is done between taking and releasing the mutex; callbacks are
-- values, and what they do to timers is the steps of callers. Timer.Order, Timer.Dispatch and Timer.Calls
-- hold proofs, Timer.Runs instances.
--
-- Work models src/munged/work.c: the linked queue in a store of elements, `work_queue`, what a worker
-- does before and behind the call of the work function, and the condition on which callers wait.
-- Work.Chains is about the linked queue as a list, Work.Threads has the workers as a step relation,
-- Work.Progress the number of these, Work.Signals adds their sleep and the signals of `received_work`,
-- which may be late; Work.Fair and Work.Waking hold proofs, Work.Runs instances.
--
-- Client models src/libmunge: Client.Ctx is ctx.c, Client.Transfer m_msg_client.c over
-- Message.Transport, Client.Calls munge_encode and munge_decode with their parts, and Client.Enum
-- enum.c. What sockets, files and memory answer in one attempt of a transfer is the record `Attempt`,
-- auth_send.c being one of its fields; a null message that the code uses is the result `undefined`.
-- Client.Options, Client.Failures, Client.Received and Client.Decoding hold proofs, Client.Runs
-- instances.
--
-- Prelude holds what the modules share: tests on numbers, lists with native lengths, bytes.
--
-- Loops are structural recursion on the lists that they run over, so no fuel is needed.
-- Not modelled: mutexes (every function of hash.c and replay.c runs under one, so an operation is one
-- step), logging, the texts of errors, the release of memory, pointers to null as arguments (the types
-- exclude them), the creation and cancellation of threads, and the parts of the daemon and of the
-- clients around these files.
pub mod Base64
pub mod Client
pub mod Clock
pub mod Cred
pub mod Decode
pub mod Encode
pub mod Gids
pub mod Hash
pub mod Job
pub mod Message
pub mod Prelude
pub mod Replay
pub mod Timer
pub mod Work
pub mod Zip
