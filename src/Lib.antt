-- ===== src/Lib.antt =====
-- A light wallet server for Monero (monero-lws): the parts that keep its accounts and hand them to the scanner.
--
-- How the program works. Scanner threads (src/scanner.cpp) each hold some accounts. A thread fetches blocks, tests
-- every output and input against its accounts, and checks the results in to the database (src/db/). The REST server
-- adds accounts and subaddresses to the database; the scanner hands new accounts to its threads through a queue.
--
-- Db.Data is src/db/data.h and data.cpp: the identifiers with their comparisons, the packed byte of an output and the
-- difficulty in two words. A hash or key is the number whose 32 bytes, most significant first, it has, so `memcmp` is
-- the order of numbers.
--
-- Db.Account is src/db/account.h and account.cpp: `Account` is the class `account`, with a function for each method
-- that reads or changes it; a moved-from account has no `immutable`. `std::sort` and `std::lower_bound` are the
-- functions of Base.Order. `Updates` puts the methods together to sequences of calls.
--
-- Db.Subaddress is the merge of minor index ranges in `do_upsert` of src/db/storage.cpp, with `check_subaddress_dict`
-- of src/db/data.cpp. The four branches of the loop and its limit on the number of subaddresses are modelled with the
-- widths of the source; the loop recurs on the two lists of ranges, of which each round shortens one. `Ranges` has the
-- merge without the limit, which the loop is shown to compute.
--
-- Db.Storage is the part of src/db/storage.cpp that follows the chain: `sync_chain` and `sync_pow`, and the rollback of
-- blocks, accounts, outputs, spends, key images and events, and `get_chain_sync`, which lists hashes for the daemon.
-- LMDB is not under src/: `LmdbTable` has the functions of a table and of its cursor that the code calls, `IsLawful`
-- what LMDB documents of them, in terms of a list of records with a position, and `Memory` tables that are lists. A
-- transaction that fails is undone, so that what it has written before is not shown; the errors of LMDB but
-- `MDB_NOTFOUND` are left out. A loop that deletes has as many rounds as the table has records, which is enough since
-- each round deletes one or leaves an account behind; `unbounded` is what it would end with otherwise. `Rollback`,
-- `Chain` and `Readers` have the functions, the other modules what is shown of them. The checkpoints are a parameter.
-- The offsets of `get_blocks_tail` are cut to an `int` of 32 bits, which the heights do not reach.
--
-- Scanner.Queue is src/rpc/scanner/queue.h and queue.cpp. Every method holds the mutex throughout, so an interleaving of
-- threads is a sequence of calls; a call that blocks is `none`.
--
-- Scanner.Server is src/rpc/scanner/server.cpp, which deals the active accounts to the queues of this process and to
-- the connections of `monero-lws-scanner` processes. Its operations run on one strand, so each is a function on
-- the server's state. `Server` has `do_replace_users` and the handlers, `Check` has `check_users`, which hands new accounts
-- out; its round robin has as much fuel as there are accounts, since each round takes one. The rows of the active accounts,
-- `get_full_account` and the test of the password are parameters.
--
-- Wire.Msgpack is src/wire/msgpack/, the format of the messages between scanners and of some rows. `Write` and `Read` are
-- `msgpack_writer` and `msgpack_reader`, with a function for each method that takes the object and gives it back changed;
-- what a method throws is an `Error`. `Skip` is `skip_value` and `key`. The rounds of `skip_value` are bounded by the
-- bytes that are left, since each takes one at least. `Tokens`, `Passes` and `Trees` are sequences of calls of the writer
-- and what `skip_value` does with them. `remove_prefix` of `epee::span` is a parameter where it may be asked for more
-- bytes than there are.
--
-- Mempool is src/mempool.h and mempool.cpp: `Cache` with `get` and `set` is the class `address_cache`, and `Pool` has the
-- transactions with the snapshot that readers share. `Recent` shows the cache to be a list of the entries that were set
-- last.
--
-- Rest.AddressInfo is the computation of `get_address_info` in src/rest_server.cpp, with `find_metadata` of
-- src/rpc/light_wallet.cpp. The outputs and spends are what the database yields; the constants of Monero and the clock are
-- parameters. Rest.Transactions is `merge_into_txes` of src/rpc/light_wallet.cpp, without the transactions of the pool, which
-- it adds at the end. Its loop recurs on the outputs and the spends, of which each round takes one.
--
-- Util.GammaPicker is src/util/gamma_picker.cpp, the choice of an output for a ring. What it computes with floating point
-- or draws at random is a parameter; the hundred tries are those of the source.
--
-- Util.OwnershipTest is src/util/ownership_test.cpp with src/util/transactions.cpp: whether the inputs and outputs of a transaction
-- are an account's. `Search` and `Run` have the loops of `operator()`, each as a function. Monero's cryptographic functions are the fields
-- of `Crypto`, and the callbacks, with the database behind the subaddress reader, those of `Actions`. A callback
-- returns, so that what it could throw is left out, and an account's public spend key is read once for a transaction, which
-- supposes that no callback assigns another account to it.
--
-- Util.RandomOutputs is the choice of outputs before RingCT in src/util/random_outputs.cpp, with the candidates that its
-- inner loop draws for each entry as a parameter.
--
-- Not modelled: LMDB itself, cryptography, the network and the daemon's messages, which are not under src/; reading and
-- writing of JSON and of floating point; the command line programs. Logging is left out.
pub mod Base
pub mod Db
pub mod Mempool
pub mod Rest
pub mod Scanner
pub mod Util
pub mod Wire
