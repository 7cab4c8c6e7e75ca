-- ===== src/Lib.antt =====
-- endee is a vector database in C++. A server (src/main.cpp) passes requests to an index manager
-- (src/core/ndd.hpp), which gives every user string a number by the identifier map, stores the
-- vector under the number, enters it in an HNSW graph and keeps filters on its fields. A
-- write-ahead log records the numbers that a batch has taken, so that after a crash those of an
-- unfinished batch can be reclaimed. This library models parts of it and how they meet: the
-- identifier map writes the log, which recovery runs again on the graph; an HNSW search marks nodes
-- in a list from the pool and reads vectors by the cache, and adding an element searches the graph
-- and writes its links; filters on numbers keep keys in buckets.
--
-- Wal: src/storage/wal.hpp. The record `Wal` holds the bytes of the file, whether logging is
--   enabled and the count of entries; `open_wal`, `log`, `read_entries`, `clear`, `disable`,
--   `enable` and `has_entries` are the methods. Wal/Parse and Wal/RoundTrip are about reading back
--   what was logged, Wal/State about sequences of calls.
-- IdMapper: src/storage/id_mapper.hpp. The record `Mapper` holds the table and the log.
--   `create_ids_batch` is the method of that name in the order of its transactions, `lookup_ids`,
--   `get_deleted_ids`, `get_next_ids` and `try_write`; `Faults` says which of the first, the third
--   and the last throws. `delete_points`, `reclaim_failed_ids`, `get_id`, `get_count` and
--   `init_next_id` are the others.
--   IdMapper/Keys tells the users' keys from the map's own, IdMapper/Assign and IdMapper/Write are
--   about the stages of a batch, IdMapper/Batch about the whole, IdMapper/Delete about deletion, and
--   IdMapper/Numbers about new and free numbers.
-- Hnsw/Visited: src/hnsw/visited_list_pool.h, with the marks of src/hnsw/hnswalg.h. Visited/Epoch
--   is about one list, Visited/Pool about the searches that share the pool.
-- Hnsw/Cache: src/hnsw/vector_cache.h. Cache/Bits is about its size, Cache/Eviction about the lives
--   of a slot, Cache/Lookup about its use in src/hnsw/hnswalg.h (`getDataByInternalId` and
--   the invalidation in `addPoint`).
-- Hnsw/Graph: the record `Graph` of nodes, links and vectors of src/hnsw/hnswalg.h. Hnsw/Search:
--   `search_base_layer` is searchBaseLayer there; Search/Expand models the neighbours of a node,
--   Search/Loop the loop over the queue. Search/Ends and Search/Returns are about its end,
--   Search/Order about the queues, Search/Sound, Search/Near and Search/Answers about its result.
-- Hnsw/Links, Hnsw/Connect and Hnsw/Remove: how the link lists are written.
--   `get_neighbors_by_heuristic2`, `mutually_connect_new_element` and `remove_all_connections2` are
--   the methods of those names. Connect/Selected and Connect/Diverse are about the heuristic,
--   Connect/Bounds, Connect/Frame and Connect/Closest about the lists after a connection; Remove/Cut
--   and Remove/Gone are about the removed node, Remove/Bounds about the room of the lists.
-- Hnsw/Knn: `search_knn` is searchKnn, which walks down the upper layers (Knn/Walk) and searches layer
--   0 with Hnsw/Search (Knn/Answers).
-- Hnsw/Insert: `add_point_new` and `update_point` are addPoint for a new element and for one that is
--   written again, by the methods above. Insert/Climb is about the walk to the closest node,
--   Insert/Joins about the levels that are connected, Insert/Linked about the links at level 0,
--   Insert/Intact about the order of the index, Insert/Answers, Insert/Update and Insert/First about
--   the whole. A label beyond labelLookup_, which the code does not test, is an outcome of its own.
-- Core/Recovery: `recover_from_wal` is recoverFromWAL of src/core/ndd.hpp, which reads the log by Wal,
--   writes to the graph by Hnsw/Insert and frees numbers by IdMapper; `save_index_internal` is the
--   saving at its end, without the files. Recovery/Safe says on what indexes, Recovery/Answers is about the entries of the log,
--   Recovery/Lost about the log that a crash leaves.
-- Hnsw/Bruteforce: src/hnsw/bruteforce.h. The record `BruteforceSearch` holds the items, their count
--   and the map from labels to places; `add_point` and `remove_point` are its methods, which
--   Bruteforce/Places is about. Bruteforce/Subset models the function searchKnnSubset,
--   Bruteforce/Nearest is about it.
-- Filter/Category: src/filter/category_index.hpp, as functions from one table to the next.
--   Category/Sets is about sequences of them.
-- Filter/Sortable: the keys of numbers in src/filter/numeric_index.hpp, on 32-bit patterns.
-- Filter/Bucket: the record `Bucket` of src/filter/numeric_index.hpp. Bucket/Lookup is about the
--   values it holds, Bucket/Bytes about its serialised form.
-- Filter/Numeric: `NumericIndex` of src/filter/numeric_index.hpp, over the buckets. `put` is
--   put_internal; `remove`, `check_range`, `remove_from_buckets` and `add_to_buckets` are the methods;
--   `find_row` is the search of the cursor for a bucket, `split_index`, `split` and `add_to_full` the
--   part for a full one. Numeric/Range models the method `range`. Numeric/Keys is about the keys,
--   Field about the buckets of a field in their order, Rows, Stored and Writes about the table that
--   holds them, Scan and Collected about range queries, Halves, Cut, Moves and Split about the split,
--   Contents, Removes and Removal about taking an identifier out, Adds, Inserts, Joins, Runs, Changes
--   and Addition about putting one in, Values and Forward about the map of identifiers to numbers,
--   Calls and Agrees about calls for one field. Floor, Mirror, Sims and Views lead a table of many
--   fields back to a table of one, Among and Whole do that for range queries, and Fields is about
--   sequences of calls for any fields.
-- Sparse/Vector: src/sparse/sparse_vector.hpp. `pack` is the method, `unpack` the constructor from
--   bytes; Vector/Half is about the 16-bit floats, Vector/Packing about the bytes.
-- Mdbx and Roaring: what is used of third_party/mdbx and third_party/roaring_bitmap, as records of
--   operations and laws that the models take as a parameter, each with an instance on lists.
--   Mdbx/Cursor is a table with a cursor, whose rows are in the order of their keys; Cursor/Places and
--   Cursor/Joined are about the moves of the cursor, Cursor/Blocks about keys with one prefix.
-- Prelude: names, lists, machine words and bit operations that the modules share.
--
-- Numbers are natural numbers; a conversion to w bits is written out as a remainder. A lock makes
-- the calls it guards steps of their own, so calls in any order stand for threads. A file is the
-- list of its bytes. `read_loop` of Wal has one unit of fuel more than the file has bytes, and each
-- round takes five bytes at least. `normalise` of Sparse/Vector has ten units, since a fraction
-- that is not 0 is shifted ten times at most. `loop` of Hnsw/Search has one unit for every place of
-- the graph, since each round takes a node from the queue that was marked when it came in. The
-- walks of Hnsw/Knn and Hnsw/Insert have one unit for every node and one more, since each round
-- but the last finds a more similar node. In the graph a similarity is its rank, with 0 for the
-- lowest. Every node of the graph has a list at every level; where a node lacks the level, the code
-- takes what memory lies behind its block for the list, and a write there changes more than the model
-- says. Of two pairs of equal similarity the one that came last is first in a queue, where the
-- standard library leaves the order open.
--
-- Not modelled: writing errors of streams, memory accounting, and logging to the console;
-- the files of src/hnsw/hnswalg.h, `searchKnn` and the files of src/hnsw/bruteforce.h,
-- numeric fields with a colon in their names, `scan_values` of the category index,
-- src/filter/filter.hpp, the inverted index and the storage of src/sparse, the rest of
-- src/core/ndd.hpp, src/storage/vector_storage.hpp, src/storage/index_meta.hpp and
-- src/storage/backup_store.hpp, which are separate components; src/quant, whose kernels are
-- floating-point vector instructions; the HTTP routes of src/main.cpp; third_party and SemanticBI,
-- which are other programs.
pub mod Prelude
pub mod Roaring
pub mod Mdbx
pub mod Wal
pub mod IdMapper
pub mod Hnsw
pub mod Core
pub mod Filter
pub mod Sparse
