-- ===== src/Lib.antt =====
-- csearch: the index files of a small search engine (tool.c), modelled and verified.
--
-- tool.c crawls pages, turns them into words, and keeps what it finds in two kinds of files: index
-- files of (term, doc) tuples, in compressed blocks, and files of documents with their terms. Blocks
-- are compressed by the delta codec of streamvbytedelta.c. A second version of the files and the merge
-- is written in C++. Beside these stand parts that they do not use: the plain codec of streamvbyte.c,
-- the linked chunks of chunk.c, the writers of iw.c and index_writer.c and the ring of buf_ring.c.
--
-- What models what:
--
-- - Common: numbers, lists with native indices, 32-bit words, bits, and the outcome of C code. An
--   Outcome is `ok`, or a fault where the C code leaves an allocated block or an `assert` fails.
-- - StreamVByte (streamvbytedelta.c): `encode_loop` and `decode_loop` are the scalar loops,
--   `encode_data` and `decode_data` the helpers `_encode_data` and `_decode_data`. A pointer that is
--   written is the list of bytes written, one that is read the list of bytes from it on. `delta_decode`
--   is the decoder without its vector half. Avx is the whole streamvbyte_delta_decode: `decode_avx`,
--   `write_avx_d1` and `write_16bit_avx_d1` on vectors, `avx_block` and `avx_loop` for 32 values at a
--   time, and the two tables. A load checks that its 16 bytes are there.
-- - Simd: the SSE intrinsics, as Intel documents them. A vector is its bytes.
-- - PlainVByte (streamvbyte.c): the codec without differences. `decode` is its decoder with the
--   scalar loop alone, `streamvbyte_decode` of Avx the whole of it.
-- - Runtime: the codec as tool.c sees it, an interface with the behaviour that streamvbytedelta.h
--   documents, and the content of memory that nobody has written, which is any number. The
--   modules of tool.c take it as a parameter, and `stream_vbyte` fills it by the encoder of
--   StreamVByte and the whole decoder of its Avx. From 32 values on that decoder loads up to 12 bytes
--   behind the data, so that a block of four bytes a value must leave as many unused (Chunk/Codec's
--   Slack).
-- - Stdio: binary streams of the C library. A FILE is the bytes left to read and the bytes written;
--   writes do not fail, since tool.c ignores their results.
-- - Chunk (chunk_t of tool.c): chunk_resize, chunk_push, chunk_get, chunk_compress,
--   chunk_decompress, read_block. The list `buffer` is the allocated block, of `cap` cells.
-- - IFile (ifile_t of tool.c): ifile_real_read, ifile_real_write, ifile_read, ifile_write,
--   ifile_flush. The C results 0 and -1 are `done` and `failed`; headers are bytes in the file, lowest
--   byte first as on x86.
-- - Forward (forward_t and iforward_t of tool.c): forward_push_term, iforward_read, iforward_write.
-- - Merge (merge of tool.c): read_first is the loop that reads the first tuples, search_place the
--   binary search, merge_round and merge_loop the main loop. Queues says what the loop does on tuples
--   alone. What qsort does to the words of the first struct, which it gets by mistake, is a parameter;
--   that an array of one element stays as it is, is a hypothesis.
-- - Buff (buff_t of tool.c): nearest_power, buff_grow, buff_cat, buff_catn. A string is its bytes
--   without the final 0, a null pointer is `none`.
-- - Page (crawl_parse_t of tool.c): crawl_parse_real over Node, which has of a GumboNode what that
--   function reads; parse_children is its loop.
-- - Fetch (crawl_fetch_t of tool.c): crawl_fetch_fetch over an interface of libcurl that hands the
--   pieces of a page to crawl_fetch_data, and crawl_parse_parse over gumbo_parse as a parameter.
-- - Tokenizer (tokenizer_t of tool.c): tokenizer_next over an interface of ICU. `again` is the code
--   from the label on and at_break what follows on ubrk_next; all_words is the loop of fetchtest.
-- - Tool (the C++ version, namespace tool, which CMakeLists.txt builds): Chunks is chunk.h, Documents
--   document.h and idocument.cc, Index ifile.cc, with `save` for the loop of test in tool.cc, Sorts
--   merge.cc and dsort.cc, over what these share. Stream is std::fstream with its flag eofbit. A
--   vector is its values; std::sort is a parameter. The main loop gets a bound on its
--   rounds, which the theorems leave open.
-- - Linked (chunk.c): a chunk_t with its union as Cells, chunk_push by doubling, and chunk_list_push
--   over an interface of list.h, whose lists are the objects in order.
-- - PairWriter (iw.c): index_writer_write, with the compression of libvbyte and the callback as
--   parameters. `kv_data` is the field data; what kvec holds is a list.
-- - RunWriter (index_writer.c): index_writer_write and index_writer_write2, over an interface of writev
--   and libvbyte.
-- - Ring (buf_ring.h and buf_ring.c): the ring of pointers. The operations of a single consumer are
--   functions. Enqueue and Dequeue are buf_ring_enqueue and buf_ring_dequeue_mc, one access to the
--   ring a step, and Producer and Consumer say where in its code a thread stands. Ring/Threads
--   interleaves one thread of each kind; memory is sequentially consistent. Ring/Rivals is a run with
--   two producers, in which two pointers are lost.
--
-- Freeing memory and closing files have no counterpart, nor has printf. Loops run over a list or over
-- a count, but for some. In Merge the binary search gets the number of files as its fuel, since every
-- round brings its bounds closer, and the main loop a bound that the number of tuples fits. The two
-- loops of Tokenizer get more rounds than the text has breaks.
--
-- Not modelled: the reader of index_writer.c, which is unfinished, and gumbo-parser with leveldb,
-- which are other projects' libraries.
pub mod Buff
pub mod Chunk
pub mod Common
pub mod Fetch
pub mod Forward
pub mod IFile
pub mod Linked
pub mod Merge
pub mod Page
pub mod PairWriter
pub mod PlainVByte
pub mod Ring
pub mod RunWriter
pub mod Runtime
pub mod Simd
pub mod Stdio
pub mod StreamVByte
pub mod Tokenizer
pub mod Tool
