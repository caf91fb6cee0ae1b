-- ===== src/Lib.antt =====
-- SWISH++ indexes files by the words in them (`index`) and finds the files that match a query
-- (`search`). This library models the part between the characters of a file and the ranks of a query's results.
--
-- The indexer cuts characters into words and puts each word worth it into a map from words to the
-- files that they are in; the index program writes one entry for each word, numbers being variable-length
-- quantities. `search` cuts a query into tokens, parses it into a tree of nodes over the files that it
-- reads back from the entries, and evaluates the tree. Both ask the same heuristics which words are
-- worth indexing, and words are compared by their stems if that is asked for.
--
-- - Common: Boolean tests, lists over native numbers, bit operations, and the C library's character classes
--   in the C locale.
-- - Vlq: src/pjl/vlq.cpp, `vlq::encode` and `vlq::decode`.
-- - Posting: src/word_info.h, src/word_info.cpp, src/word_markers.h, `write_word_index` of src/index.cpp;
--   Posting.Reader: src/file_list.h and src/file_list.cpp.
-- - Stem: src/stem_word.cpp; Stem.Tables has its rules, Stem.Word `less_stem::stem_word`.
-- - Word: src/word_util.h and src/word_util.cpp; Word.Match has `move_if_match`. Word.Parts has the
--   parts of a word that Word.Ok and Word.Through tell `is_ok_word` by, apart from its counters.
-- - Token: src/token.h and src/token.cpp; Token.Latin1: src/iso8859-1.h and src/iso8859-1.cpp.
-- - Query: src/query.h and src/query.cpp; Query.Node the nodes of src/query_node.h, Query.Parser the functions
--   `parse_query2`, `parse_meta`, `parse_relop` and `parse_primary`. Query.Ensures and Query.Steps have a small
--   logic of postconditions for the parser.
-- - Eval: src/query_node.cpp, the functions `eval`; Eval.Near and Eval.NearFiles have the loops of "near".
-- - Indexer: src/indexer.h and src/indexer.cpp, `index_word`, `index_words`; Indexer.Meta has
--   `find_meta`, Indexer.Title `tidy_title`.
-- - Charset: src/charsets/utf8.cpp, src/charsets/utf16.cpp and src/encodings/quoted_printable.cpp; Charset.Range has
--   the iterator of src/encoded_char.h, which calls them.
-- - FileInfo: src/file_info.h, src/file_info.cpp and `write_file_index` of src/index.cpp, which tell `search` the names
--   and titles of the files that it finds.
-- - Merge: `merge_indicies` of src/index.cpp, with the order of words as a parameter; Merge.Strings has `strcmp`.
-- - IndexFile: src/index_segment.h, src/index_segment.cpp and src/index_header.cpp, the file between the two programs.
--   IndexFile.Write has `write_full_index` and `write_partial_index` of src/index.cpp with all that they call,
--   IndexFile.Load `load_old_index` and `check_add_directory` of src/directory.cpp, IndexFile.Search the searches of
--   src/query.cpp in a mapped index, of which IndexFile.Mapped makes the `Index` of the parser. An instance of
--   IndexFile.Entries.Codec is one kind of entries.
-- - Xml: src/xml_formatter.cpp, the escapes in the titles of results.
-- - OptionStream: src/pjl/option_stream.h and src/pjl/option_stream.cpp, which reads the options of the programs.
-- - Filter: src/filter.cpp, the commands that turn a file into text before it is indexed.
-- - ThreadPool: src/pjl/thread_pool.cpp, on which the search daemon runs, as a step relation: `Step` has every step,
--   with time-outs and waits that end for no reason, `ThreadStep` those that the threads take by themselves. A signal
--   reaches a thread that waits just then, or nobody; ThreadPool.Signals is about them.
--
-- A string is the list of its character codes in front of the null, an unsigned or signed integer its
-- bit pattern, with the modulus of its width written out; an output stream is the list of bytes written.
-- A read behind the end of memory is `none` or a result of its own. Loops that are not structural run
-- on fuel: those over bytes have a round for each byte, the loops of "near" one for each entry or delta and
-- one more, and the parser four calls for each character and three more; the theorems say that this is enough. The loops
-- of options and filters have a round for each character, and one for each argument. Where the code does
-- loop for ever, the theorem says that no fuel is enough.
--
-- For the parser, what `equal_range` finds for a word, the stop words and the meta names are fields of
-- `Index`, so that any index will do; in IndexFile the C++ library's binary search is a parameter, as are the bytes of
-- a number in memory and what a new array holds; a decoder of characters is a parameter of the iterator. What "and", "or",
-- "not" and "near" are meant to find is defined apart from `eval`, as a test of one file (Eval.Semantics).
--
-- Not modelled: the search in a mapped index by the order of stems, in which the file is not sorted; the
-- visitors that distribute "near" over a tree, since they go by the identity of nodes in a pool; the cache and
-- the lock of the stemmer, whose result is `none` for a word that its buffer does not hold; the registry of
-- document modules and the modules themselves; base64 and UTF-7; the ranks, which are floating point; files,
-- sockets and processes; the destructor of a pool of threads, and their cancelling.
pub mod Common
pub mod Vlq
pub mod Posting
pub mod Stem
pub mod Word
pub mod Token
pub mod Query
pub mod Eval
pub mod Indexer
pub mod Charset
pub mod OptionStream
pub mod Filter
pub mod ThreadPool
pub mod FileInfo
pub mod Merge
pub mod IndexFile
pub mod Xml
mod Tests
