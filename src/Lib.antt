-- ===== src/Lib.antt =====
-- Verification library of omni-sem, a local search engine over directories of notes: indexing into
-- SQLite, lexical, semantic and hybrid retrieval, snapshots of other machines' indexes. All of the
-- code modelled here is in crates/omnisem-core/src/.
--
-- The parts and their files:
--   Base        shared helpers: tests into Bool, lists over native numbers, texts as lists of code
--               points, machine integers, an `Eq` interface, comparisons and stable sorting.
--   Domain      domain.rs: the shared types; Domain/Names the stored tokens of the enums,
--               Domain/Records the rows that discovery, indexing and storage share.
--   Tokens      tokens.rs: the token estimator and the truncation of UTF-8 text. The length of a
--               text in bytes is computed from its code points.
--   Retrieval   retrieval.rs: Candidates (suppression of duplicates), Sensitivity (tags of paths
--               and the filter), Pack (the budget of a response), Fusion (reciprocal rank fusion of
--               local, snapshot and semantic candidates) and Pipeline (the modes of `retrieve` and their
--               channels, with the exact scan over the stored vectors in Pipeline/Vectors and
--               the decoding of embedding.rs in Pipeline/Decode).
--   QueryParse  query_parse.rs: the MATCH expression of a user's query.
--   Parsing     parsing/: the parser registry, the splitters of long texts and the Markdown parser.
--   Storage     storage.rs: the tables of migrations/ as lists of rows, and the statements of
--               promotion, upsert and deletion.
--   Index       index.rs: the indexing of one document, over Storage and Parsing.
--   Freshness   freshness.rs: whether a stored time is still that of the file.
--   Discovery   discovery.rs: the walk over a root (Walk), the validation of one path (Validate), patterns
--               and tests on paths (Filters), the extensions (FileTypes).
--
-- A query runs through these parts in order: candidates are found, duplicates suppressed, the rest
-- filtered by sensitivity, fused with the other channels, and packed into the response. A document
-- runs through Index: its place is looked up, its bytes are parsed by the selected parser, its row
-- is upserted, and its revision and segments are promoted in one transaction.
--
-- Parameters: Retrieval/Env holds what comes from outside the repository: floating-point numbers
-- (`Floats`), Unicode tables, globs and the text form of identifiers (`Env`). A hash map is an
-- association list and a hash set a list. Index takes the clock, fresh identifiers and hashes
-- (`Context`) and the bytes that were read; Freshness and Discovery take the file system's answers,
-- and Discovery the walker's entries, the globs and the ignore matcher (`Outside`); the Markdown
-- parser takes the events of the Markdown library, and the registry the UTF-8 decoder.
--
-- Bounds: sizes are those of a 64-bit machine, and identifiers are the numbers of their UUIDs. Two
-- loops have a bound on their rounds: the splitting of a text has one round for each character,
-- which is enough since each round takes one or more (Parsing/Chunks/Lengths), and the decimal
-- text of a number has no more digits than its successor counts (Base/Decimal). Every other
-- loop is structural over the sequence that the source iterates.
--
-- Not modelled: the text of the SQL queries, the normalisation of vectors and the times in the
-- telemetry, embeddings, snapshots, git, configuration files, HTTP, argument parsing and the
-- evaluation harness. Of the database's errors broken keys and references are modelled, and in a
-- scan the failures of the clock and of listing and marking the active sources; of its tables only
-- those that indexing writes.
pub mod Base
pub mod Discovery
pub mod Domain
pub mod Freshness
pub mod Index
pub mod Parsing
pub mod QueryParse
pub mod Retrieval
pub mod Storage
pub mod Tokens
