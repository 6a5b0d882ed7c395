-- ===== src/Lib.antt =====
-- A verification library for VeloxRAG, a service that ingests documents, cuts them into chunks,
-- indexes the chunks and retrieves them. Paths are from the repository's root.
--
-- The parts that are modelled, and how they interact. Background Jobs drive the service: a Worker
-- claims a Job, which gives it a lease with an epoch, and every later write of the Job is fenced by
-- the lease. An ingestion Job normalises a document and cuts its text into chunks that overlap;
-- citations and coverage stand on the offsets of the chunks.
--
-- Validation (src/rag_service/ingestion/validation.py). Metadata has the checks of names and
-- content types, Incremental `IncrementalTextValidator`, Document `validate_document`.
-- `unicodedata`, `str.lower` and SHA-256 are parameters; the digest of the bytes so far is these
-- bytes. A call that raises gives no new state, since its callers drop the validator then. The
-- comparison of a quotient with the float 0.05 is one of whole numbers, which decides alike for
-- counts below 2 ^ 32.
--
-- Parsers (src/rag_service/ingestion/parsers.py). Boundary has the structural boundaries and their
-- checks; Storage the packed columns, where the arrays that grow together are one list of rows and
-- a number that an array does not hold is refused as `OverflowError` is; Runs the detection of
-- periodic patterns by `_BoundaryBuilder`, Titles its tree of title paths, Builder the class as a
-- whole, the iteration over `StructuralBoundaries` and the look-up by index. A class's fields are a
-- record, and a method returns the new record. UTF-8 is that of Prelude.Utf8, for texts without
-- surrogates. The walk up the tree of titles has the identifier as fuel, since parents have smaller
-- ones. The loop that keeps the last title path between equal identifiers reads the path again in
-- the model. Artifact has `ParsedArtifact` with the check of the columns against the text,
-- PlainText the plain-text parser, whose calls of the builder are the list of what it adds,
-- Markdown the lexical tests of the Markdown parser, its indentation and its stack of headings (the
-- top first), where a regular expression is a scan of a line. Ingestion puts validation, parser and
-- chunker together.
--
-- Artifacts (src/rag_service/ingestion/artifacts.py) has the keys under which the source, the
-- parsed text and the chunks of a document are stored, and how an identity is read from a key;
-- `uuid.UUID` is a parameter. Split, Names, Parts and Keys go from the split at slashes to whole
-- keys. Temporary has the keys of temporary objects, Segments their segments; the digits of a
-- number are made with fuel for as many as the number and one more, which is enough since each
-- digit divides it by ten.
--
-- Chunkers (src/rag_service/ingestion/chunkers.py). A text is the list of its code points and an
-- offset is a number. Tables has the Unicode ranges; Grapheme `_unsafe_boundary`, `_safe_end`,
-- `_safe_start` and `_align_sentence_boundary`; Points the searches `_last_point`, `_first_point`
-- and `_contains_point` over sequences of offsets, with `bisect`; Lexical the sentence pattern and
-- the newline searches; Index `_index_boundaries`; Choose `_choose_end` and
-- `_choose_overlap_start`; Loop `RecursiveTextChunker`. A record of searches (`PointSet`) stands
-- between Points and Choose, so that the runs of Packed (`_PackedRunPoints`), which every parsed
-- artifact has, can take the place of the sequences. Packed.Packing has `_packed_points`, whose
-- arrays for segments are one list of rows; that its numbers are below 2 ^ 32 is taken from the
-- length of texts; Rows, Ends, Sources and Offsets are about what it packs. The look-up of the
-- title path of an offset is Parsers.Lookup; the cache of the last path reads again, and a title
-- that cannot be read ends the run with an error. The Unicode database (`unicodedata`) and the
-- chunk hash are parameters: of the hash it is asked that it has the form of a SHA-256 digest. The
-- generator is the list of the chunks with how it ended. The loop runs on fuel, one round for each
-- character and one more, since each round moves the start on; to run out of fuel is an outcome of
-- its own. The sentence pattern is matched by a scan that looks for the next match from where the
-- last one ended, as `finditer` does.
--
-- Jobs (src/rag_service/jobs/repositories.py, and the table `jobs` of
-- src/rag_service/db/models/documents.py). Row has the row, its check constraints, leases and
-- fences; Repository, Outcome and Claim have the operations of `SqlAlchemyJobRepository` under
-- their names. The table is the list of its rows; an `UPDATE … RETURNING` under a fence changes the
-- first row that the fence holds of, since a fence names the primary key; an operation that raises
-- leaves the table as it was, since its caller rolls the transaction back. Times are microseconds,
-- identifiers are numbers, and each statement is given the clock of the database and the rows that
-- others have locked, so that any interleaving of Workers is a list of requests (Steps). What a
-- caller does inside a transaction is an argument of the operation; in a list of requests it leaves
-- the `jobs` table alone. Changes has the relation of what a request may do to one row, Kept and
-- Invariants the induction over requests; Choice, Fencing, Exhaustion and Failure are about claims,
-- superseded leases, spent Jobs and failures.
--
-- Auth (src/rag_service/auth/policies.py and src/rag_service/auth/codec.py). Policies makes
-- principals of the rows of API keys and has the gates that each request passes; what they raise is
-- a value. `base64` is a parameter. Gates has what the gates let through, Principals what a row
-- gives. Codec has the tokens of keys, with `hmac` and the random bytes as parameters, and Tokens
-- their round trip; the redaction of exceptions before they are raised is left out.
--
-- Not modelled: the manifests of chunks, slices and negative indices of packed boundaries, the
-- scans over lines of the Markdown parser, the manual retry and the status read of the Jobs
-- repository, and the parts of the service that are orchestration of database, object store, vector
-- store and HTTP gateways.
pub mod Prelude
pub mod Validation
pub mod Parsers
pub mod Chunkers
pub mod Ingestion
pub mod Jobs
pub mod Artifacts
pub mod Auth
