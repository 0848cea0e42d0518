-- ===== src/Lib.antt =====
-- ProRag answers questions over a company's documents: it ingests files into chunks, finds chunks
-- for a question under the asker's access rights, and streams an answer with citations.
--
-- How the parts interact. prorag/operations/retrieval.py is the pipeline: the planner makes two
-- queries of the question, three arms search the tables under the visibility clause, fusion makes
-- one list of theirs, the reranker rescores it and the crop chooses the context. prorag/chat streams
-- the model's text through a guard. prorag/auth.py says who asks, prorag/operations/budget.py
-- whether the request may still cost anything. prorag/connectors pulls files from object storage on
-- a schedule and hands them to prorag/ingest, which stores a file as a document with embedded chunks,
-- all or nothing. prorag/admin keeps groups and access rules; a confirmed rule grants its group the
-- documents that match it, those on record and those that are ingested later.
--
-- Which file models which part:
--   Prelude           numbers, lists, options, texts and stable sorting
--   Models            the tables of prorag/models.py
--   Retrieve/Hit      the hit dicts that the stages of retrieval pass on
--   Retrieve/Fuse     prorag/retrieve/fuse.py: rrf_fuse
--   Retrieve/Visibility  prorag/retrieve/visibility.py
--   Retrieve/Plan     prorag/retrieve/plan.py and prefill.py, after the model's answer
--   Retrieve/Arms     prorag/retrieve/arms.py over tables
--   Retrieve/Rerank   prorag/retrieve/rerank.py, after the provider's answer
--   Retrieve/Crop     prorag/retrieve/crop.py: crop_context
--   Retrieve/Pipeline prorag/operations/retrieval.py: gather_hits and retrieve
--   Chat/Guard        prorag/chat/stream.py: TokenGuard, and the loop of prorag/chat/router.py
--   Chat/Citations    prorag/chat/citations.py
--   Chat/Feedback     prorag/chat/router.py: feedback
--   Ingest/Chunk      prorag/ingest/chunk.py
--   Ingest/Mime       guess_mime and sniff_mime of prorag/ingest/parse.py, the checks of
--                     prorag/ingest/router.py
--   Ingest/Parse      prorag/ingest/parse.py around its readers
--   Ingest/TableText  prorag/ingest/tables.py
--   Ingest/Embed      embed_texts_batched of prorag/llm.py, _embed_with_retry of prorag/ingest/core.py
--   Ingest/Store      prorag/ingest/store.py
--   Ingest/Files      prorag/ingest/core.py: from a file to what is to be stored
--   Ingest/Rows       prorag/ingest/core.py: the embeddings, chunks and table rows of a document
--   Ingest/Core       prorag/ingest/core.py: ingest_bytes
--   Admin/Grants      the statements on document_acl of prorag/admin/router.py
--   Admin/Rules       prorag/admin/router.py: access rules; _apply_confirmed_rules of
--                     prorag/ingest/core.py
--   Admin/Groups      prorag/admin/router.py: groups, members and a user's patch
--   Admin/Views       prorag/admin/router.py: the listings
--   Admin/Usage       prorag/admin/router.py: the users whom usage_report warns of
--   Files             prorag/files/router.py
--   Budget            prorag/cost.py and prorag/operations/budget.py
--   Connectors/Sync   prorag/connectors/sync.py and the listing of s3.py
--   Connectors/Scheduler  prorag/connectors/scheduler.py
--   Auth              prorag/auth.py and the logout of prorag/auth_routes.py
--   Auth/Routes       prorag/auth_routes.py: login and oidc_callback
--
-- State and operations. A table is a list of rows, and an operation returns the rows after it; a
-- dict that is only read by key is a function or an association list; an exception is an absent
-- result or a constructor of a result type. A text is the list of its code points. Scores, costs and
-- coordinates are of any type with a total order, as the floats without NaN have; what is added,
-- subtracted or divided is a parameter. Times are microseconds, ids are numbers.
--
-- A route comes to an HTTP error or to the tables after its commit, since an error rolls the request's
-- transaction back; a constraint that a statement breaks is a 500. A Python exception that the code
-- reads is a value with its type's name and its message. What happens between two statements of a
-- session is an argument where the code handles it: another upload of the same bytes, the attempts of
-- a provider, which of several failures comes first, a time-out, a pause of a stream, and what the flush
-- of a document comes to. Of the database's errors a model has those that its component's code meets in
-- its own way: a BM25 statement that fails, the flush of a document, a size that its column cannot hold,
-- a session that is left broken, a broken constraint of a route. Every other statement succeeds.
--
-- Bounds and fuel. `windows` of Ingest/Chunk and `slices` of Prelude are given the length of the
-- stream, and as each turn moves on by at least one entry that is enough, which the statements that
-- the pieces rejoin to the whole include. The digits of a number are given as many turns as the number
-- has units, and one more. All other loops follow the lists, or the attempts, that they are given.
--
-- What is not modelled. What PostgreSQL and its extensions compute (distances, scores, orderings),
-- the language models, the readers of files, the embedding and reranking services, the object store,
-- digests and prices are parameters, with the laws that are used of them named where they are used.
-- The sums of the usage report, evaluation, settings and middleware are not modelled either. Start-up, migrations, scripts and the web client are left out.
pub mod Prelude
pub mod Models
pub mod Retrieve
pub mod Chat
pub mod Ingest
pub mod Budget
pub mod Connectors
pub mod Auth
pub mod Admin
pub mod Files
