-- ===== src/Lib.antt =====
-- WiDB: a database server with in-memory and LSM storage engines (the Go module under pkg/ and cmd/).
--
-- Parts and how they interact. A statement reaches a table's engine through pkg/query and pkg/server.
-- The catalog (pkg/catalog) holds the tables' schemas and the segments that each table has. A table's
-- engine is the in-memory one (pkg/storage/memory), a sorted slice of rows, or the LSM engine
-- (pkg/storage), which writes each row to a log, keeps it in a memtable and flushes memtables to
-- segments; the primary index (pkg/index) finds the segments whose key range may hold a key, and the
-- sparse index the segments that a comparison of a column rules out.
--
-- Files and code:
--   Prelude             shared names; strings as lists of bytes with Go's order (Strings), sort.Search
--                       (Bisect), what it finds in a sorted slice (Ordered), little-endian words
--                       (Endian), Go's maps as association lists (Maps)
--   Common/Types        pkg/common/types.go: DataType, Value, Equal, Less
--   Common/Printing     pkg/common/types.go: Value.String
--   Common/Bitmap       pkg/common/bitmap.go: NewBitmap, Set, Clear, Flip, Get, And, Or, Xor,
--                       Grow; a word is the list of its 64 bits, and an access outside the
--                       words is `none`
--   Common/Float        comparison and conversion of float64 bit patterns, as the language defines them
--   Storage/Row         the rows that engines store and return
--   Storage/Memory      pkg/storage/memory/engine.go: New, Write, WriteBatch, Delete, Get, ScanRange,
--                       Flush, Close; each returns the error and the engine that results
--   Storage/Lsm/Merge   pkg/storage/iterator.go: MergeIterator and the loop of scanRangeUnlocked
--   Storage/Lsm/Segment pkg/storage/segment.go: FindRowByKey, FindRowByKeyGE, FindRowByKeyLE,
--                       ComputeRange, and segmentIterator of pkg/storage/iterator.go
--   Storage/Lsm/PointReads  pkg/storage/engine_ops.go: getFromSegments
--   Storage/Lsm/Engine  pkg/storage/engine.go, engine_ops.go: Write, Delete, Get, rotateMemTable,
--                       ScanRange, scanRangeUnlocked, over an interface of memtables
--   Storage/Lsm/Batch   pkg/storage/engine_ops.go: WriteBatch
--   Storage/Lsm/Pruning  pkg/storage/engine_ops.go: ScanRangeWithPruning, canSkipSegment
--   Storage/Lsm/Compaction  pkg/storage/compaction.go: mergeSegments, buildSegment, Compact,
--                       removeCompactedSegments, and addSegment of pkg/storage/engine_ops.go
--   Storage/BlockCache  pkg/storage/cache.go: BlockCache
--   Storage/Lsm/SkipLists  pkg/storage/memtable.go: findLess, randomLevel, put, get, scanRange of the
--                       skip list, and Put, Get, ScanRange, All, ShouldFlush of MemTable. The list is
--                       its nodes in the order of level 0, each with the highest level it is linked
--                       into; the link of level i goes to the next node of at least that height, and
--                       rand.Float64 is a sequence of tosses. The length of what lies ahead is fuel for
--                       findLess, and the 15 rounds that maxLevel allows for randomLevel. Tables fills
--                       the interfaces of memtables of the engine and of the recovery
--   Storage/Dictionary  pkg/storage/encoding_dict.go: encodeDict, decodeDict; a row is its null flag and
--                       its string, and an access outside a slice is the outcome `panics`
--   Storage/RunLength   pkg/storage/encoding.go: encodeRLE, decodeRLE; an int64 is its 64 bits
--   Storage/Wal/Codec   pkg/storage/wal_codec.go and the write records of pkg/storage/wal_record.go
--   Storage/Wal/Recovery  pkg/storage/wal_record.go: findLastCheckpoint, applyWriteRecords,
--                       replayWALRecords, over an interface of memtables
--   Server/Protocol     pkg/server/protocol.go: NewPacket, Encode, DecodePacket
--   Index/Primary       pkg/index/primary.go: RegisterSegment, UnregisterSegment, Lookup, Range
--   Index/Sparse        pkg/index/sparse.go: RegisterColumnStat, BuildFromColumnVector, CanSkip
--   Query/Compare       pkg/query/compare.go: compareValues, compareOrdered, flipComparisonOp,
--                       opToIndexOp
--   Query/Compare/Like  pkg/query/compare.go: likeMatch, matchLike
--   Query/Ast           pkg/query/ast.go, pkg/query/plan.go: the types of expressions
--   Query/Arith         pkg/query/executor_expr.go: evalIntAdd, evalIntSub, evalIntMul, mulOverflows
--   Query/Eval          pkg/query/executor_expr.go: evalExpr, isTruthyValue, EvalRowPredicate
--   Query/Folding       pkg/query/optimizer_constant_folding.go: foldExpr
--   Query/Predicates    pkg/query/predicate_extractor.go, pkg/query/optimizer_helpers.go and
--                       splitPredicateByAggregate of pkg/query/optimizer_predicate_pushdown.go
--   Catalog/Schema      pkg/catalog/schema.go: Table, ColumnIndex, HasColumn
--   Catalog/Changes     pkg/catalog/catalog.go: CreateTable, DropTable, AddColumn, DropColumn,
--                       RegisterSegment, UnregisterSegment, GetTable
--
-- Conventions. int64, uint64 and float64 are 64-bit patterns in ℕ, and arithmetic on them is taken
-- modulo 2 ^ 64. The loops of a merge run on as much fuel as entries are ahead of its sources, and the
-- scan ends within it. Each call is one step, so concurrent calls are
-- sequences of steps; a get of the block cache and Compact, which give up their lock in between, are two.
-- The interleaving of a counter with a lock taken later is not looked into.
-- A Go map that is only read is the list of its entries in the order of iteration. sort.Search
-- is its source's bisection, on as much fuel as the slice is long, which Bisect proves to be enough;
-- sort.Slice is a parameter, since its order on equal keys is not fixed; what saving the catalog to
-- its file gives, and the JSON of a checkpoint, are parameters too. The
-- loop of LIKE runs on fuel, which Query/Compare/Like/Ends proves to be enough; the arithmetic of
-- float64 and the printed forms of numbers and times are parameters (Runtime in Common/Printing).
--
-- Not modelled: the SQL parser and the network (third-party libraries and I/O), the files of the log
-- and of segments, the background goroutines, and the parts of pkg/storage and pkg/query that
-- the list above does not name.
pub mod Prelude
pub mod Common
pub mod Index
pub mod Storage
pub mod Catalog
pub mod Query
pub mod Server
