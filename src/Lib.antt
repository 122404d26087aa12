-- ===== src/Lib.antt =====
-- AuroraDB: a relational database on a copy-on-write B-tree, in Go.
--
-- A query is parsed to a tree of expressions (parser), planned and evaluated over records (engine), which are
-- read and written as rows of tables (db). A row is a pair of byte strings: its key encodes the table's
-- prefix and the primary key so that bytes.Compare orders rows by it, and further keys, one for each
-- secondary index, lead back to the primary key (types, index). The pairs are kept in the nodes of a B-tree,
-- each node a page of a file; pages are taken from a list of free ones or appended, and a commit writes them
-- and then the meta page (storage).
--
-- Prelude models no file: Boolean tests and Go strings (Prelude.Tests), lists over the native numbers
-- (Prelude.Lists), run-time panics as `none` (Prelude.Panic), loops that need not end (Prelude.Outcome),
-- bytes.Compare (Prelude.Compare), encoding/binary (Prelude.Words), bitwise identities (Prelude.Bits) and int64
-- (Prelude.Int64).
--
-- types/schema.go
--   Types              Value, Record, TableDef, AddStr, AddI64, Get, GetPKs, GetRecordVals
--   Types.Codec        SerializeBytes, DeserializeBytes, SerializeInt, DeserializeInt
--   Types.Key          EncodeKey, DecodeKey
--   Types.Row          EncodeVal, DecodeVal
-- db/db.go
--   Tables             dbGet, dbSet, dbDel, GetTableDef, TableNew, Get, Insert, Update, Upsert, Delete
--   Tables.Scanner     NewScanner, Scanner and its methods
-- index/secondary.go
--   Index              GetSecondaryIndexesKeys, GetPKFromSecKey
-- parser/parser.go
--   Parser.Syntax      the node types, QLNode
--   Parser.Expr        pExprOr and the functions below it
--   Parser.Statement   pSelect, pInsert, pUpsert, pUpdate, pDelete, pScan and their parts
--   Parser.Statement.Create  PStmt, pCreateTable
-- parser/lexer.go
--   Parser.Lexer       skipSpace, isValidKeyword, isSym, isSymStart, isStr, pNum, pStr, pSym
--   Parser.Keywords    Parser, pkeyword, peekNextToken, pMustSym, pErr
-- engine/executor.go
--   Engine.Eval        qlEval, qlNumeric, qlOrAnd, qlCmp, evalLeftRightKids, QLEvalRecordBool
-- engine/planner.go
--   Engine.Plan        getColsIndex, addValToRecord, MaxValue, MinValue
-- storage/btree.go
--   Storage.Node       BNode, its accessors, nodeLookupLE, nodeAppendKV
--   Storage.Node.Ranges nodeAppendRange, leafInsert, leafUpdate, leafDelete, nodeReplaceKidN,
--                      nodeReplace2Kid, nodeMerge
--   Storage.Node.Split nodeSplit2, nodeSplit3
--   Storage.Node.Entries   the list of entries that a node holds, and the operations of Ranges on it; Ordered has the
--                      insertion into a list in order and the deletion from it, which specify those on a leaf
--   Storage.Tree       GetVal, Insert, Delete and the functions below them
--   Storage.Tree.Iterator  SeekLE, BIter and its methods
-- storage/disk.go
--   Storage.Pages      KV, pageRead, pageAppend, pageWrite, pageAlloc, freePopHead, freePushTail
--   Storage.Meta       saveMeta, loadMeta, readRoot, extendMmap, updateFile, Abort
--   Storage.Transaction  KVTX, Begin, Commit, Get, Set, Del, Seek
-- util/util.go
--   Util               Set, IntSliceRemove
-- The other modules below these hold their theorems; Examples holds the theorems at concrete inputs.
--
-- Representation. A uint16, uint64 or int64 is its bit pattern as a natural number, with the wrap-around
-- written out. A byte string is a list of numbers, a page its size and the byte at each index. A map is a
-- function. What the Go code panics on or ends the process for is `none`, what it returns as an error is a
-- value of the result. A node that evalLeftRightKids evaluates is given to the case of its parent as the
-- result of its evaluation.
--
-- Fuel. nodeLookupLE runs on one round more than the node has keys, and each round narrows the range. The
-- doubling loop of extendMmap runs on 65 rounds: after 64 of them the chunk has length 0 in 64 bits, and the loop
-- does not end any more. That is `none`, as a panic is.
-- A descent in the tree takes one fuel for each level. The descent of the parser takes one for each parenthesis,
-- and its loops one for each byte that is left, where each round reads a token; the loops of pCreateTable run on
-- any fuel. The loop of NewScanner runs on any number of rounds, since it need not end. IntSliceRemove runs on as
-- many rounds as the slice is long, and each removes or passes an element.
--
-- Parameters of the operating system: whether each call of a commit fails, and which pages a failed write has
-- written (Storage.Meta.Faults). Pages from 2^52 on, whose offsets wrap, are not written. Mapping the file shows
-- what the file holds. Parameters of the tables: json.Marshal and json.Unmarshal on the values of a row and on a
-- table's definition. Parameters of the lexer: the tests of package unicode, strings.ToLower, strings.EqualFold
-- and strconv.Atoi.
--
-- Not modelled: the execution of statements, the iterators of the planner, opening and closing files, and printing.
pub mod Prelude
pub mod Types
pub mod Index
pub mod Parser
pub mod Engine
pub mod Storage
pub mod Util
pub mod Tables
pub mod Examples
