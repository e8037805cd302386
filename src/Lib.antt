-- ===== src/Lib.antt =====
-- A model of the parts of libge that compute: Unicode conversion and validation, the parsing and
-- printing of integers, strings and string references, the hash table, the deque, the array, the
-- doubly linked list, the escaping of URLs, timestamps, the sessions of the HTTP server, the numbers of
-- random access files, the service for sockets, and the thread pool.
--
-- The files and what they model:
--   Base        shared names, tests on numbers, lists, results of runs, laws of the bit operations
--   Unicode     UnicodeUtil of inc/ge/text/UnicodeUtil.h and src/ge/text/UnicodeUtil.cpp: CodePoint
--               has the inline functions on code points and surrogates, Utf8 the table of lengths,
--               nextUtf8CodePoint and utf8FromCodePoint, Utf16 nextUtf16CodePoint, Convert the
--               conversions of whole buffers, Scan scanAscii, Validate validateUtf8, Memory pointers
--               into a buffer
--   Numbers     src/ge/util: Tables the tables of UtilData.cpp, Parse parseUInt8 to parseUInt64,
--               Print uint32ToBuffer, uint64ToBuffer, uint32ToString and uint64ToString,
--               Counts the counts of ones and zeros and the parities of UInt8.cpp to UInt64.cpp,
--               Powers their tests for powers of two and next powers,
--               Signed parseInt8 to parseInt64 of Int8.cpp to Int64.cpp
--   StringRef   src/ge/text/StringRef.cpp: comparison, equality, prefixes and suffixes, hash, and
--               engEqualsIgnoreCase; Equality, Order, IgnoreCase and Hash the theorems
--   OwnedString  String of src/ge/text/String.cpp: constructors, copies, assignments, append, data,
--               charAt, reserve and operator+, for words of any size; Contents, Copies and
--               Appended the theorems
--   HashTable   HashMap of inc/ge/data/HashMap.h: put, resize, get, erase and the iterators; Nodes
--               has what its chains hold, Put and Iteration the theorems
--   CircularList  Deque of inc/ge/data/Deque.h: addBack, addFront, reserve, front, back, popFront,
--               popBack, get and set over a buffer of cells that may hold no object
--   DynamicArray  List of inc/ge/data/List.h: Cells has what happens to ranges of its cells, Contents
--               what it holds; Growth, Resizing, Removal and Copies the theorems on its operations
--   DoublyLinked  DLinkedList of inc/ge/data/DLinkedList.h, on nodes with addresses: Chain has what
--               links the nodes, Queue and Front the theorems
--   Url         escapeUrl, unescapeUrl and unescapeUrlInPlace of src/ge/http/HttpUtil.cpp: Memory has
--               the reads and writes of the buffer, Grammar the escaped texts; InPlace, RoundTrip and
--               Appended the theorems
--   Timestamp   formatTimestamp of src/ge/http/HttpUtil.cpp; Fields reads its numbers back
--   Http        HttpServer and HttpSession of src/ge/http: Line has tryReadLine and flushLine,
--               RequestLine parseFirstRequestLine, Header headerMatchExtract and parseHeaders, Handler
--               readHandler and readCallback, Writes addWriteData, writeCallback and the respond
--               methods; Line/Whole, RequestLine/Printed, Header/Named, Handler/Request and
--               Writes/Order the theorems
--   RaFile      RAFile of src/unix/ge/io/RAFile.cpp and src/win/ge/io/RAFile.cpp: readFully and write,
--               Reads and Writes the methods for numbers, Bytes their bytes; RoundTrip and Whole the
--               theorems
--   SocketPoll  SocketService of src/unix/gepriv/aio/SocketServicePoll.cpp: the calls that it makes,
--               Submit socketRead, socketWrite and socketConnect, Queue the entries that are ready,
--               Poll the events and results of poll, Process what process does with an entry;
--               Submit/Lost, Queue/Order, Poll/Errors and Process/Callbacks the theorems
--   ThreadPool  ThreadPool of src/ge/thread/ThreadPool.cpp: what each operation does under the lock;
--               System has the pool with its workers as a step relation, Invariant and Stranded the
--               theorems
--   Examples    the theorems at concrete inputs
--
-- validateUtf8 calls scanAscii on the text after a byte order mark, and the conversions, the
-- validation and nextUtf8CodePoint share the table of lengths and the masks. The printers use the
-- digit tables of UtilData.cpp and the parsers its character values.
--
-- The service for sockets keeps what is in progress in a HashMap, whose model it uses, put and get
-- with their faults; what hashes a file descriptor is a parameter.
--
-- The thread pool keeps its work in a DLinkedList, of which it uses addBack, front, popFront and
-- size; its model has a sequence there.
--
-- An HTTP session is a record of what reading it uses, and one of what its lock guards. The bytes that
-- a read brings and the end of a write come from the SocketService, whose calls are recorded in the
-- result: what is to be read next, and what was submitted to be written. The handler of a request is
-- counted, not run. The loop over the header lines has as much fuel as there are bytes, and one more.
--
-- The calls of the operating system on an open file are a parameter of RaFile, and those on a socket,
-- with the constants of the platform, one of SocketPoll: what each returns, and the system after it. An
-- interrupted call is made again, on fuel, since nothing says that it ends. Where the code throws an
-- IOException the result says so, without its text.
--
-- A run of the code is a value of Run: ok, a fault where C++ leaves the behaviour undefined (a read
-- or write outside memory, a value never written, a null pointer, a division by zero, the deletion of
-- what is no block), or stuck where a loop has used up its fuel. The loops over a buffer run on one
-- unit of fuel for each of its bytes and one more, which is enough wherever a theorem says that they
-- return ok. The loop of HashMap::get has its fuel as an argument, since no fuel is enough for some
-- tables. A size_t has eight bytes, but in OwnedString, where the size of a word is a parameter.
-- Machine integers wrap where they are written with a remainder. A char is its value as an unsigned
-- char. A pointer into a buffer is what stands before it and what it has ahead.
--
-- The loop of unescapeUrlInPlace has as much fuel as its buffer has bytes, and one more. What a thread
-- of the pool does under the lock, up to a wait or the release, is one step; the steps of all threads
-- interleave in any order, and a wait may end at any time.
--
-- The key type of the hash table, its equality and its hash function are parameters, with the law
-- that the equality decides equality. Nodes are named by their place in a chain.
--
-- Not modelled: the SSE2 and AVX routines, the printing of signed integers, the rotations, the copies
-- and moves of the hash table, the deque and the doubly linked list, exceptions that copied objects
-- throw, the other containers, the moves of String, the searches of StringRef, dates, how the HTTP
-- server and the service for sockets start, accept and shut down, and the calls of the operating system.
pub mod Base
pub mod Unicode
pub mod Numbers
pub mod HashTable
pub mod CircularList
pub mod DoublyLinked
pub mod DynamicArray
pub mod StringRef
pub mod Timestamp
pub mod Http
pub mod RaFile
pub mod SocketPoll
pub mod OwnedString
pub mod ThreadPool
pub mod Url
pub mod Examples
