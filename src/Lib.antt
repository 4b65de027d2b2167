-- ===== src/Lib.antt =====
-- A verification library of PTTArticleRecommander: its wire protocol, the miner server and its two
-- backends, the miner's mirror of the PTT boards, and the app server's client of the miner.
--
-- The program has two Python processes that matter here. The miner (src/miner) keeps the documents of
-- the PTT boards and serves queries about them; the app server (src/app_server) answers a browser
-- extension and asks the miner over TCP. Both speak one protocol: a package is a header and a content.
--
--   Protocol     src/miner/modules/protocol: `Net` has a module per struct of net.py and `PackageType` its
--                constants, `Types` a module per type of types.py. A byte string is a list of numbers below
--                256, a `str` the list of its code points; `Bytes` and `Utf8` are what the code uses of
--                Python's struct and codecs. A call that may raise returns a `Result`. `Codec` and
--                `Unambiguous` hold what it means that a format can be read back.
--   Server       src/miner/modules/server.py: `Arguments` is `_unpack_args_buf`, `Delegator` the handlers,
--                their table and `handle_package`. The backend (backend_interface.py) is a record of
--                methods over a state, which the delegator takes as a parameter. `Connection` is
--                `_SocketConnectionHandler`, whose `run` is in Connection/Run, over a connection that is a
--                parameter; `Accepting` is `Server`, over a socket and threads that are, and `Entry` is
--                `main` of src/miner/main.py behind its command line.
--   L2Miner      src/miner/modules/l2_miner, the second backend: `Cache` and `Lookup` are cache.py, over a
--                storage that is a parameter, `Threads` the threads that share a cache, `Notifier` its
--                update notifier; `Storage` is storage.py, `Crewer` crewer.py over the parts that are found
--                on a page, `RealBackend` real_backend.py, with `destroy` in RealBackend/Destroying, and
--                `BoardListener` board_listener.py: BoardListener/Pages asks the site for pages,
--                BoardListener/Search finds a page by a url's number, BoardListener/Running is the
--                listener's thread with the update threads. Methods are functions from the object's fields
--                to a result and the fields: what a raise leaves behind is kept.
--   FirstMiner   the first backend: `Build` is src/miner/modules/build.py, over the list that was read from
--                its file, and `Replies` its reading of a document's text. `Crawl` is `getContent` of
--                src/miner/modules/mining.py, which writes that list, over the fetching of pages, and
--                `Variables` are the local variables of its loops, which outlive a round.
--   AppServer    src/app_server/modules: `ProxyClient` is proxy_client.py, over a socket that is a
--                parameter; `MinerProxy` and `Miner` are the two classes of miner.py, `Analysis` those of
--                article_analysis.py, `MainHandler` is main_handler.py, and
--                `HttpRequestHandler` is http_request_handler.py.
--   Common       helpers: tests, lists and integers over the native numbers, results, methods that may
--                raise (`Exec`), dictionaries, and what the code uses of Python's `str` (`Texts`).
--   Tests        the theorems at concrete values.
--
-- The app server's `MinerProxy` and the miner's `Delegator` meet in MinerProxy/RoundTrip, where the
-- content that one dumps is handed to the other and back; the thread of a connection and the delegator in
-- Connection/Run/Round; the HTTP handler and the main handler in
-- HttpRequestHandler/Answered; the cache and the storage's answers in Lookup/Answers and Lookup/Urls; what the
-- crawler writes and what the first backend makes of it in Crawl/Listed.
--
-- Bounds and fuel. Integers are unbounded, as in Python; the widths of the wire formats are in
-- `pack` and `unpack`, which raise outside them. `recv_all` has as many rounds as bytes are asked
-- for, since a round takes one byte at least; `_shrink_cache_size` has as many as the list has
-- entries, since a round pops one; the update thread has as many as there are identities down to
-- zero; the crewer has its 30 attempts. The doubling of `_get_max_page_idx`, fetching a page, the
-- loops of the connection handler and the wait for a file of the storage take their fuel as an
-- argument, since a server may have any number of pages and timeouts may come without end. So do the
-- loops that run until they are stopped from outside (accepting connections, serving one, the
-- notifier and the board listener) and the wait of `sleep_if`, whose clock is not the program's. The
-- error `out_of_fuel` stands for a loop that does not end within its fuel.
--
-- Taken as given. A socket may return any chunk, of one byte at least while bytes are pending
-- (`IsStream` for the app server, `IsFeed` and `IsPeer` for the miner server, where a call may also
-- time out). The miner's cache assumes that the board gives one identity to a url (`owner`), and
-- that the storage answers for the board (`IsFinding`, which Storage/Finding proves of storage.py
-- where urls of one number have one identity). The site of the boards may refuse a request for a
-- page that it has, but not ten times in a row (`IsSite`); each link in an entry of a page has an
-- address. Stopping and joining a thread return, and a thread that was joined is done
-- (`IsListening`, `IsThreading`, `IsEnding`, `IsDestroying`). The callback and closing of a
-- connection return (`IsClosing`), and a peer that is gone stays gone (`IsGone`).
--
-- Not modelled. What two threads do to each other outside the sections under the cache's lock: every
-- other locked method is one step. Logs, and the delays between attempts. The HTTP server below
-- `do_POST`. How the third-party parser finds the elements of a page that `_get_page_urls` of
-- board_listener.py, the private functions of crewer.py and the crawler read; pickle and the other
-- files of the disk. The command lines, the set-up of the app server, `getAllPagesInTheBoard` of
-- mining.py, whose only work is fetching, the echo handler for debugging, the C++ article analysis
-- and the browser extension.
pub mod Common
pub mod Protocol
pub mod Server
pub mod AppServer
pub mod L2Miner
pub mod FirstMiner
pub mod Tests
