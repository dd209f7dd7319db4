-- ===== src/Lib.antt =====
-- StreamMonitor: a collector polls the CHZZK API and writes monitor.db (SQLite), a relay serves the
-- database to clients over TCP in newline-framed JSON, and a Windows program shows the channels.
--
-- The files and the code they are about (paths from the root of the repository):
--   Prelude      helpers that the others share: tests, lists, integers, maps ordered by key, loops
--                that count (Steps)
--   Framing      the loop over the lines of a buffer, in `Server::on_conn` of
--                src/cpp/push/main.cpp and `StreamClient::run` of src/mfc/StreamClient.cpp;
--                Split is its specification, Segments is about streams that come in pieces
--   Json         the values of rapidjson that the code tells apart, and C strings
--   Db           the tables of src/cpp/common/db.h and the SQL of the two programs as functions;
--                Session has the transactions, where any statement may fail
--   Settings     src/cpp/common/env.h
--   Handles      class Db and class Stmt of src/cpp/common/db.h and class Http of
--                src/cpp/collector/main.cpp as owners of handles, with their destructors
--   Collector    src/cpp/collector/main.cpp: Fetch is `fetch_top_lives`, Store is class Store, Main
--                is `run_once` and the body of the loop of `main`, Start is `main`
--   Push         src/cpp/push/main.cpp: Conn is struct Conn with `send_json` and `flush`, Queries
--                is class Queries, Request is `handle_line` with the document of a line in Answer,
--                Server is class Server; Session is what a connection promises, apart from buffers;
--                Start is the constructor of Server, and `main`; Protocol is the messages of
--                PROTOCOL.md as types of documents
--   Client       src/mfc/StreamClient.cpp: decoding, with Decode and Listing on the
--                relay's replies; Wire is `send_line` and the requests, Session
--                is the receive loop of `run`; Resources the handles of the tunnel and the
--                socket over the steps of `run` and `stop`
--   Dialog       src/mfc/MainDlg.cpp: the rows of the list, the answers that are kept, the weeks;
--                Events is the handlers of the button, the mode and the timer, Chart the scale and
--                the lines of the chart, Plot its rectangles, Drawing `draw_week`, Labels
--                `draw_annotations`, Screen `draw_chart` and `draw_hover`, Compared `draw_multi`,
--                Hover `update_hover`, Mouse `PreTranslateMessage`, Rows `fill_channels` on the list
--                control, Layout `layout`, Placement the place of the window in the registry
--   Served       the collector and the relay together
--   Tests        the theorems on concrete data
--
-- How the parts interact: Collector.Store writes the tables that Push.Queries reads. Push.Request
-- takes the queries as a record of operations, which Push.Queries fills. Push.Server runs
-- Push.Request under the loop of Framing, and Client reads what it writes with the same loop.
-- Dialog is called with what Client decodes.
--
-- How state is modelled: a function takes the state and gives the new one, `none` standing for a
-- C++ exception. The kernel, libcurl, SQLite's failures and the clock are arguments: lists of what
-- successive calls return. `send_json` and the like append to the output of a connection; what went
-- to the peer is a result of `flush`. rapidjson's parser and writer are functions of an environment.
-- Numbers that cannot be negative (times, sizes, descriptors) are natural numbers; the others are
-- integers, and `static_cast<int>` is a reduction modulo 2^32.
--
-- What is drawn is a list of strokes, texts and marks in the order of the calls. The operations on
-- `double`, the width of a text, CRect::PtInRect and CRect::IntersectRect are parameters; pixels are
-- integers without bound, and `/` rounds towards 0 as in C++. The scale of the chart is without bound
-- too, where the source computes it in `int`. The list control is a record of the
-- operations that the code calls, with the laws of a list view of one selection.
--
-- Every epoll event of the relay brings the answers of the database while it is handled, the same for
-- all its lines, as is its reading of the clock; from one event to the next they may change.
--
-- An object that owns handles is a function of the body that runs in its scope: it takes them,
-- runs the body, and gives them back, also where the body throws.
--
-- Fuel: the loop over the lines of a buffer has one more than its length, since each round takes at
-- least the newline off; `fetch_top_lives` has one more than the number of lives that are asked
-- for, since each round but the last adds a live; the search for the scale has one more than the
-- highest number of viewers, since the base grows in each round; a loop that counts up to a bound has
-- one more than its distance from it.
--
-- Not modelled: socket options and the signal mask; pragmas and indexes of the database; logging; the
-- command of the SSH tunnel and Winsock; pens, colours, fonts and text formats; the start of the
-- window and its icons; the Python versions of the programs.
pub mod Prelude
pub mod Framing
pub mod Json
pub mod Db
pub mod Push
pub mod Settings
pub mod Handles
pub mod Served
pub mod Collector
pub mod Client
pub mod Dialog
pub mod Tests
