-- ===== src/Lib.antt =====
-- The browser game "Chair Constructor Online": a room earns chairs, buys machines that
-- produce more of them, and is told what it owns and what it can soon buy. The server is
-- webapp/nodejs, the client webapp/public.
--
-- The parts of the program and their files:
--
--   webapp/nodejs/MItem.js        MItem: the constructor, `getPrice`, `getPower` and `toJSON`; in
--                                 MItem/Formula the formula that the comments state.
--   webapp/nodejs/Exponential.js  Exponential, with `big2exp` of webapp/nodejs/Game.js; in
--                                 Exponential/Bounds how much of a number it keeps.
--   webapp/nodejs/Game.js         `calcStatus` is Status: Types holds its data and the record
--                                 `Locals` of its local variables; Start its loops before the
--                                 simulation; Simulate one round and the loop; Report what it
--                                 returns. Balance is an account of a room that does not follow
--                                 the code: what arrived, less what was spent, plus what the
--                                 bought machines produced. Queues, Counting, Pricing, Books,
--                                 Ready, Opening, Arrivals, Notes, Builds, Sales, Ticking,
--                                 Forecast and Outcome lead from the one to the other.
--                                 `getStatus`, `addIsu`, `buyItem`, `updateRoomTime` and
--                                 `getCurrentTime` are Game, written in the monad of
--                                 Store/Session, with the rules of Store/Rules, Store/Success and
--                                 Store/Total. Game/Atomic is about failing calls; Items,
--                                 Transactions, Addings, Rooms, Earnings, Paid, Purchases and
--                                 Payment about what a successful call writes; Sound, Consistent,
--                                 Statuses and Reachable about the databases that calls lead to;
--                                 Connections and Returned about the pool.
--   db/isudb.sql                  Store/Tables: the tables, and the SQL statements of Game.js.
--   db/m_item.sql                 Game/Master: the master table of items.
--
--   webapp/public/game.js         Client/Clock: the estimate of the time of the server. Client/Room:
--                                 the requests of a player, as reactions to events; what is handed
--                                 to the socket is the list `sent`. Room/Callbacks, Room/Coherent,
--                                 Room/Purchases, Room/Waiting and Room/Clicks hold its theorems.
--                                 Client/Items: the loop of `calcItem` over the machines to come,
--                                 and `calcDisabled`.
--                                 Client/Notation: how numbers are written and added; in
--                                 Notation/Powers, Shown and Sums its theorems. Client/View: what a
--                                 `GameState` shows at a time; in View/Account how it agrees with
--                                 the account of Status/Balance, in View/Order the order of what is
--                                 still to come. Client/Page: `startGame` and the object `game`.
--   webapp/public/debugview.js    Debug: the texts that are typed in are Numbers, the elements of a
--                                 page Dom, the rows of the table and the timer Table, the listeners
--                                 Clicks.
--   webapp/public/gui.js          Gui: the images and the items are Assets; what phina is asked to
--                                 draw is Nodes; the first scene is Opening; Main holds what is on
--                                 the screen and `update`, with Buttons and Stage; Clicks the clicks
--                                 and the application.
--   webapp/nodejs/index.js        Web: the routes and the listener of messages are Handler, the loop
--                                 that sends a status every half second is Timer, in Timer/Going
--                                 how it keeps sending; the pool, the
--                                 routes and what is set up for a websocket are Server.
--
-- Whole puts the server and the browser together: `/initialize`, then any events at the web server
-- (Web/Serving), then a status on a socket, and what the browser picks from it.
--
-- Prelude and Js hold what the parts share: tests on numbers, lists, options and integers; plain
-- objects used as maps, with their order of enumeration; digits and `parseInt`.
--
-- Choices. The package `bigint` is not part of the repository: Bigint is an interface with the
-- operations that the code calls and the laws that the package documents, and Bigint/Exact meets it
-- with the integers, where a theorem is applied; which texts `bigint` throws on is a part of the
-- interface. Numbers of JavaScript are natural numbers or integers: times, ordinals and the
-- parameters of items are non-negative and small enough to be exact. In `calcStatus` an exception
-- is the result `none`. Tables are lists in the order in which a SELECT returns them, and an INSERT
-- appends. Every call of the server may fail, at the will of the parameter `Server`, which also
-- holds the clock; a call that fails changes nothing, a failing commit commits nothing. Each
-- transaction begins on what is committed; on a connection given back with an open transaction
-- MySQL would commit that one first, and such connections are counted. A method holds the lock of
-- its room from its first statement to its end, so the methods run one after the other; those of
-- different rooms, which touch different rows, do so in the model too, and `/initialize` runs
-- between methods, not in the middle of one. The loop over the next 1000 milliseconds is recursion
-- on the rounds that are left. The search of a free time in `sendAdd` has a number above all taken
-- times as fuel, and the loop that pads a text to 15 characters has 15.
--
-- The floating-point numbers of the browser are the interface Js/Float, with the laws that hold of
-- integers below 10 ^ 15 and of their quotients by powers of ten; fractions meet it where a theorem
-- is applied. The order of `Math.min` and `Math.max` is that of `<=`, without NaN. A finite number is
-- below 10 ^ 309, which is the fuel of the loop of `conv`; 32 bits are the fuel of the loop that makes
-- zeros, and three calls are enough for `add_xx`. The elements of a page are the list of those that
-- the script creates or finds by their `id`; on a missing element it throws, and a timer that throws
-- is taken to leave the elements alone. `encodeURIComponent` is a parameter. The JSON of a message is
-- given as what `JSON.parse` makes of it, and the number of an adding as decimal digits.
--
-- The library phina.js is not modelled: places are kept as gui.js writes them, in cells of a grid and
-- pixels, an animation is a list of scales, and clicks, frames and ends of animations are calls from
-- outside. `String.prototype.repeat` counts with the comparisons of Js/Float.
--
-- Not modelled: of webapp/public the library phina.js, a copy of another project; of
-- webapp/nodejs/index.js the work of the packages: routing, serving files, reading and writing JSON; the
-- same server in other languages, the benchmark and the portal.
pub mod Prelude
pub mod Js
pub mod Bigint
pub mod MItem
pub mod Exponential
pub mod Status
pub mod Store
pub mod Game
pub mod Client
pub mod Debug
pub mod Gui
pub mod Web
pub mod Whole
