-- ===== src/Lib.antt =====
-- A model of the native TRANSAQ client of this repository, with its correctness theorems.
--
-- The program is a Go client for the binary protocol of a TRANSAQ server. The lowest layer encrypts
-- and frames packets (native/cryptoprofile, native/wire), the next reads and writes the fields of a
-- payload (native/wire/codec.go), and the record layer cuts the payload of a reply into records and
-- parses them (native/records). The session (native/session) exchanges requests and replies over
-- one connection: it logs in, sends transactions, and takes the session up again over a new socket.
--
-- Parts and files:
-- - Common: shared names, lists over the native numbers, maps with their keys, results, properties of
--   small numbers, the laws of `^`.
-- - Crypto: native/cryptoprofile/gost.go and tables.go.
-- - Wire: native/wire. Writer and Reader are the field encodings of codec.go, Cursor is its reader
--   with buffer and offset, Frame is frame.go.
-- - Records: native/records. Parser has sequences and loops of reads, Options, Ticks, Trades,
--   Quotes, Messages and Misc have the readers of single records, Trades also the check for
--   repeated trades, Bodies those that find where a body ends, and Split has `records` itself.
--   Dictionary has the reply to RQ_STARTUP, Securities the securities, and Catalog the state that
--   both are kept in; Orders, Modify and Clients have the records of orders and accounts. The decoder of
--   cp1251 is a parameter of these (`cp1251`). Securities/Layout writes the body of a security out, as
--   no code of the repository does, and Split/Cuts the splitting without fuel. The loops take the number of unread bytes as fuel,
--   and each round reads a byte at least. How many bytes a zlib stream takes is a parameter
--   (`inflate`).
-- - Session: native/session. Payloads and Replies have what the requests and their replies hold,
--   Conn the connection and an exchange on it, Login the login, Transact the transactions, Restore
--   the short recovery, Requests the requests of an open session, and Inquire the document that
--   comes in chunks. What the socket and the context do during an exchange is its parameter `Net`:
--   what the calls return, and the bytes that come in time.
-- - Model: native/model. Decimal has the exact numbers with their text (decimal.go) and their
--   parser (order.go); formatting and parsing of integers and the trimming of white space are those
--   of Go.
-- - Native: native. Recovery has the timeouts and the loop around the short recovery (recover.go),
--   Orders the accounts and orders that the client keeps (client_orders.go, events_order.go,
--   client_accounts.go), Subscriptions the feeds by symbol (client_subscribe.go); the orders in
--   which Go ranges over a map are a parameter of these (`ranges`). Poll has one poll of the client
--   (client.go), with the decoders of the records as a parameter (`decoders`).
-- - Server: server/broker.go, between the callback of the connector and the clients that
--   subscribed.
-- - Client: client/reconnect.go, in Reconnect, and client/response_queue.go, which stands between
--   the receive loop of the gRPC client and the consumers of its messages. Queue has the parts
--   under the lock and Steps their interleavings.
--
-- Bytes are numbers below 256, byte slices and strings are lists of them, and signed words are
-- their bit patterns. A Go map is an association list. The texts of errors are left out; a value
-- that Go returns beside an error, and that no caller reads, is left out too. Exchanges run one at
-- a time, as under the connection's lock, and durations are nanoseconds.
--
-- Not modelled: the other sized records, the XML and the gRPC calls, whose code is mostly layouts
-- and texts; the new login of the native client, its positions and its commands; the conversion of
-- trades, which is arithmetic on Go's times; the terminal, the programs and the generated code.

pub mod Common
pub mod Crypto
pub mod Wire
pub mod Records
pub mod Client
pub mod Model
pub mod Native
pub mod Server
pub mod Session
