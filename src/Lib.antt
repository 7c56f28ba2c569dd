-- ===== src/Lib.antt =====
-- Gensokyo-Discord: a bridge that lets OneBot clients, which know users and groups by small numbers,
-- talk to Discord, which knows them by long identifiers. The library models the parts of the program
-- that keep the two apart and together (the identifier database, the endpoint that shares it between
-- instances, the chat commands that change it) and the way of a message in both directions: from Discord
-- to an event that is broadcast, and from an action of a client to a channel; with them the connections to
-- the clients, the image host, the login of the web panel, the short links and the record of messages.
--
-- The parts and their files. Paths are from the repository's root; a definition has the name of its Go
-- function in snake case.
--   Idmap.Ids, RowId, Keys   idmap/service.go: `StoreID`, `SimplifiedStoreID`, `RetrieveRowByID`,
--                            `RetrieveRealValue`, `RetrieveVirtualValue`, `UpdateVirtualValue`,
--                            `GenerateRowID`, `CheckValue`; the spelling of the keys
--   Idmap.Pairs              idmap/service.go: the functions in Pro, on pairs of a group and a user
--   Idmap.Sections, Members  idmap/service.go: `WriteConfig`, `ReadConfig`, `FindKeysBySubAndType`,
--                            `FindSubKeysById`
--   Idmap.Remote             idmap/service.go: the functions in v2, which ask another instance when the
--                            setting `lotus` is on
--   Server.GetId             server/getIDHandler.go: the endpoint that answers them
--   Processor.Commands       Processor/Processor.go: the one-time commands
--   Processor.Bind           Processor/Processor.go: `performBindOperation` and its V2
--   Processor.Framework      Processor/Processor.go: `HandleFrameworkCommand`
--   Processor.Events         Processor/ProcessGuildNormalMessage.go, ProcessChannelDirectMessage.go
--   Processor.Broadcast      Processor/Processor.go: `BroadcastMessageToAll`, `PostMessageToUrls`
--   Callapi                  callapi/callapi.go: the parameters of an action, the register of handlers
--   Handlers.Types           handlers/message_parser.go, handlers/send_msg.go: what kind of conversation
--                            an identifier belongs to
--   Handlers.Send            handlers/send_group_msg.go, send_msg.go, send_private_msg.go and
--                            send_guild_channel_msg.go: the actions that send
--   Handlers.Revert          handlers/message_parser.go: `RevertTransformedText` and `SendMessage`
--   Handlers.Parser          handlers/message_parser.go: `parseMessageContent`, its regular expressions
--   Handlers.Reply           handlers/send_guild_channel_msg.go: `GenerateReplyMessage`, the message for
--                            Discord, with the buttons and tags of a markdown
--   Handlers.Quick           handlers/handle_quick_operation.go
--   Httpapi                  httpapi/httpapi.go: the sending actions over HTTP
--   Wsclient                 wsclient/ws.go: the connections to OneBot applications
--   Server.Ws, Server.Upload server/wsserver.go, server/uploadpic.go
--   Webui                    webui/cookie.go, and of webui/api.go the login and the table of requests
--   Shorturl                 shorturl/shorturl.go: `GenerateShortURL` and what a short link leads to
--   Echo                     echo/echo.go and echo/messageidmap.go: the messages behind an echo or a group
--   Config                   config/config.go: the settings that these parts read, and their getters
-- `HandleFrameworkCommand` calls the v2 functions; they work on the database or send a request, and
-- `GetIDHandler` of the other instance turns the request into calls of the same v2 functions there. An
-- event stores its identifiers in the same database, runs the commands, and notes its type and message in
-- Echo, where the sending actions look; it is broadcast over Wsclient and the clients of Server.Ws.
--
-- Libraries are parameters. Bolt is the interface of a bucket of the database boltdb: reading, writing,
-- deleting, the entries in key order, and which keys and values a write accepts; Bolt.Sorted fills it
-- with a sorted list, on which the tests run. `db.Update` is one step: the definitions return the new
-- bucket or an error, and after an error the caller keeps the old one, which is the rollback. Http has
-- the network as a function from a URL to a reply, and the reply's JSON already decoded. The MD5 digest
-- is a function from texts to texts, and so are the encoders of JSON and base64, the reading of a file
-- and a download. Random bytes and the outcome of Discord's calls are arguments.
--
-- Data. A string is the list of its bytes. An int64 is its bit pattern, a number below 2 ^ 64, and the
-- sum that can wrap is taken modulo 2 ^ 64. A call returns a value, an error value or a panic; an error
-- is the kind of its text. Decimal digits are made with fuel 20, enough for every number below 10 ^ 20
-- and so for every int64. The loop of `GenerateShortURL` has as fuel the number of random strings that it
-- tries, and ends once one of them is free. The three sending actions call themselves: their fuel is the
-- depth of these calls, and five are enough where they come back at all. The dialling loop has as fuel
-- the attempts that are allowed and one more. Every other recursion is structural. The goroutines of
-- wsclient are a step relation, in which each of them may go on at any time.
--
-- Not modelled: opening and closing the database, `UpdateKeysWithNewID`, the validity tests of a link,
-- the loading of config.yml, the segments of an event in array mode, the actions that ask for lists and
-- information, the sockets themselves, logging (mylog) and restarts (sys), which are input and output
-- for the most part; discordgo is a copy of another project, and the frontend is not Go. Outside
-- wsclient, concurrency is not modelled within a call, but for a client that leaves during a broadcast
-- (Server.Ws): every transaction is a step of its own, and the mutex around the one-time commands makes
-- their functions steps too.
pub mod Prelude
pub mod Strconv
pub mod Wsclient
pub mod Webui
pub mod Bolt
pub mod Config
pub mod Http
pub mod Idmap
pub mod Server
pub mod Processor
pub mod Shorturl
pub mod Echo
pub mod Callapi
pub mod Handlers
pub mod Httpapi
mod Tests
